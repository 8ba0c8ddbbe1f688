-- ===== src/Recording/Avcc.antt =====
-- What a reader of the length prefixes finds in the output of annexBToAvcc.
use rtc_egress.Prelude.{
  ℕ, zero, suc, ◌+◌, ◌*◌, ◌/◌, ◌%◌, ◌≤◌, ◌<◌, List, [], ◌∷◌, ◌++◌, Bool, true, false, ◌&&◌, ◌==◌,
  leb, if◌then◌else◌, length, length-append, take, drop, Option, none, some, ◌≡◌, refl, ◌∙◌, ap,
  arith, All, Bool-cases, inl, inr,
}
use rtc_egress.Recording.NalUnits.{
  start_code, split_nal, nal_type, is_param_set, length_prefix, written, to_avcc, annex_b_to_avcc,
}

-- A unit of the stream: its start code is long or short, and its bytes follow, the first apart.
pub record Coded : Type 0 where
  pub is_long : Bool
  pub first : ℕ
  pub more : List ℕ

abbrev pub bytes_of : Coded → List ℕ
bytes_of u = u.first ∷ u.more

abbrev pub code_of : Bool → List ℕ
code_of true = 0 ∷ 0 ∷ 0 ∷ 1 ∷ []
code_of false = 0 ∷ 0 ∷ 1 ∷ []

-- The stream of the units.
unfoldable pub annex_b : List Coded → List ℕ
annex_b [] = []
annex_b (u ∷ us) = code_of u.is_long ++ (bytes_of u ++ annex_b us)

-- As H264 and HEVC ask of a unit: no 00 00 00 and no 00 00 01 inside, and no zero at its end.
abbrev pub IsClean : List ℕ → Type 0
IsClean [] = Unit
IsClean (a ∷ []) = (a == 0) ≡ false
IsClean (a ∷ b ∷ []) = (b == 0) ≡ false
IsClean (a ∷ b ∷ c ∷ rest) = ((a == 0 && b == 0 && leb c 1) ≡ false) × IsClean (b ∷ c ∷ rest)

IsClean-tail : (a : ℕ) (rest : List ℕ) → IsClean (a ∷ rest) → IsClean rest
IsClean-tail a [] h = tt
IsClean-tail a (b ∷ []) h = h
IsClean-tail a (b ∷ c ∷ rest) h = h.1

no_code_first : (a : ℕ) (xs : List ℕ) → (a == 0) ≡ false → start_code (a ∷ xs) ≡ 0
unfolding start_code
no_code_first a [] h = refl
no_code_first a (b ∷ []) h = refl
no_code_first a (b ∷ c ∷ []) h = rw h refl
no_code_first a (b ∷ c ∷ d ∷ xs) h = rw h refl

no_code_second : (a b : ℕ) (xs : List ℕ) → (b == 0) ≡ false → start_code (a ∷ b ∷ xs) ≡ 0
unfolding start_code
no_code_second a b [] h = refl
no_code_second a b (c ∷ []) h = ground arith
no_code_second a b (c ∷ d ∷ xs) h = ground arith

no_code_third :
    (a b c : ℕ) (xs : List ℕ)
    → (a == 0 && b == 0 && leb c 1) ≡ false
    → start_code (a ∷ b ∷ c ∷ xs) ≡ 0
unfolding start_code
no_code_third a b c [] h = ground arith
no_code_third a b c (d ∷ xs) h = ground arith

no_code : (a : ℕ) (nal next : List ℕ) → IsClean (a ∷ nal) → start_code (a ∷ (nal ++ next)) ≡ 0
no_code a [] next h = no_code_first a next h
no_code a (b ∷ []) next h = no_code_second a b next h
no_code a (b ∷ c ∷ nal) next h = no_code_third a b c (nal ++ next) h.0

-- What follows a unit: nothing, or a start code.
Follows : List ℕ → Type 0
Follows [] = Unit
Follows (b ∷ bytes) = (start_code (b ∷ bytes) == 0) ≡ false

split-clean :
    (nal next : List ℕ) → IsClean nal → Follows next → split_nal (nal ++ next) ≡ (nal, next)
unfolding split_nal Follows
split-clean [] [] h f = refl
split-clean [] (b ∷ bytes) h f = rw f refl
split-clean (a ∷ nal) next h f =
    let ih = split-clean nal next (IsClean-tail a nal h) f in rw (no_code a nal next h, ih) refl

abbrev pub IsUnit : Coded → Type 0
IsUnit u = IsClean (bytes_of u)

Follows-annex_b : (us : List Coded) → Follows (annex_b us)
unfolding Follows annex_b start_code
Follows-annex_b [] = tt
Follows-annex_b (u ∷ us) = coded u.is_long
  where
    coded : (long : Bool) → Follows (code_of long ++ (bytes_of u ++ annex_b us))
    coded true = refl
    coded false = refl

-- The output of the units one by one.
unfoldable pub outputs : Bool → List Coded → List ℕ
outputs is_hevc [] = []
outputs is_hevc (u ∷ us) = written is_hevc u.first (bytes_of u) ++ outputs is_hevc us

round_lem :
    (is_hevc long : Bool) (fuel first : ℕ) (more next : List ℕ)
    → IsClean (first ∷ more)
    → Follows next
    → to_avcc is_hevc (suc fuel) (code_of long ++ (first ∷ (more ++ next)))
      ≡ written is_hevc first (first ∷ more) ++ to_avcc is_hevc fuel next
unfolding to_avcc start_code
round_lem is_hevc true fuel first more next h f = rw (split-clean (first ∷ more) next h f) refl
round_lem is_hevc false fuel first more next h f = rw (split-clean (first ∷ more) next h f) refl

length-code_of : (long : Bool) → 3 ≤ length (code_of long)
length-code_of true = omega arith
length-code_of false = omega arith

to_avcc-nil : (is_hevc : Bool) (fuel : ℕ) → to_avcc is_hevc fuel [] ≡ []
unfolding to_avcc
to_avcc-nil is_hevc zero = refl
to_avcc-nil is_hevc (suc fuel) = refl

to_avcc_lem :
    (is_hevc : Bool) (fuel : ℕ) (us : List Coded)
    → All IsUnit us
    → length (annex_b us) ≤ fuel
    → to_avcc is_hevc fuel (annex_b us) ≡ outputs is_hevc us
unfolding annex_b outputs
to_avcc_lem is_hevc zero [] h e = to_avcc-nil is_hevc 0
to_avcc_lem is_hevc (suc fuel) [] h e = to_avcc-nil is_hevc (suc fuel)
to_avcc_lem is_hevc zero (u ∷ us) h e = absurd (
    omega (
      arith,
      length-append (code_of u.is_long) (bytes_of u ++ annex_b us),
      length-code_of u.is_long,
    ))
to_avcc_lem is_hevc (suc fuel) (u ∷ us) h e =
    round_lem is_hevc u.is_long fuel u.first u.more (annex_b us) h.0 (Follows-annex_b us)
    ∙ ap (λ rest. written is_hevc u.first (bytes_of u) ++ rest)
        (to_avcc_lem is_hevc fuel us h.1 (
          omega (
            arith,
            length-append (code_of u.is_long) (bytes_of u ++ annex_b us),
            length-code_of u.is_long,
            length-append (bytes_of u) (annex_b us),
          )))

-- The units that are not parameter sets, whose place is the extradata.
unfoldable pub video_units : Bool → List Coded → List (List ℕ)
video_units is_hevc [] = []
video_units is_hevc (u ∷ us) =
    let rest = video_units is_hevc us in
    if is_param_set is_hevc (nal_type is_hevc u.first) then rest else bytes_of u ∷ rest

abbrev pub length_of : ℕ → ℕ → ℕ → ℕ → ℕ
length_of a b c d = a * 16777216 + b * 65536 + c * 256 + d

-- A reader of length prefixes: none where a prefix or a unit is cut.
unfoldable pub read_avcc : ℕ → List ℕ → Option (List (List ℕ))
read_avcc zero bytes = none
read_avcc (suc fuel) [] = some []
read_avcc (suc fuel) (a ∷ b ∷ c ∷ d ∷ bytes) =
    let n = length_of a b c d in
    let rest = read_avcc fuel (drop n bytes) in
    if leb n (length bytes)
    then (elim rest [ none ↦ none | some units ↦ some (take n bytes ∷ units) ])
    else none
read_avcc (suc fuel) _ = none

length_of_prefix :
    (n : ℕ)
    → n < 4294967296
    → length_of (n / 16777216 % 256) (n / 65536 % 256) (n / 256 % 256) (n % 256) ≡ n
length_of_prefix n h = omega arith

take-own : (xs ys : List ℕ) → take (length xs) (xs ++ ys) ≡ xs
take-own [] ys = refl
take-own (x ∷ xs) ys = ap (λ r. x ∷ r) (take-own xs ys)

drop-own : (xs ys : List ℕ) → drop (length xs) (xs ++ ys) ≡ ys
drop-own [] ys = refl
drop-own (x ∷ xs) ys = drop-own xs ys

read_unit :
    (fuel : ℕ) (nal rest : List ℕ) (units : List (List ℕ))
    → length nal < 4294967296
    → read_avcc fuel rest ≡ some units
    → read_avcc (suc fuel) ((length_prefix (length nal) ++ nal) ++ rest) ≡ some (nal ∷ units)
unfolding read_avcc length_prefix
read_unit fuel nal rest units h e =
    rw
      (
        length_of_prefix (length nal) h,
        fits,
        drop-own nal rest,
        e,
        length_of_prefix (length nal) h,
        take-own nal rest,
      )
      refl
  where
    fits : leb (length nal) (length (nal ++ rest)) ≡ true
    fits = ground (arith, length-append nal rest)

abbrev pub IsSmall : Coded → Type 0
IsSmall u = length (bytes_of u) < 4294967296

read_nil : (fuel : ℕ) → read_avcc (suc fuel) [] ≡ some []
unfolding read_avcc
read_nil fuel = refl

read-outputs :
    (is_hevc : Bool) (us : List Coded) (fuel : ℕ)
    → All IsSmall us
    → length us < fuel
    → read_avcc fuel (outputs is_hevc us) ≡ some (video_units is_hevc us)
unfolding outputs video_units written
read-outputs is_hevc us zero h e = absurd (omega arith)
read-outputs is_hevc [] (suc fuel) h e = read_nil fuel
read-outputs is_hevc (u ∷ us) (suc fuel) h e =
    elim (Bool-cases (is_param_set is_hevc (nal_type is_hevc u.first))) [
      | inl set ↦ rw set (read-outputs is_hevc us (suc fuel) h.1 (omega arith))
      | inr video ↦ rw video (
          read_unit fuel (bytes_of u) (outputs is_hevc us) (video_units is_hevc us) h.0
            (read-outputs is_hevc us fuel h.1 (omega arith)))
    ]

-- What annexBToAvcc makes of a stream of units, each behind a long or a short start code, without a
-- start code inside and without a zero at its end, and shorter than 2 ^ 32 bytes: a reader of length
-- prefixes finds in it, whole and in order, the units that are not parameter sets (SPS and PPS of
-- H264; VPS, SPS and PPS of HEVC), and nothing else.
pub read_avcc-annex_b_to_avcc :
    (is_hevc : Bool) (us : List Coded)
    → All IsUnit us
    → All IsSmall us
    → read_avcc (length us + 1) (annex_b_to_avcc (annex_b us) is_hevc)
      ≡ some (video_units is_hevc us)
read_avcc-annex_b_to_avcc is_hevc us h small =
    ap (read_avcc (length us + 1)) (to_avcc_lem is_hevc (length (annex_b us)) us h (omega arith))
    ∙ read-outputs is_hevc us (length us + 1) small (omega arith)

-- ===== src/Segments/Names.antt =====
-- src/ts_segment_manager.cpp, generateSegmentFilename: segment_00001.ts, as bytes.
use rtc_egress.Prelude.{
  ℕ, zero, suc, ◌+◌, ◌*◌, ◌/◌, ◌%◌, ◌-◌, ◌≤◌, ◌<◌, List, [], ◌∷◌, ◌++◌, ◌≡◌, refl, ap, ◌∙◌, arith,
  inl, inr, Bool-cases, ltb, ◌==◌, if◌then◌else◌, length, All, All-append, drop,
}
use rtc_egress.Streaming.Url.{ascii}

-- The decimal digits of a number, for a number below `fuel`.
unfoldable pub digits : ℕ → ℕ → List ℕ
digits zero n = []
digits (suc fuel) n =
    let others = digits fuel (n / 10) in
    if ltb n 10 then (48 + n) ∷ [] else others ++ (48 + n % 10) ∷ []

abbrev pub zeros : ℕ → List ℕ
zeros zero = []
zeros (suc n) = 48 ∷ zeros n

-- std::setfill('0') << std::setw(width)
unfoldable pub pad : ℕ → List ℕ → List ℕ
pad width text = zeros (width - length text) ++ text

pub segment_filename : ℕ → List ℕ
segment_filename n = ascii "segment_" ++ (pad 5 (digits (suc n) n) ++ ascii ".ts")

-- The number that a text of digits stands for, behind `acc`.
unfoldable pub value : ℕ → List ℕ → ℕ
value acc [] = acc
value acc (c ∷ cs) = value (acc * 10 + (c - 48)) cs

value-append : (acc : ℕ) (xs ys : List ℕ) → value acc (xs ++ ys) ≡ value (value acc xs) ys
unfolding value
value-append acc [] ys = refl
value-append acc (x ∷ xs) ys = value-append (acc * 10 + (x - 48)) xs ys

value-zeros : (n : ℕ) → value 0 (zeros n) ≡ 0
unfolding value
value-zeros zero = refl
value-zeros (suc n) = value-zeros n

value-digits : (fuel n : ℕ) → n < fuel → value 0 (digits fuel n) ≡ n
unfolding digits
value-digits zero n h = absurd (omega arith)
value-digits (suc fuel) n h = elim (Bool-cases (ltb n 10)) [
  | inl small ↦ rw small (unfold value in omega arith)
  | inr big ↦
      rw (big, value-append 0 (digits fuel (n / 10)) ((48 + n % 10) ∷ []))
        (rw (value-digits fuel (n / 10) (ground arith)) (unfold value in omega arith))
]

-- The text before the first '.'.
unfoldable pub until_dot : List ℕ → List ℕ
until_dot [] = []
until_dot (c ∷ cs) = if c == b'.' then [] else c ∷ until_dot cs

until_dot-digits : (xs rest : List ℕ) → All (λ c. 48 ≤ c) xs → until_dot (xs ++ b'.' ∷ rest) ≡ xs
unfolding until_dot
until_dot-digits [] rest h = refl
until_dot-digits (x ∷ xs) rest h = ground (arith, until_dot-digits xs rest h.1)

digits-All : (fuel n : ℕ) → All (λ c. 48 ≤ c) (digits fuel n)
unfolding digits
digits-All zero n = tt
digits-All (suc fuel) n = elim (Bool-cases (ltb n 10)) [
  | inl small ↦ rw small (omega arith, tt)
  | inr big ↦ rw big (
      All-append (λ c. 48 ≤ c) (digits fuel (n / 10)) _ (digits-All fuel (n / 10))
        (omega arith, tt))
]

zeros-All : (n : ℕ) → All (λ c. 48 ≤ c) (zeros n)
zeros-All zero = tt
zeros-All (suc n) = (omega arith, zeros-All n)

-- The number of a segment's name.
pub segment_number_of : List ℕ → ℕ
segment_number_of name = value 0 (until_dot (drop 8 name))

-- The name of a segment gives its number back, also above five digits, so two segments of a session
-- never share a file.
pub segment_number_of-segment_filename : (n : ℕ) → segment_number_of (segment_filename n) ≡ n
unfolding segment_number_of segment_filename pad
segment_number_of-segment_filename n =
    let ds = digits (suc n) n in
    let zs = zeros (5 - length ds) in
    ap (value 0) (
      until_dot-digits (zs ++ ds) _
        (All-append (λ c. 48 ≤ c) zs ds (zeros-All (5 - length ds)) (digits-All (suc n) n)))
    ∙ value-append 0 zs ds
    ∙ rw (value-zeros (5 - length ds)) (value-digits (suc n) n (omega arith))

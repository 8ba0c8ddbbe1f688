-- ===== src/Recording/Written.antt =====
-- The loop of writePassthroughAudioSamples: what the encoder is given of the samples that wait.
use rtc_egress.Prelude.{
  ◌*◌, ℕ, zero, suc, ◌+◌, ◌≤◌, ◌<◌, min, List, [], ◌∷◌, ◌++◌, append_assoc, ℤ, Option, none, some,
  Bool, true, false, not, ◌&&◌, ◌||◌, leb, if◌then◌else◌, length, length-drop, take, drop,
  take-append-drop, is_empty, ◌≡◌, refl, ◌∙◌, sym, ap, subst, arith, All, Bool-cases, inl, inr,
}
use rtc_egress.Recording.Passthrough.{
  Resampler, Taken, Frame, Sound, Coder, required, advance, encode_next, write_loop, write_samples,
}

-- The samples of the frames, the latest first in the list.
unfoldable pub sound_of : List Frame → List ℤ
sound_of [] = []
sound_of (f ∷ fs) = sound_of fs ++ f.samples

-- What was encoded, and what waits behind it.
abbrev pub heard : Sound → List ℤ
heard s = sound_of s.encoded ++ s.audio_sample_buffer

abbrev IsFull : Coder → Frame → Type 0
IsFull c f = length f.samples + f.silence ≡ c.frame_size * c.audio_channels

-- Each frame's time is over when the next begins.
abbrev pub Paced : ℕ → ℕ → List Frame → Type 0
Paced step next [] = Unit
Paced step next (f ∷ fs) = (f.pts + step ≤ next) × Paced step f.pts fs

abbrev pub PacedTo : ℕ → Option ℕ → List Frame → Type 0
PacedTo step none fs = fs ≡ []
PacedTo step (some next) fs = Paced step next fs

pub record IsSound (c : Coder) (s : Sound) : Type 0 where
  pub full : All (IsFull c) s.encoded
  pub paced : PacedTo (c.ticks_of c.frame_size) s.next_audio_pts s.encoded
  pub fresh : (s.next_audio_pts ≡ none) → s.input_sample_rate ≡ 0

-- A coder with frames of samples in the right format, which takes every one.
pub record IsWilling (c : Coder) : Type 0 where
  pub float : c.is_float ≡ true
  pub size : 0 < c.frame_size
  pub positive : 0 < c.frame_size * c.audio_channels
  pub takes : (n : ℕ) → c.takes n ≡ Taken.taken

length-take : {A : Type 0} (n : ℕ) (xs : List A) → length (take n xs) ≡ min n (length xs)
length-take zero xs = omega arith
length-take (suc n) [] = omega arith
length-take (suc n) (x ∷ xs) = omega (arith, length-take n xs)

heard-encode_next : (c : Coder) (s : Sound) → heard (encode_next c s) ≡ heard s
unfolding encode_next sound_of
heard-encode_next c s =
    append_assoc (sound_of s.encoded) (take n s.audio_sample_buffer) (drop n s.audio_sample_buffer)
    ∙ ap (λ rest. sound_of s.encoded ++ rest) (take-append-drop n s.audio_sample_buffer)
  where
    n : ℕ
    n = min (required c) (length s.audio_sample_buffer)

pub Paced-none : (step : ℕ) (fs : List Frame) → fs ≡ [] → (n : ℕ) → Paced step n fs
Paced-none step [] h n = tt
Paced-none step (f ∷ fs) h n = cc

encode_next-IsSound :
    (c : Coder) (s : Sound) (n : ℕ)
    → s.next_audio_pts ≡ some n
    → IsSound c s
    → IsSound c (encode_next c s)
unfolding encode_next
encode_next-IsSound c s n e h = record {
  full = (
    omega (
      arith,
      length-take (min (required c) (length s.audio_sample_buffer)) s.audio_sample_buffer,
    ),
    h.full,
  );
  paced = rw e (omega arith, subst (λ o. PacedTo (c.ticks_of c.frame_size) o s.encoded) e h.paced);
  fresh = λ k. cc (k, e);
}

-- What a writing of samples leaves, where the coder takes every frame.
pub record IsWritten (c : Coder) (flush : Bool) (before : List ℤ) (r : Bool × Sound) : Type 0 where
  pub done : r.0 ≡ true
  pub same : heard r.1 ≡ before
  pub sound : IsSound c r.1
  pub timed : (n : ℕ) × (r.1.next_audio_pts ≡ some n)
  pub rest : (flush ≡ false) → length r.1.audio_sample_buffer < c.frame_size * c.audio_channels
  pub nothing : (flush ≡ true) → r.1.audio_sample_buffer ≡ []

empty_lem : {A : Type 0} (xs : List A) → is_empty xs ≡ true → xs ≡ []
empty_lem [] h = refl
empty_lem (x ∷ xs) h = cc

nonempty : {A : Type 0} (xs : List A) → is_empty xs ≡ false → 0 < length xs
nonempty [] h = cc
nonempty (x ∷ xs) h = omega arith

below_required :
    (n : ℕ) (buffer : List ℤ)
    → 0 < n
    → (not (is_empty buffer) && (leb n (length buffer) || false)) ≡ false
    → length buffer < n
below_required n [] h e = h
below_required n (x ∷ buffer) h e = ground arith

emptied :
    (n : ℕ) (buffer : List ℤ)
    → (not (is_empty buffer) && (leb n (length buffer) || true)) ≡ false
    → buffer ≡ []
emptied n [] e = refl
emptied n (x ∷ buffer) e = ground arith

shorter :
    (n : ℕ) (b : Bool) (buffer : List ℤ)
    → 0 < n
    → (not (is_empty buffer) && b) ≡ true
    → length (drop (min n (length buffer)) buffer) < length buffer
shorter n b [] h e = cc
shorter n b (x ∷ buffer) h e = omega (arith, length-drop (min n (length (x ∷ buffer))) (x ∷ buffer))

stop_lem :
    (c : Coder) (flush : Bool) (s : Sound) (n : ℕ)
    → 0 < required c
    → s.next_audio_pts ≡ some n
    → IsSound c s
    → (not (is_empty s.audio_sample_buffer)
        && (leb (required c) (length s.audio_sample_buffer) || flush))
      ≡ false
    → IsWritten c flush (heard s) (true, s)
stop_lem c flush s n pos e h stop = record {
  done = refl;
  same = refl;
  sound = h;
  timed = (n, e);
  rest = λ f. below_required (required c) s.audio_sample_buffer pos (rw f at stop);
  nothing = λ f. emptied (required c) s.audio_sample_buffer (rw f at stop);
}

write_loop_lem :
    (c : Coder) (flush : Bool) (fuel : ℕ) (s : Sound) (n : ℕ)
    → IsWilling c
    → length s.audio_sample_buffer < fuel
    → s.next_audio_pts ≡ some n
    → IsSound c s
    → IsWritten c flush (heard s) (write_loop c flush fuel s)
unfolding write_loop encode_next
write_loop_lem c flush zero s n will enough e h = absurd (omega arith)
write_loop_lem c flush (suc fuel) s n will enough e h =
    elim (Bool-cases (
      not (is_empty s.audio_sample_buffer)
      && (leb (required c) (length s.audio_sample_buffer) || flush))) [
        | inr stop ↦ rw (write_loop, stop) (stop_lem c flush s n will.positive e h stop)
        | inl go ↦
            rw (write_loop, go, will.takes s.audio_frame_count)
              (subst
                (λ before. IsWritten c flush before (write_loop c flush fuel (encode_next c s)))
                (heard-encode_next c s)
                (write_loop_lem c flush fuel (encode_next c s) (n + c.ticks_of c.frame_size) will
                  (omega (arith, shorter (required c) _ s.audio_sample_buffer will.positive go))
                  (ap (advance (c.ticks_of c.frame_size)) e) (encode_next-IsSound c s n e h)))
      ]

some_next :
    (s : Sound) (n : ℕ)
    → s.next_audio_pts ≡ some n
    → s.next_audio_pts ≡ none
    → s.input_sample_rate ≡ 0
some_next s n e k = cc (e, k)

unfoldable pub with_tail : Sound → Bool → List ℤ → List ℤ
with_tail s flush tail = if flush && s.has_resampler then heard s ++ tail else heard s

selected :
    {A : Type 0} (fits fails : Bool) (x y z : A)
    → fits ≡ true
    → fails ≡ false
    → z ≡ (if not fits then x else if fails then y else z)
selected true false x y z e d = refl
selected true true x y z e d = cc
selected false fails x y z e d = cc

pub write_samples_lem :
    (c : Coder) (r : Resampler) (flush : Bool) (s : Sound) (n : ℕ)
    → IsWilling c
    → r.drains ≡ true
    → s.next_audio_pts ≡ some n
    → IsSound c s
    → IsWritten c flush (with_tail s flush r.tail) (write_samples c r flush s)
unfolding write_samples with_tail
write_samples_lem c r flush s n will drains e h =
    let size = will.size in
    let some_size : leb c.frame_size 0 ≡ false = ground arith in
    elim (Bool-cases (flush && s.has_resampler)) [
      | inr plain ↦
          let result = write_loop c flush (suc (length s.audio_sample_buffer)) s in
          rw plain (
            subst (IsWritten c flush (heard s))
              (selected c.is_float (leb c.frame_size 0) (false, s) (false, s) result will.float
                some_size)
              (write_loop_lem c flush (suc (length s.audio_sample_buffer)) s n will (omega arith) e
                h))
      | inl draining ↦
          let filled : Sound = record s { audio_sample_buffer = s.audio_sample_buffer ++ r.tail } in
          let result = write_loop c flush (suc (length (s.audio_sample_buffer ++ r.tail))) filled in
          rw (draining, drains)
            (subst (IsWritten c flush (heard s ++ r.tail))
              (selected c.is_float (leb c.frame_size 0) (false, s) (false, filled) result will.float
                some_size)
              (subst (λ before. IsWritten c flush before result)
                (sym (append_assoc (sound_of s.encoded) s.audio_sample_buffer r.tail))
                (write_loop_lem c flush (suc (length (s.audio_sample_buffer ++ r.tail))) filled n
                  will (omega arith) e
                  (record { full = h.full; paced = h.paced; fresh = h.fresh }))))
    ]

-- ===== src/Recording/Flushes.antt =====
-- When encodePassthroughAudioFrame of src/recording_sink.cpp flushes, and what a call adds.
use rtc_egress.Prelude.{
  length, ◌≢◌, ◌==◌, ◌/◌, ◌+◌, ◌<◌, ℕ, List, [], ◌++◌, ℤ, none, some, Bool, true, false, ◌||◌,
  if◌then◌else◌, ◌≡◌, refl, arith, Bool-cases, Option-cases, ◌⊎◌, inl, inr,
}
use rtc_egress.Recording.Passthrough.{
  Sound, Coder, AudioFrame, Resampler, is_gap, is_format_changed,
}
use rtc_egress.Recording.Written.{IsSound, IsWritten}

gap-none :
    (c : Coder) (r : Resampler) (pts : ℕ) (s : Sound)
    → s.next_audio_pts ≡ none
    → is_gap c r pts s ≡ false
unfolding is_gap
gap-none c r pts s e = rw (is_gap, e) refl

format-none : (f : AudioFrame) (s : Sound) → s.input_sample_rate ≡ 0 → is_format_changed f s ≡ false
unfolding is_format_changed
format-none f s e = rw (is_format_changed, e) refl

-- A flush has a time to go by.
pub flush_timed :
    (c : Coder) (r : Resampler) (f : AudioFrame) (pts : ℕ) (s : Sound)
    → IsSound c s
    → (is_gap c r pts s || is_format_changed f s) ≡ true
    → (n : ℕ) × (s.next_audio_pts ≡ some n)
flush_timed c r f pts s h change = elim (Option-cases s.next_audio_pts) [
  | inr (n, e) ↦ (n, e)
  | inl none_yet ↦
      let still : (is_gap c r pts s || is_format_changed f s) ≡ false =
        rw (gap-none c r pts s none_yet, format-none f s (h.fresh none_yet)) refl in
      cc (change, still)
]

-- The frame comes more than a tenth of a second after all that was given.
abbrev pub Gap : Coder → Resampler → ℕ → Sound → Type 0
Gap c r pts s =
    (next : ℕ) × (s.next_audio_pts ≡ some next)
    × (next
          + c.ticks_of (
              length s.audio_sample_buffer / c.audio_channels
              + (if s.has_resampler then r.delay else 0))
          + 9000
        < pts)

-- The frame has another rate or other channels than the one before it.
abbrev pub OtherFormat : AudioFrame → Sound → Type 0
OtherFormat f s =
    (0 < s.input_sample_rate)
    × ((s.input_sample_rate ≢ f.sample_rate) ⊎ (s.input_channels ≢ f.channels))

-- Where the resampler is emptied: there is one, and the frame is behind a gap or of another format.
abbrev Flushes : Coder → Resampler → AudioFrame → ℕ → Sound → Type 0
Flushes c r f pts s = (s.has_resampler ≡ true) × (Gap c r pts s ⊎ OtherFormat f s)

-- What a call adds: what the resampler still held, if it was emptied, and the frame's samples.
abbrev pub Added :
    Coder → Resampler → AudioFrame → ℕ → Sound → List ℤ → List ℤ → Bool × Sound → Type 0
Added c r f pts s before new result =
    (tail : List ℤ) × ((Flushes c r f pts s × (tail ≡ r.tail))
      ⊎ (¬ Flushes c r f pts s × (tail ≡ [])))
    × IsWritten c false ((before ++ tail) ++ new) result

is_gap-Gap :
    (c : Coder) (r : Resampler) (pts : ℕ) (s : Sound) → is_gap c r pts s ≡ true → Gap c r pts s
unfolding is_gap
is_gap-Gap c r pts s e = elim (Option-cases s.next_audio_pts) [
  | inl new ↦ cc (e, gap-none c r pts s new)
  | inr (next, known) ↦ (next, known, ground (arith, e, known))
]

Gap-is_gap :
    (c : Coder) (r : Resampler) (pts : ℕ) (s : Sound) → Gap c r pts s → is_gap c r pts s ≡ true
unfolding is_gap
Gap-is_gap c r pts s (next, known, late) = ground (arith, known, late)

is_format_changed-OtherFormat :
    (f : AudioFrame) (s : Sound) → is_format_changed f s ≡ true → OtherFormat f s
unfolding is_format_changed
is_format_changed-OtherFormat f s e = elim (Bool-cases (s.input_sample_rate == f.sample_rate)) [
  | inr other ↦ (ground arith, inl (λ same. ground arith))
  | inl equal ↦ (ground arith, inr (λ same. ground arith))
]

OtherFormat-is_format_changed :
    (f : AudioFrame) (s : Sound) → OtherFormat f s → is_format_changed f s ≡ true
unfolding is_format_changed
OtherFormat-is_format_changed f s (known, inl other) = ground arith
OtherFormat-is_format_changed f s (known, inr other) = ground arith

pub change-Flushes :
    (c : Coder) (r : Resampler) (f : AudioFrame) (pts : ℕ) (s : Sound)
    → (is_gap c r pts s || is_format_changed f s) ≡ true
    → Gap c r pts s ⊎ OtherFormat f s
change-Flushes c r f pts s e = elim (Bool-cases (is_gap c r pts s)) [
  | inl gap ↦ inl (is_gap-Gap c r pts s gap)
  | inr no_gap ↦ inr (is_format_changed-OtherFormat f s (ground arith))
]

pub no_change-Flushes :
    (c : Coder) (r : Resampler) (f : AudioFrame) (pts : ℕ) (s : Sound)
    → (is_gap c r pts s || is_format_changed f s) ≡ false
    → ¬ Flushes c r f pts s
no_change-Flushes c r f pts s e (there, inl gap) =
    let g = Gap-is_gap c r pts s gap in absurd (ground (arith, e, g))
no_change-Flushes c r f pts s e (there, inr other) =
    let g = OtherFormat-is_format_changed f s other in absurd (ground (arith, e, g))

-- ===== src/Mixer/Defs.antt =====
-- src/audio_mixer.cpp and src/include/audio_mixer.h: the inputs, push, and one block of drain.
--
-- A tick is one sample of every channel, and an input holds ticks. The resampler is an argument: what
-- it makes of a frame, or that it fails. Times in ticks are not negative.
use rtc_egress.Prelude.{
  ℕ, zero, suc, ◌+◌, ◌*◌, ◌/◌, max, String, List, [], ◌∷◌, ◌++◌, Option, none, some, Bool, true,
  false, not, ltb, if◌then◌else◌, length, Dict, lookup, insert, ℤ, pos, negsuc, pos_part, neg_part,
}

abbrev pub Tick : Type 0
Tick = List ℤ

-- AudioMixer::Input; `first_sample` is `none` for -1.
pub record Input : Type 0 where
  pub samples : List Tick
  pub first_sample : Option ℕ
  pub last_arrival : ℕ

abbrev pub new_input : Input
new_input = record { samples = []; first_sample = none; last_arrival = 0 }

-- `next_sample` is `none` for -1.
pub record Mixer : Type 0 where
  pub rate : ℕ
  pub channels : ℕ
  pub inputs : Dict Input
  pub next_sample : Option ℕ
  pub start : ℕ

-- AudioMixer::configure
abbrev pub configure : ℕ → ℕ → Mixer → Mixer
configure rate channels m = record m {
  rate = rate;
  channels = channels;
  inputs = [];
  next_sample = none;
}

-- AudioMixer::reset
abbrev pub reset : Mixer → Mixer
reset m = record m { inputs = []; next_sample = none }

-- Where the new ticks go: behind the old ones, or, in an input that is new or behind a gap of more
-- than a tenth of a second, at their own time.
unfoldable pub anchor : ℕ → ℕ → Input → Input
anchor rate at i = elim i.first_sample [
  | none ↦ record i { samples = []; first_sample = some at }
  | some first ↦
      if ltb (first + length i.samples + rate / 10) at
      then record i { samples = []; first_sample = some at }
      else i
]

abbrev pub next_tick : Option ℕ → Option ℕ
next_tick first = elim first [ none ↦ none | some n ↦ some (suc n) ]

-- The loop that bounds the input: the oldest tick goes while there are more than `limit`.
unfoldable pub trim : ℕ → List Tick → Option ℕ → List Tick × Option ℕ
trim limit [] first = ([], first)
trim limit (t ∷ ts) first =
    let others = trim limit ts (next_tick first) in
    if ltb limit (length (t ∷ ts)) then others else (t ∷ ts, first)

-- An input with new ticks.
unfoldable pub extend : ℕ → ℕ → ℕ → List Tick → Input → Input
unfolding anchor trim
extend rate at now ticks i =
    let a = anchor rate at i in
    let (kept, first) = trim (rate / 2) (a.samples ++ ticks) a.first_sample in
    record { samples = kept; first_sample = first; last_arrival = now }

abbrev pub input_or_new : String → Mixer → Input
input_or_new user m = elim (lookup user m.inputs) [ none ↦ new_input | some i ↦ i ]

-- AudioMixer::push; `valid` is the frame's guard, `converted` the ticks it comes to at the mixer's
-- rate, and `at` its timestamp in ticks.
unfoldable pub push : Bool → Option (List Tick) → ℕ → ℕ → String → Mixer → Bool × Mixer
unfolding extend
push valid converted at now user m =
    let i = input_or_new user m in
    if not valid then (false, m) else elim converted [
      | none ↦ (false, record m { inputs = insert user i m.inputs })
      | some ticks ↦ (
        true,
        record m {
          inputs = insert user (extend m.rate at now ticks i) m.inputs;
          next_sample = elim m.next_sample [ none ↦ some at | some n ↦ some n ];
          start = elim m.next_sample [ none ↦ now | some _ ↦ m.start ];
        },
      )
    ]

-- std::abs
abbrev pub abs_ℤ : ℤ → ℕ
abs_ℤ n = pos_part n + neg_part n

-- The loudest of the mixed samples, and 32767 at least.
unfoldable pub peak_of : List ℤ → ℕ
peak_of [] = 32767
peak_of (s ∷ ss) = max (abs_ℤ s) (peak_of ss)

abbrev pub negate : ℕ → ℤ
negate zero = pos 0
negate (suc n) = negsuc n

-- mixed * 32767 / peak, whose division drops the fraction on both sides of 0.
unfoldable pub limit_sample : ℕ → ℤ → ℤ
limit_sample peak (pos n) = pos (n * 32767 / peak)
limit_sample peak (negsuc n) = negate (suc n * 32767 / peak)

unfoldable pub limit_all : ℕ → List ℤ → List ℤ
limit_all peak [] = []
limit_all peak (s ∷ ss) = limit_sample peak s ∷ limit_all peak ss

-- The block that drain hands to the encoder. The sums are exact here; the code's int32_t holds those of
-- 2 ^ 16 publishers.
unfoldable pub limit_block : List ℤ → List ℤ
limit_block mixed = limit_all (peak_of mixed) mixed

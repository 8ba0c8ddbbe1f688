-- ===== src/Mixer/Tests.antt =====
-- The theorems on src/audio_mixer.cpp at a short frame.
use rtc_egress.Prelude.{
  ℕ, String, List, [], ◌∷◌, ◌++◌, ◌≡◌, refl, ◌⊎◌, insert, some, true, false, arith, pos, negsuc,
  lookup, str_eq, All, ◌+ℤ◌,
}
use rtc_egress.Mixer.Defs.{Tick, Mixer, anchor, trim, extend, push}
use rtc_egress.Mixer.Push.{IsShort, Continues, Restarts, held, kept, push_lem}
use rtc_egress.Mixer.Mix.{
  Track, add_tick, mix_tracks, drop_all_late, tick_at, sounds_at, mix_tracks-sounds_at,
}

abbrev silence : Tick
silence = pos 0 ∷ pos 0 ∷ []

abbrev beep : Tick
beep = pos 900 ∷ negsuc 900 ∷ []

-- Four ticks a second, so an input holds two.
abbrev slow : Mixer
slow = record {
  rate = 4;
  channels = 2;
  inputs =
      ("ann", record { samples = silence ∷ []; first_sample = some 10; last_arrival = 1 }) ∷ [];
  next_sample = some 10;
  start = 1;
}

-- A frame behind the input's end joins it, a later one does not.
joins_and_restarts :
    (lookup "ann" (push true (some (beep ∷ [])) 11 2 "ann" slow).1.inputs
      ≡ some (record { samples = silence ∷ beep ∷ []; first_sample = some 10; last_arrival = 2 }))
    × (lookup "ann" (push true (some (beep ∷ [])) 12 2 "ann" slow).1.inputs
        ≡ some (record { samples = beep ∷ []; first_sample = some 12; last_arrival = 2 }))
unfolding lookup push extend anchor trim insert
joins_and_restarts = (refl, refl)

push_lem_example :
    let n = (push true (some (beep ∷ beep ∷ [])) 11 2 "ann" slow).1 in
    ((old : List Tick) × (start : ℕ) × (Continues 4 11 (held "ann" slow) old start
        ⊎ Restarts 4 11 (held "ann" slow) old start)
      × (lookup "ann" n.inputs ≡ some (kept 4 2 (old ++ (beep ∷ beep ∷ [])) start)))
    × ((other : String)
        → str_eq "ann" other ≡ false
        → lookup other n.inputs ≡ lookup other slow.inputs)
    × All (IsShort 4) n.inputs
push_lem_example = push_lem (beep ∷ beep ∷ []) 11 2 "ann" slow (omega arith, tt)

abbrev two_voices : List Track
two_voices =
    record { ticks = silence ∷ beep ∷ beep ∷ []; first = 9 }
    ∷ record { ticks = beep ∷ []; first = 10 }
    ∷ []

mix_tracks-sounds_at_example :
    tick_at 0 (mix_tracks 10 12 (drop_all_late 10 two_voices) (silence ∷ silence ∷ []))
    ≡ some (pos 1800 ∷ negsuc 1801 ∷ [])
unfolding sounds_at add_tick ◌+ℤ◌
mix_tracks-sounds_at_example =
    mix_tracks-sounds_at 10 12 0 two_voices (silence ∷ silence ∷ []) (omega arith)

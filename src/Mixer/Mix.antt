-- ===== src/Mixer/Mix.antt =====
-- One block of drain in src/audio_mixer.cpp: the ticks that come too late go, and the others are
-- summed.
use rtc_egress.Prelude.{
  ℕ, zero, suc, ◌+◌, ◌-◌, ◌≤◌, ◌<◌, List, [], ◌∷◌, ◌≡◌, refl, ◌∙◌, ap, arith, Option, none, some,
  ◌⊎◌, inl, inr, Bool-cases, ltb, ◌==◌, if◌then◌else◌, ◌+ℤ◌,
}
use rtc_egress.Mixer.Defs.{Tick}

-- An input with a time: its ticks, and the time of the first one.
pub record Track : Type 0 where
  pub ticks : List Tick
  pub first : ℕ

-- The loop that drops the ticks before `next`.
unfoldable pub drop_late : ℕ → List Tick → ℕ → Track
drop_late next [] first = record { ticks = []; first = first }
drop_late next (t ∷ ts) first =
    let others = drop_late next ts (suc first) in
    if ltb first next then others else record { ticks = t ∷ ts; first = first }

-- mixed[offset + ch] += sample, for every channel.
unfoldable pub add_tick : Tick → Tick → Tick
add_tick [] t = []
add_tick (m ∷ ms) [] = m ∷ ms
add_tick (m ∷ ms) (s ∷ ss) = (m +ℤ s) ∷ add_tick ms ss

unfoldable pub add_at : ℕ → Tick → List Tick → List Tick
add_at k t [] = []
add_at zero t (m ∷ ms) = add_tick m t ∷ ms
add_at (suc k) t (m ∷ ms) = m ∷ add_at k t ms

pub record Mixed : Type 0 where
  pub track : Track
  pub block : List Tick

-- The loop that adds the ticks of one input to the block from `next` to `end`, and takes them out.
unfoldable pub mix_track : ℕ → ℕ → List Tick → ℕ → List Tick → Mixed
mix_track next end [] first block = record {
  track = record { ticks = []; first = first };
  block = block;
}
mix_track next end (t ∷ ts) first block =
    let others = mix_track next end ts (suc first) (add_at (first - next) t block) in
    if ltb first end
    then others
    else record { track = record { ticks = t ∷ ts; first = first }; block = block }

-- All inputs, in order.
unfoldable pub mix_tracks : ℕ → ℕ → List Track → List Tick → List Tick
mix_tracks next end [] block = block
mix_tracks next end (k ∷ ks) block =
    mix_tracks next end ks (mix_track next end k.ticks k.first block).block

abbrev pub tick_at : ℕ → List Tick → Option Tick
tick_at k [] = none
tick_at zero (t ∷ ts) = some t
tick_at (suc k) (t ∷ ts) = tick_at k ts

-- What a track sounds like at a time.
abbrev pub sound_at : ℕ → List Tick → ℕ → Option Tick
sound_at time ts first = if ltb time first then none else tick_at (time - first) ts

abbrev pub add_sound : Option Tick → Option Tick → Option Tick
add_sound m s = elim m [
  | none ↦ none
  | some b ↦ elim s [ none ↦ some b | some t ↦ some (add_tick b t) ]
]

-- The sum of what the tracks sound like.
unfoldable pub sounds_at : ℕ → List Track → Option Tick → Option Tick
sounds_at time [] m = m
sounds_at time (k ∷ ks) m = sounds_at time ks (add_sound m (sound_at time k.ticks k.first))

tick_at-add_at :
    (k j : ℕ) (t : Tick) (ms : List Tick)
    → tick_at k (add_at j t ms)
      ≡ (if k == j then add_sound (tick_at k ms) (some t) else tick_at k ms)
unfolding add_at
tick_at-add_at k j t [] = ground arith
tick_at-add_at zero zero t (m ∷ ms) = refl
tick_at-add_at zero (suc j) t (m ∷ ms) = ground arith
tick_at-add_at (suc k) zero t (m ∷ ms) = ground arith
tick_at-add_at (suc k) (suc j) t (m ∷ ms) = tick_at-add_at k j t ms ∙ ground arith

tick_at-mix_track :
    (next end k : ℕ) (ts : List Tick) (first : ℕ) (block : List Tick)
    → next ≤ first
    → next + k < end
    → tick_at k (mix_track next end ts first block).block
      ≡ add_sound (tick_at k block) (sound_at (next + k) ts first)
unfolding mix_track
tick_at-mix_track next end k [] first block l h = ground arith
tick_at-mix_track next end k (t ∷ ts) first block l h =
    let ih =
      tick_at-mix_track next end k ts (suc first) (add_at (first - next) t block) (omega arith) h in
    let one = tick_at-add_at k (first - next) t block in ground (arith, ih, one)

-- Dropping what is late changes nothing from `next` on.
sound_at-drop_late :
    (next time : ℕ) (ts : List Tick) (first : ℕ)
    → next ≤ time
    → let d = drop_late next ts first in sound_at time d.ticks d.first ≡ sound_at time ts first
unfolding drop_late
sound_at-drop_late next time [] first h = refl
sound_at-drop_late next time (t ∷ ts) first h =
    ground (arith, sound_at-drop_late next time ts (suc first) h)

drop_late-first :
    (next : ℕ) (ts : List Tick) (first : ℕ)
    → let d = drop_late next ts first in (d.ticks ≡ []) ⊎ (next ≤ d.first)
unfolding drop_late
drop_late-first next [] first = inl refl
drop_late-first next (t ∷ ts) first = elim (Bool-cases (ltb first next)) [
  | inl late ↦ rw late (drop_late-first next ts (suc first))
  | inr fine ↦ rw fine (inr (ground arith))
]

tick_at-mix_late :
    (next end k : ℕ) (d : Track) (block : List Tick)
    → (d.ticks ≡ []) ⊎ (next ≤ d.first)
    → next + k < end
    → tick_at k (mix_track next end d.ticks d.first block).block
      ≡ add_sound (tick_at k block) (sound_at (next + k) d.ticks d.first)
unfolding mix_track
tick_at-mix_late next end k d block (inl e) h = rw e (ground arith)
tick_at-mix_late next end k d block (inr l) h =
    tick_at-mix_track next end k d.ticks d.first block l h

-- Every input without what is late.
unfoldable pub drop_all_late : ℕ → List Track → List Track
drop_all_late next [] = []
drop_all_late next (k ∷ ks) = drop_late next k.ticks k.first ∷ drop_all_late next ks

-- A block of drain, at each of its times before `end`: it holds what it held, with the sound of every
-- input at that time added, wherever the inputs begin and end, and with the late ticks dropped first.
pub mix_tracks-sounds_at :
    (next end k : ℕ) (tracks : List Track) (block : List Tick)
    → next + k < end
    → tick_at k (mix_tracks next end (drop_all_late next tracks) block)
      ≡ sounds_at (next + k) tracks (tick_at k block)
unfolding mix_tracks drop_all_late sounds_at
mix_tracks-sounds_at next end k [] block h = refl
mix_tracks-sounds_at next end k (t ∷ ts) block h =
    let d = drop_late next t.ticks t.first in
    let one =
      tick_at-mix_late next end k d block (drop_late-first next t.ticks t.first) h
      ∙ ap (add_sound (tick_at k block))
          (sound_at-drop_late next (next + k) t.ticks t.first (omega arith)) in
    mix_tracks-sounds_at next end k ts (mix_track next end d.ticks d.first block).block h
    ∙ ap (sounds_at (next + k) ts) one

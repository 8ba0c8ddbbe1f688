-- ===== src/Snapshot/Steps.antt =====
-- The steps of a snapshot sink, in any order.
use rtc_egress.Prelude.{ℕ, ◌≤◌, String, List, [], ◌∷◌, Bool}
use rtc_egress.Snapshot.Defs.{
  SnapshotSink, on_video_frame, on_composed_frame, take_frame, name_frame, save_frame,
}

-- A step of the sink, with its time.
pub data Step : Type 0 where
  video : ℕ → String → Bool → Step
  composed : ℕ → Bool → Step
  taking : ℕ → Step
  naming : ℕ → Step
  saving_at : ℕ → Bool → Step

abbrev pub time_of : Step → ℕ
time_of (Step.video now user is_valid) = now
time_of (Step.composed now is_valid) = now
time_of (Step.taking now) = now
time_of (Step.naming now) = now
time_of (Step.saving_at now encoded) = now

unfoldable pub step : Step → SnapshotSink → SnapshotSink
step (Step.video now user is_valid) s = on_video_frame now user is_valid s
step (Step.composed now is_valid) s = on_composed_frame now is_valid s
step (Step.taking now) s = take_frame s
step (Step.naming now) s = name_frame now s
step (Step.saving_at now encoded) s = save_frame now encoded s

unfoldable pub run : List Step → SnapshotSink → SnapshotSink
run [] s = s
run (k ∷ ks) s = run ks (step k s)

-- The clock does not go back.
abbrev pub InTime : ℕ → List Step → Type 0
InTime now [] = Unit
InTime now (k ∷ ks) = (now ≤ time_of k) × InTime (time_of k) ks

-- ===== src/Layout/Tests.antt =====
-- The theorems on src/layout_detector.cpp at concrete users and clocks.
use rtc_egress.Prelude.{List, [], ◌∷◌, ◌≡◌, refl, true, some, arith, lookup}
use rtc_egress.Layout.Defs.{
  joining, active, left, UserInfo, Config, LayoutDetector, on_user_frame, remove_expected_user,
}
use rtc_egress.Layout.Detect.{update_user}
use rtc_egress.Layout.States.{silent_user_leaves, removed_user_returns}
use rtc_egress.Layout.Bounds.{Tracks, Event, frame, round, run, run-Tracks}
use rtc_egress.Layout.Stability.{IsSteady, rounds, rounds-IsSteady}

abbrev defaults : Config
defaults = record {
  user_timeout_ms = 5000;
  layout_stability_ms = 3000;
  frame_presence_timeout_ms = 1000;
  expected_users = [];
  max_users = 2;
}

abbrev ann : UserInfo
ann = record {
  user_id = "ann";
  state = joining;
  first_seen_ms = 1000;
  last_frame_ms = 2500;
  frame_count = 9;
  has_recent_frames = true;
}

abbrev started : LayoutDetector
started = record {
  config = defaults;
  running = true;
  users = ("ann", ann) ∷ [];
  current_layout = [];
  last_layout_change_ms = 0;
  has_callback = true;
  notified = [];
  total_frames_processed = 0;
  layout_changes = 0;
}

silent_user_leaves_example :
    (update_user defaults 9000 9000 (update_user defaults 4000 4000 ann)).state ≡ left
silent_user_leaves_example =
    silent_user_leaves defaults 4000 4000 9000 9000 ann (omega arith) (omega arith) (omega arith)
      (omega arith) (omega arith)

removed_user_returns_example :
    let e =
      (on_user_frame "ann" 3000 (
        remove_expected_user "ann"
          (record started { users = ("ann", record ann { state = active }) ∷ [] }))).0 in
    (v : UserInfo) × (lookup "ann" e.users ≡ some v) × (v.state ≡ active)
unfolding lookup
removed_user_returns_example =
    removed_user_returns (record started { users = ("ann", record ann { state = active }) ∷ [] })
      "ann" (record ann { state = active }) 3000 refl refl refl refl

abbrev minute : List Event
minute = frame "bob" 3000 ∷ frame "eve" 3100 ∷ round 3200 (λ _. 3201) 3202 (λ _. 3203) ∷ []

run-Tracks_example : Tracks defaults (run started minute).users
run-Tracks_example =
    run-Tracks minute started (record { few = λ _. omega arith; expected = λ h. cc })

rounds-IsSteady_example : IsSteady 8000 (
    rounds
      ((3200, (λ _. 3201), 3202, (λ _. 3203)) ∷ (7000, (λ _. 7001), 7002, (λ _. 7003)) ∷ [])
      started)
rounds-IsSteady_example =
    rounds-IsSteady
      ((3200, (λ _. 3201), 3202, (λ _. 3203)) ∷ (7000, (λ _. 7001), 7002, (λ _. 7003)) ∷ []) 0 8000
      started (omega arith, omega arith, (omega arith, omega arith, omega arith))
      (record { rate = omega arith; past = omega arith; called = λ _. refl })

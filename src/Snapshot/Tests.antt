-- ===== src/Snapshot/Tests.antt =====
-- A short run of the snapshot sink, and the overlap that puts two snapshots close together.
use rtc_egress.Prelude.{List, [], ◌∷◌, none, true, false, ◌≡◌, refl, arith}
use rtc_egress.Snapshot.Defs.{
  Config, SnapshotSink, on_video_frame, take_frame, name_frame, save_frame, should_capture_user,
  is_target,
}
use rtc_egress.Snapshot.Steps.{Step, step, run, InTime}
use rtc_egress.Snapshot.Spacing.{IsSpaced, IsLatest, AreSpaced, run-AreSpaced}

abbrev config : Config
config = record {
  output_prefix = [];
  width = 1280;
  height = 720;
  interval = 1000;
  target_users = [];
  is_composite = false;
  task_id = "t";
  snapshot_priority = 60;
}

abbrev fresh : SnapshotSink
fresh = record {
  is_capturing = true;
  stop_requested = false;
  config = config;
  current = none;
  saving = none;
  frame_count = 0;
  last_snapshot_time = 0;
  snapshots = [];
}

-- The second frame comes in while the first one is saved.
abbrev overlap : List Step
overlap =
    Step.video 5000 "7" true
    ∷ Step.taking 5001
    ∷ Step.naming 5002
    ∷ Step.video 5010 "7" true
    ∷ Step.saving_at 5020 true
    ∷ Step.taking 5021
    ∷ Step.naming 5022
    ∷ Step.saving_at 5040 true
    ∷ []

-- Two snapshots, 20 ms apart.
overlap_snapshots :
    (run overlap fresh).snapshots
    ≡ record { user = "7"; received = 5010; named = 5022; done = 5040 }
      ∷ record { user = "7"; received = 5000; named = 5002; done = 5020 }
      ∷ []
unfolding run step on_video_frame take_frame name_frame save_frame should_capture_user is_target
overlap_snapshots = refl

-- Behind the interval a frame is taken again, and no sooner.
abbrev apart : List Step
apart =
    Step.video 5000 "7" true
    ∷ Step.taking 5001
    ∷ Step.naming 5002
    ∷ Step.saving_at 5020 true
    ∷ Step.video 6001 "7" true
    ∷ Step.video 6002 "8" true
    ∷ Step.taking 6003
    ∷ Step.naming 6004
    ∷ Step.saving_at 6040 true
    ∷ []

apart_snapshots :
    (run apart fresh).snapshots
    ≡ record { user = "8"; received = 6002; named = 6004; done = 6040 }
      ∷ record { user = "7"; received = 5000; named = 5002; done = 5020 }
      ∷ []
unfolding run step on_video_frame take_frame name_frame save_frame should_capture_user is_target
apart_snapshots = refl

fresh-IsSpaced : IsSpaced 0 fresh
unfolding AreSpaced
fresh-IsSpaced = record { waiting = tt; taken = tt; latest = tt; spaced = tt }

apart-InTime : InTime 0 apart
apart-InTime = (
  omega arith,
  (
    omega arith,
    (
      omega arith,
      (omega arith, (omega arith, (omega arith, (omega arith, (omega arith, (omega arith, tt)))))),
    ),
  ),
)

run-AreSpaced_example :
    AreSpaced (run apart fresh).config.interval (run apart fresh).snapshots
    × IsLatest (run apart fresh).last_snapshot_time (run apart fresh).snapshots
run-AreSpaced_example = run-AreSpaced apart 0 fresh apart-InTime fresh-IsSpaced

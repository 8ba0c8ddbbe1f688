-- ===== src/Snapshot/Defs.antt =====
-- src/snapshot_sink.cpp: onVideoFrame, onComposedFrame, captureThread, start, stop and initialize.
--
-- The capture thread copies the waiting frame under the frames' lock, then reads the clock for the
-- file's name, and then writes the file and stores that reading: three steps, between which other frames
-- come in. Times are milliseconds of the system clock. What a frame shows, its file's name and what
-- the encoder answers are arguments.
use rtc_egress.Prelude.{
  ℕ, suc, ◌+◌, String, List, [], ◌∷◌, Option, none, some, Bool, true, false, not, ◌&&◌, ◌||◌, ltb,
  if◌then◌else◌, str_eq, is_empty, pos,
}
use rtc_egress.Metadata.Names.{FileType}
use rtc_egress.Metadata.Defs.{FileInfo}
use rtc_egress.Metadata.Checksum.{Disk}
use rtc_egress.Metadata.Files.{get_file_size}
use rtc_egress.Metadata.Sessions.{append_file}
use rtc_egress.Metadata.Sessions

pub record Config : Type 0 where
  pub output_prefix : List ℕ  -- outputDir + "/" + currentOutputFilePrefix_
  pub width : ℕ
  pub height : ℕ
  pub interval : ℕ
  pub target_users : List String
  pub is_composite : Bool
  pub task_id : String
  pub snapshot_priority : ℕ

-- A frame that waits or is being saved: its user and when it came in.
pub record FrameData : Type 0 where
  pub user : String
  pub received : ℕ

-- What the thread has copied, with its reading of the clock: msSinceEpoch.
pub record Saving : Type 0 where
  pub frame : FrameData
  pub named : Option ℕ

-- A saved snapshot: when its frame came in, the clock in its name, and when the file was done.
pub record Snapshot : Type 0 where
  pub user : String
  pub received : ℕ
  pub named : ℕ
  pub done : ℕ

-- `current` is none while currentFrame_ is not valid, `saving` while the thread has no frame; `snapshots`
-- are those saved, the latest first.
pub record SnapshotSink : Type 0 where
  pub is_capturing : Bool
  pub stop_requested : Bool
  pub config : Config
  pub current : Option FrameData
  pub saving : Option Saving
  pub frame_count : ℕ
  pub last_snapshot_time : ℕ
  pub snapshots : List Snapshot

unfoldable pub is_target : String → List String → Bool
is_target user [] = false
is_target user (u ∷ us) = str_eq u user || is_target user us

-- shouldCaptureUser
unfoldable pub should_capture_user : Config → String → Bool
should_capture_user c user = is_empty c.target_users || is_target user c.target_users

-- The guards of initialize before anything is changed.
unfoldable pub may_initialize : SnapshotSink → Config → Bool
may_initialize s c =
    not s.is_capturing && not (ltb c.snapshot_priority 1 || ltb 99 c.snapshot_priority)

-- (now - lastSnapshotTimeMs_) < intervalInMs, of signed numbers.
abbrev pub is_early : ℕ → SnapshotSink → Bool
is_early now s = ltb now (s.last_snapshot_time + s.config.interval)

-- onVideoFrame outside the composite mode; `is_valid` says that the planes are right and could be
-- copied.
unfoldable pub on_video_frame : ℕ → String → Bool → SnapshotSink → SnapshotSink
on_video_frame now user is_valid s =
    if not s.is_capturing
    then s
    else if not (should_capture_user s.config user)
    then s
    else if is_early now s
    then s
    else if not is_valid || s.config.is_composite
    then s
    else record s { current = some (record { user = user; received = now }) }

-- onComposedFrame, which the compositor calls.
unfoldable pub on_composed_frame : ℕ → Bool → SnapshotSink → SnapshotSink
on_composed_frame now is_valid s =
    if not s.is_capturing
    then s
    else if is_early now s
    then s
    else if not is_valid
    then s
    else record s { current = some (record { user = "composed"; received = now }) }

-- captureThread when it holds the lock.
unfoldable pub take_frame : SnapshotSink → SnapshotSink
take_frame s = elim s.saving [
  | some w ↦ s
  | none ↦ elim s.current [
    | none ↦ s
    | some f ↦
        if s.stop_requested
        then s
        else record s { current = none; saving = some (record { frame = f; named = none }) }
  ]
]

-- The file's name, with the clock and the count of frames.
abbrev pub named_frame : ℕ → FrameData → Option ℕ → SnapshotSink → SnapshotSink
named_frame now f (some t) s = s
named_frame now f none s = record s {
  saving = some (record { frame = f; named = some now });
  frame_count = suc s.frame_count;
}

unfoldable pub name_frame : ℕ → SnapshotSink → SnapshotSink
name_frame now s = elim s.saving [ none ↦ s | some w ↦ named_frame now w.frame w.named s ]

-- saveFrame, which returns `encoded` at `now`, and the time that is stored: that of the name.
abbrev pub saved_frame : ℕ → Bool → FrameData → Option ℕ → SnapshotSink → SnapshotSink
saved_frame now encoded f none s = s
saved_frame now false f (some t) s = record s { saving = none }
saved_frame now true f (some t) s = record s {
  saving = none;
  last_snapshot_time = t;
  snapshots = record { user = f.user; received = f.received; named = t; done = now } ∷ s.snapshots;
}

unfoldable pub save_frame : ℕ → Bool → SnapshotSink → SnapshotSink
save_frame now encoded s = elim s.saving [
  | none ↦ s
  | some w ↦ saved_frame now encoded w.frame w.named s
]

-- The FileInfo of a saved snapshot; `name` is the last part of its path.
abbrev pub file_of_snapshot : Config → Disk → String → String → FileInfo
file_of_snapshot c disk name full_path = record {
  filename = name;
  full_path = full_path;
  file_type = FileType.jpeg;
  size_bytes = get_file_size disk full_path;
  created_at = disk.now;
  completed_at = disk.now;
  duration_seconds = pos 0;
  is_complete = true;
  width = pos c.width;
  height = pos c.height;
  segment_number = pos 0;
  is_keyframe_aligned = false;
  checksum = [];
  checksum_algorithm = "SHA-256";
  integrity_verified = false;
  integrity_status = "pending";
  last_integrity_check = 0;
  backup_path = "";
  recovery_info = "";
  audit_log = [];
}

-- What is said of a saved snapshot in the metadata, for a sink that has a metadata manager.
unfoldable pub add_snapshot : Config → Disk → String → String → Sessions.Manager → Sessions.Manager
add_snapshot c disk name full_path files =
    if str_eq c.task_id ""
    then files
    else (append_file disk c.task_id (file_of_snapshot c disk name full_path) c.output_prefix
        files).1

-- start, as far as these fields go.
unfoldable pub start : SnapshotSink → Bool × SnapshotSink
start s =
    if s.is_capturing
    then (false, s)
    else (true, record s { stop_requested = false; is_capturing = true; frame_count = 0 })

-- stop, when the thread has ended.
unfoldable pub stop : SnapshotSink → SnapshotSink
stop s = if not s.is_capturing then s else record s { stop_requested = true; is_capturing = false }

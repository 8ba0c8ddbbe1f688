-- ===== src/Metadata/Samples.antt =====
-- A disk and a session for tests.
use rtc_egress.Prelude.{[], ◌∷◌, pos, some, true, false, str_eq}
use rtc_egress.Metadata.Names.{CompositionMode, Layout}
use rtc_egress.Metadata.Defs.{TaskSession}
use rtc_egress.Metadata.Checksum.{Disk}

-- One segment of three bytes, whose digest is two bytes.
abbrev pub disk : Disk
disk = record {
  now = 5000;
  date_time_prefix = [];
  exists = λ path. str_eq path "/out/a.ts";
  file_size = λ path. 3;
  opens = λ path. some (1 ∷ 2 ∷ 3 ∷ []);
  digest = λ bs. some (171 ∷ 5 ∷ []);
  creates = λ dir. true;
  opens_for_writing = λ path. true;
  writes = λ path. true;
  renames = λ path. true;
}

abbrev pub template : TaskSession
template = record {
  task_id = "";
  description = "";
  channel = "room";
  users = [];
  composition_mode = CompositionMode.composite;
  layout = Layout.flat;
  width = pos 1280;
  height = pos 720;
  fps = pos 30;
  video_codec = "libx264";
  audio_sample_rate = pos 48000;
  audio_channels = pos 1;
  audio_codec = "aac";
  output_format = "ts";
  session_start_time = 0;
  session_end_time = 0;
  duration_seconds = pos 0;
  ts_segment_duration = pos 10;
  ts_generate_playlist = true;
  playlist_path = "";
  files = [];
  output_file_prefix = [];
  total_frames_processed = pos 0;
  dropped_frames = pos 0;
  total_bytes_generated = 0;
  average_frame_rate = record { frames = pos 0; duration = pos 0 };
  session_completed = false;
  termination_reason = "active";
  session_integrity_hash = "";
  session_audit_log = [];
  total_files_expected = pos 0;
  files_with_integrity_issues = pos 0;
  missing_files = pos 0;
  critical_errors = [];
}

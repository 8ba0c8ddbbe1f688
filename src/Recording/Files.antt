-- ===== src/Recording/Files.antt =====
-- src/recording_sink.cpp, the ends of switchToNewTSSegment and of stop: the finished segments of a TS
-- recording are handed to the metadata manager, for a sink that has one.
--
-- A duration is a number of clock ticks, in the segment and in the file. The creation time is what the
-- code makes it: the reading of the steady clock, taken for one of the system clock.
use rtc_egress.Prelude.{
  ℕ, String, List, [], ◌∷◌, ◌++◌, pos, Option, none, some, Bool, true, false, not, str_eq,
  if◌then◌else◌,
}
use rtc_egress.Segments.Defs.{SegmentInfo, Manager, end_current_session}
use rtc_egress.Metadata.Names.{FileType}
use rtc_egress.Metadata.Defs.{FileInfo}
use rtc_egress.Metadata.Checksum.{Disk}
use rtc_egress.Metadata.Files.{get_file_size}
use rtc_egress.Metadata.Sessions.{append_file, end_session}
use rtc_egress.Metadata.Sessions

-- What the sink knows of its files: its task, outputDir + "/" + currentOutputFilePrefix_, the directory
-- of the segments, the disk, and the std::string of some bytes.
pub record TaskFiles : Type 0 where
  pub task_id : String
  pub output_prefix : List ℕ
  pub session_dir : List ℕ
  pub disk : Disk
  pub text : List ℕ → String

-- The FileInfo of a segment.
abbrev pub file_of_segment : TaskFiles → SegmentInfo → FileInfo
file_of_segment o s =
    let full_path = o.text (o.session_dir ++ (b'/' ∷ s.filename)) in
    record {
      filename = o.text s.filename;
      full_path = full_path;
      file_type = FileType.ts;
      size_bytes = get_file_size o.disk full_path;
      created_at = s.start_time;
      completed_at = o.disk.now;
      duration_seconds = pos s.duration;
      is_complete = true;
      width = pos 0;
      height = pos 0;
      segment_number = pos s.segment_number;
      is_keyframe_aligned = true;
      checksum = [];
      checksum_algorithm = "SHA-256";
      integrity_verified = false;
      integrity_status = "pending";
      last_integrity_check = 0;
      backup_path = "";
      recovery_info = "";
      audit_log = [];
    }

unfoldable pub add_segment : TaskFiles → SegmentInfo → Sessions.Manager → Sessions.Manager
add_segment o s files =
    if s.is_complete
    then (append_file o.disk o.task_id (file_of_segment o s) o.output_prefix files).1
    else files

-- The loop of stop over the segments of the session.
unfoldable pub add_segments : TaskFiles → List SegmentInfo → Sessions.Manager → Sessions.Manager
add_segments o [] files = files
add_segments o (s ∷ ss) files = add_segments o ss (add_segment o s files)

-- completedSegments.back()
unfoldable pub last_segment : List SegmentInfo → Option SegmentInfo
last_segment [] = none
last_segment (s ∷ ss) = elim (last_segment ss) [ none ↦ some s | some t ↦ some t ]

-- What switchToNewTSSegment hands over once the new segment is set up.
unfoldable pub add_last_segment : TaskFiles → Manager → Sessions.Manager → Sessions.Manager
add_last_segment o segments files =
    if str_eq o.task_id "" then files else elim (last_segment segments.session.segments) [
      | none ↦ files
      | some s ↦ add_segment o s files
    ]

-- What stop does with the session of a TS recording, up to the end of the metadata's session.
unfoldable pub hand_over :
    TaskFiles → ℕ → Bool → Bool → Manager → Sessions.Manager → Manager × Sessions.Manager
hand_over o now renamed opened segments files =
    let ended = end_current_session now renamed opened segments in
    (
      ended,
      if not (str_eq o.task_id "") then add_segments o ended.session.segments files else files,
    )

-- stop, as far as the files go: `is_ts` for the format.
unfoldable pub finish_recording :
    TaskFiles → Bool → ℕ → Bool → Bool → Manager → Sessions.Manager → Manager × Sessions.Manager
finish_recording o is_ts now renamed opened segments files =
    let handed =
      if is_ts then hand_over o now renamed opened segments files else (segments, files) in
    (
      handed.0,
      if not (str_eq o.task_id "")
          then (end_session o.disk o.task_id "normal" handed.1).1
          else handed.1,
    )

-- ===== src/Metadata/Defs.antt =====
-- src/include/metadata_manager.h: FileInfo and TaskSession; src/metadata_manager.cpp: the audit
-- logs, and files by name.
--
-- A time is a number of milliseconds, 0 that of time_point{}; durations are milliseconds too, and an
-- average frame rate is the quotient that the code computes, unrounded. An audit entry keeps the
-- parts that the code writes into one text.
use rtc_egress.Prelude.{
  ℕ, String, List, [], ◌∷◌, ◌++◌, ℤ, Option, none, some, Bool, length, drop, ltb, if◌then◌else◌,
  str_eq,
}
use rtc_egress.Metadata.Names.{FileType, CompositionMode, Layout}

-- What an entry says behind its operation.
pub data Details : Type 0 where
  text : String → Details
  size : ℕ → Details
  final_size : ℕ → Details
  mismatch : ℕ → ℕ → Details  -- expected, actual
  sha256 : List ℕ → Details
  completed : ℤ → ℕ → ℤ → Details  -- frames, bytes, duration
  summary : ℕ → ℕ → ℕ → ℕ → Details  -- valid, of all, missing, corrupted

-- `filename` is there in a session's entry about a file.
pub record AuditEntry : Type 0 where
  pub time : ℕ
  pub operation : String
  pub filename : Option String
  pub details : Details

pub record FileInfo : Type 0 where
  pub filename : String
  pub full_path : String
  pub file_type : FileType
  pub size_bytes : ℕ
  pub created_at : ℕ
  pub completed_at : ℕ
  pub duration_seconds : ℤ
  pub is_complete : Bool
  pub width : ℤ
  pub height : ℤ
  pub segment_number : ℤ
  pub is_keyframe_aligned : Bool
  pub checksum : List ℕ
  pub checksum_algorithm : String
  pub integrity_verified : Bool
  pub integrity_status : String
  pub last_integrity_check : ℕ
  pub backup_path : String
  pub recovery_info : String
  pub audit_log : List AuditEntry

-- frames / seconds
pub record Rate : Type 0 where
  pub frames : ℤ
  pub duration : ℤ

pub record TaskSession : Type 0 where
  pub task_id : String
  pub description : String
  pub channel : String
  pub users : List String
  pub composition_mode : CompositionMode
  pub layout : Layout
  pub width : ℤ
  pub height : ℤ
  pub fps : ℤ
  pub video_codec : String
  pub audio_sample_rate : ℤ
  pub audio_channels : ℤ
  pub audio_codec : String
  pub output_format : String
  pub session_start_time : ℕ
  pub session_end_time : ℕ
  pub duration_seconds : ℤ
  pub ts_segment_duration : ℤ
  pub ts_generate_playlist : Bool
  pub playlist_path : String
  pub files : List FileInfo
  pub output_file_prefix : List ℕ
  pub total_frames_processed : ℤ
  pub dropped_frames : ℤ
  pub total_bytes_generated : ℕ
  pub average_frame_rate : Rate
  pub session_completed : Bool
  pub termination_reason : String
  pub session_integrity_hash : String
  pub session_audit_log : List AuditEntry
  pub total_files_expected : ℤ
  pub files_with_integrity_issues : ℤ
  pub missing_files : ℤ
  pub critical_errors : List String

module _ {ℓ} {A : Type ℓ} where
  -- push_back, and erase(begin()) beyond the limit.
  unfoldable pub push_bounded : ℕ → A → List A → List A
  push_bounded limit a log =
      let longer = log ++ (a ∷ []) in if ltb limit (length longer) then drop 1 longer else longer

-- The find_if that each operation begins with.
unfoldable pub find_file : String → List FileInfo → Option FileInfo
find_file name [] = none
find_file name (f ∷ fs) = if str_eq f.filename name then some f else find_file name fs

-- A write through the iterator that find_if returned.
unfoldable pub update_file : String → (FileInfo → FileInfo) → List FileInfo → List FileInfo
update_file name change [] = []
update_file name change (f ∷ fs) =
    if str_eq f.filename name then change f ∷ fs else f ∷ update_file name change fs

abbrev pub in_session : String → (FileInfo → FileInfo) → TaskSession → TaskSession
in_session name change s = record s { files = update_file name change s.files }

-- addAuditEntryWithoutLock
unfoldable pub add_audit_entry : ℕ → String → Details → TaskSession → TaskSession
unfolding push_bounded
add_audit_entry now operation details s = record s {
  session_audit_log = push_bounded 1000 entry s.session_audit_log;
}
  where
    entry : AuditEntry
    entry = record { time = now; operation = operation; filename = none; details = details }

-- The file's part of addFileAuditEntryWithoutLock.
unfoldable pub audited : ℕ → String → Details → FileInfo → FileInfo
unfolding push_bounded
audited now operation details f =
    let entry : AuditEntry = record {
      time = now;
      operation = operation;
      filename = none;
      details = details;
    } in
    record f { audit_log = push_bounded 100 entry f.audit_log }

-- Its session's part.
unfoldable pub noted : ℕ → String → String → Details → TaskSession → TaskSession
unfolding push_bounded
noted now name operation details s =
    let entry : AuditEntry = record {
      time = now;
      operation = operation;
      filename = some name;
      details = details;
    } in
    record s { session_audit_log = push_bounded 1000 entry s.session_audit_log }

-- addFileAuditEntryWithoutLock
unfoldable pub add_file_audit_entry : ℕ → String → String → Details → TaskSession → TaskSession
add_file_audit_entry now name operation details s = elim (find_file name s.files) [
  | none ↦ s
  | some f ↦ noted now name operation details (in_session name (audited now operation details) s)
]

-- getAuditTrail
abbrev pub get_audit_trail : TaskSession → List AuditEntry
get_audit_trail s = s.session_audit_log

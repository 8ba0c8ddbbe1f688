-- ===== src/Metadata/Sessions.antt =====
-- src/metadata_manager.cpp: the manager's sessions, and the metadata files it writes.
--
-- A document is written to a temporary file that is then renamed, or removed when the rename
-- throws; `saved` lists the documents at their final paths, the latest first. Its rendering as JSON
-- is left out here.
use rtc_egress.Prelude.{
  ℕ, String, List, [], ◌∷◌, ◌++◌, pos, ◌-ℤ◌, ltb_ℤ, Option, none, some, Bool, true, false, not,
  ◌||◌, ◌&&◌, ◌==◌, if◌then◌else◌, is_empty, Dict, insert, erase, lookup,
}
use rtc_egress.Streaming.Url.{ascii}
use rtc_egress.Metadata.Names.{FileType}
use rtc_egress.Metadata.Defs.{Details, FileInfo, TaskSession, add_audit_entry}
use rtc_egress.Metadata.Checksum.{Disk}
use rtc_egress.Metadata.Files.{
  add_new_file, mark_file_complete, validate_file_integrity, validate_all_files,
}

-- What the file holds: all of the document, or what the stream took before it failed.
pub data Content : Type 0 where
  whole : TaskSession → Content
  cut : TaskSession → Content

pub record Saved : Type 0 where
  pub path : List ℕ
  pub content : Content

pub record Manager : Type 0 where
  pub sessions : Dict TaskSession
  pub saved : List Saved

-- The text before the last byte that passes the test: find_last_of and substr.
unfoldable pub before_last : (ℕ → Bool) → List ℕ → Option (List ℕ)
before_last test [] = none
before_last test (c ∷ cs) = elim (before_last test cs) [
  | some front ↦ some (c ∷ front)
  | none ↦ if test c then some [] else none
]

unfoldable pub get_directory_from_path : List ℕ → List ℕ
unfolding before_last
get_directory_from_path path = elim (before_last (λ c. c == b'/' || c == b'\\') path) [
  | some dir ↦ dir
  | none ↦ ascii "."
]

abbrev pub generate_metadata_path : List ℕ → List ℕ
generate_metadata_path prefix = prefix ++ ascii ".json"

abbrev pub generate_output_file_prefix : Disk → String → List ℕ
generate_output_file_prefix disk task_id = disk.date_time_prefix ++ (b'_' ∷ ascii task_id)

-- atomicWriteMetadata. A stream that fails does not throw, and its state is not read.
unfoldable pub atomic_write : Disk → List ℕ → TaskSession → Manager → Bool × Manager
atomic_write disk path s m =
    let temp_path = path ++ ascii ".tmp" in
    if not (disk.opens_for_writing temp_path)
    then (false, m)
    else if not (disk.renames path)
    then (false, m)
    else (
      true,
      record m {
        saved =
            record {
              path = path;
              content = if disk.writes path then Content.whole s else Content.cut s;
            }
            ∷ m.saved;
      },
    )

-- saveSessionMetadataWithoutLock
unfoldable pub save_session : Disk → TaskSession → List ℕ → Manager → Bool × Manager
save_session disk s prefix m =
    let path = generate_metadata_path prefix in
    if not (disk.creates (get_directory_from_path path))
    then (false, m)
    else atomic_write disk path s m

-- The fields that startSession copies, and those it sets.
unfoldable pub begun : Disk → String → TaskSession → TaskSession
begun disk task_id session =
    add_audit_entry disk.now "session_started" (Details.text "Metadata tracking initialized")
      (record session {
        task_id = task_id;
        session_start_time = disk.now;
        session_end_time = 0;
        output_file_prefix = [];
        session_completed = false;
        termination_reason = "active";
      })

-- startSession, which always returns true.
unfoldable pub start_session : Disk → String → TaskSession → List ℕ → Manager → Manager
start_session disk task_id session output_dir m =
    let fresh = begun disk task_id session in
    if is_empty output_dir
    then record m { sessions = insert task_id fresh m.sessions }
    else let prefix = output_dir ++ (b'/' ∷ generate_output_file_prefix disk task_id) in
      let s : TaskSession = record fresh { output_file_prefix = prefix } in
      (save_session disk s prefix (record m { sessions = insert task_id s m.sessions })).1

-- endSession up to the audit entry.
unfoldable pub ended : Disk → String → TaskSession → TaskSession
ended disk reason s =
    let duration = pos disk.now -ℤ pos s.session_start_time in
    add_audit_entry disk.now "session_ended"
      (Details.completed s.total_frames_processed s.total_bytes_generated duration)
      (record s {
        session_end_time = disk.now;
        session_completed = true;
        termination_reason = reason;
        duration_seconds = duration;
        average_frame_rate =
            if ltb_ℤ (pos 0) duration
            then record { frames = s.total_frames_processed; duration = duration }
            else s.average_frame_rate;
      })

-- endSession. Its output directory is not read.
unfoldable pub end_session : Disk → String → String → Manager → Bool × Manager
end_session disk task_id reason m = elim (lookup task_id m.sessions) [
  | none ↦ (false, m)
  | some s ↦
      let checked = (validate_all_files disk (ended disk reason s)).1 in
      let saving = save_session disk checked checked.output_file_prefix m in
      (saving.0, record saving.1 { sessions = erase task_id m.sessions })
]

abbrev pub is_ts : FileType → Bool
is_ts FileType.ts = true
is_ts FileType.jpeg = false
is_ts FileType.mp4 = false
is_ts FileType.m3u8 = false

-- A TS segment behind its save: complete, and checked.
unfoldable pub settled : Disk → FileInfo → TaskSession → TaskSession
settled disk f s =
    (validate_file_integrity disk f.filename
      (mark_file_complete disk f.filename f.size_bytes f.duration_seconds s).1).1

-- appendFileToMetadata
unfoldable pub append_file : Disk → String → FileInfo → List ℕ → Manager → Bool × Manager
append_file disk task_id f prefix m = elim (lookup task_id m.sessions) [
  | none ↦ (false, m)
  | some s ↦
      let added = add_new_file disk f s in
      let saving = save_session disk added prefix m in
      (
        saving.0,
        record saving.1 {
          sessions =
              insert task_id (if saving.0 && is_ts f.file_type then settled disk f added else added)
                m.sessions;
        },
      )
]

-- The loop of ~MetadataManager.
unfoldable pub save_all : Disk → Dict TaskSession → Manager → Manager
save_all disk [] m = m
save_all disk ((task_id, s) ∷ rest) m =
    save_all disk rest (save_session disk s (generate_output_file_prefix disk task_id) m).1

-- ~MetadataManager
abbrev pub destroy : Disk → Manager → Manager
destroy disk m = save_all disk m.sessions m

-- ===== src/Metadata/Files.antt =====
-- src/metadata_manager.cpp: addNewFileWithoutLock, markFileCompleteWithoutLock,
-- validateFileIntegrityWithoutLock and validateAllFilesIntegrityWithoutLock.
use rtc_egress.Prelude.{
  ℕ, zero, suc, ◌+◌, ◌%◌, String, List, [], ◌∷◌, ◌++◌, ℤ, pos, ltb_ℤ, none, some, Bool, true, false,
  not, ◌&&◌, length, ltb, ◌==◌, if◌then◌else◌, str_eq, is_empty, sub64,
}
use rtc_egress.Metadata.Defs.{
  Details, FileInfo, TaskSession, find_file, update_file, in_session, add_audit_entry,
  add_file_audit_entry,
}
use rtc_egress.Metadata.Checksum.{Disk, calculate_sha256, verify_file_checksum}

-- fetch_add on a uint64_t
abbrev pub add64 : ℕ → ℕ → ℕ
add64 a b = (a + b) % 18446744073709551616

-- addNewFileWithoutLock
unfoldable pub add_new_file : Disk → FileInfo → TaskSession → TaskSession
add_new_file disk f s = elim (find_file f.filename s.files) [
  | some old ↦
      add_file_audit_entry disk.now f.filename "file_updated" (Details.size f.size_bytes)
        (in_session f.filename (λ _. f) s)
  | none ↦
      add_file_audit_entry disk.now f.filename "file_created" (Details.size f.size_bytes)
        (record s {
          files = s.files ++ (f ∷ []);
          total_bytes_generated = add64 s.total_bytes_generated f.size_bytes;
        })
]

-- The iterator's writes before the integrity check of markFileCompleteWithoutLock.
unfoldable pub completed : ℕ → ℕ → ℤ → FileInfo → FileInfo
completed now final_size duration f = record f {
  is_complete = true;
  completed_at = now;
  size_bytes = if ltb 0 final_size then final_size else f.size_bytes;
  duration_seconds = if ltb_ℤ (pos 0) duration then duration else f.duration_seconds;
}

-- The checksum that markFileCompleteWithoutLock makes.
unfoldable pub sealed : Disk → String → FileInfo → TaskSession → TaskSession
sealed disk name f s =
    let sum = calculate_sha256 disk f.full_path in
    if not (str_eq f.full_path "") && disk.exists f.full_path
    then if not (is_empty sum)
      then add_file_audit_entry disk.now name "checksum_generated" (Details.sha256 sum) (
          in_session name
            (λ g. record g {
              checksum = sum;
              integrity_status = "verified";
              integrity_verified = true;
              last_integrity_check = disk.now;
            })
            s)
      else add_file_audit_entry disk.now name "checksum_failed"
          (Details.text "Failed to calculate SHA-256 checksum")
          (in_session name (λ g. record g { checksum = sum; integrity_status = "checksum_failed" })
            s)
    else add_file_audit_entry disk.now name "file_missing"
        (Details.text "File not found at expected path")
        (in_session name (λ g. record g { integrity_status = "missing" }) s)

-- markFileCompleteWithoutLock
unfoldable pub mark_file_complete : Disk → String → ℕ → ℤ → TaskSession → Bool × TaskSession
mark_file_complete disk name final_size duration s = elim (find_file name s.files) [
  | none ↦ (false, s)
  | some f ↦
      let done = completed disk.now final_size duration f in
      let counted : TaskSession = record s {
        files = update_file name (completed disk.now final_size duration) s.files;
        total_bytes_generated =
            if ltb 0 final_size
            then add64 s.total_bytes_generated (sub64 final_size f.size_bytes)
            else s.total_bytes_generated;
      } in
      (
        true,
        add_file_audit_entry disk.now name "file_completed" (Details.final_size done.size_bytes)
            (sealed disk name done counted),
      )
]

-- A check's failure: the status, and an entry that says why.
unfoldable pub failed : Disk → String → String → Details → TaskSession → TaskSession
failed disk name status details s =
    add_file_audit_entry disk.now name "integrity_check" details
      (in_session name (λ g. record g { integrity_status = status }) s)

-- "All checks passed"
unfoldable pub passed : Disk → String → TaskSession → TaskSession
passed disk name s =
    add_file_audit_entry disk.now name "integrity_check" (Details.text "File integrity verified") (
      in_session name
        (λ g. record g {
          integrity_status = "verified";
          integrity_verified = true;
          last_integrity_check = disk.now;
        })
        s)

-- The checks behind the one of the size.
unfoldable pub check_checksum : Disk → String → FileInfo → TaskSession → Bool × TaskSession
check_checksum disk name f s =
    let sum = calculate_sha256 disk f.full_path in
    let with_sum = in_session name (λ g. record g { checksum = sum }) s in
    if is_empty f.checksum
    then if is_empty sum
      then (
        false,
        failed disk name "checksum_failed" (Details.text "Failed to calculate checksum") with_sum,
      )
      else (
        true,
        passed disk name
            (add_file_audit_entry disk.now name "checksum_generated" (Details.sha256 sum) with_sum),
      )
    else if not (verify_file_checksum disk f.full_path f.checksum)
    then (false, failed disk name "corrupted" (Details.text "Checksum verification failed") s)
    else (true, passed disk name s)

-- getFileSize: 0 when there is no file.
abbrev pub get_file_size : Disk → String → ℕ
get_file_size disk path = if disk.exists path then disk.file_size path else 0

-- validateFileIntegrityWithoutLock
unfoldable pub validate_file_integrity : Disk → String → TaskSession → Bool × TaskSession
validate_file_integrity disk name s = elim (find_file name s.files) [
  | none ↦ (false, s)
  | some f ↦
      let current_size = get_file_size disk f.full_path in
      if not (disk.exists f.full_path)
      then (false, failed disk name "missing" (Details.text "File missing from filesystem") s)
      else if not (current_size == f.size_bytes)
      then (false, failed disk name "corrupted" (Details.mismatch f.size_bytes current_size) s)
      else check_checksum disk name f s
]

-- The counts of validateAllFilesIntegrityWithoutLock.
pub record Tally : Type 0 where
  pub all_valid : Bool
  pub valid_files : ℕ
  pub corrupted_files : ℕ
  pub missing_files : ℕ

abbrev pub no_tally : Tally
no_tally = record { all_valid = true; valid_files = 0; corrupted_files = 0; missing_files = 0 }

unfoldable pub count : Bool → String → Tally → Tally
count true status t = record t { valid_files = suc t.valid_files }
count false status t =
    if str_eq status "missing"
    then record t { all_valid = false; missing_files = suc t.missing_files }
    else if str_eq status "corrupted"
    then record t { all_valid = false; corrupted_files = suc t.corrupted_files }
    else record t { all_valid = false }

-- fileInfo.integrityStatus of the loop's reference, which is the file at a position.
unfoldable pub status_at : ℕ → List FileInfo → String
status_at i [] = ""
status_at zero (f ∷ fs) = f.integrity_status
status_at (suc i) (f ∷ fs) = status_at i fs

-- The loop over the files, from position i on: `names` is theirs, which no check changes.
unfoldable pub validate_from : Disk → ℕ → List String → Tally → TaskSession → Tally × TaskSession
validate_from disk i [] t s = (t, s)
validate_from disk i (name ∷ names) t s =
    let checked = validate_file_integrity disk name s in
    validate_from disk (suc i) names (count checked.0 (status_at i checked.1.files) t) checked.1

unfoldable pub names_of : List FileInfo → List String
names_of [] = []
names_of (f ∷ fs) = f.filename ∷ names_of fs

-- validateAllFilesIntegrityWithoutLock
unfoldable pub validate_all_files : Disk → TaskSession → Bool × TaskSession
validate_all_files disk s =
    let run = validate_from disk 0 (names_of s.files) no_tally s in
    let t = run.0 in
    let n = length s.files in
    (
      t.all_valid,
      add_audit_entry disk.now "full_integrity_check"
          (Details.summary t.valid_files n t.missing_files t.corrupted_files)
          (record run.1 {
            total_files_expected = pos n;
            missing_files = pos t.missing_files;
            files_with_integrity_issues = pos (t.corrupted_files + t.missing_files);
          }),
    )

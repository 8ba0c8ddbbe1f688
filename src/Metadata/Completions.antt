-- ===== src/Metadata/Completions.antt =====
-- markFileCompleteWithoutLock, and what appendFileToMetadata does behind a save, as steps of the
-- map of a session's files.
use rtc_egress.Prelude.{
  ℕ, String, ℤ, some, true, not, ◌&&◌, if◌then◌else◌, str_eq, is_empty, ltb, ◌≡◌, refl, ◌∙◌, ap,
  arith, sub64, Bool-cases, Option-cases, inl, inr,
}
use rtc_egress.Metadata.Defs.{FileInfo, TaskSession, find_file, update_file}
use rtc_egress.Metadata.Checksum.{Disk, calculate_sha256}
use rtc_egress.Metadata.Files.{completed, sealed, mark_file_complete, add64}
use rtc_egress.Metadata.Sessions.{settled}
use rtc_egress.Metadata.Views.{
  core, core_of, view, IsWrite, IsWrite-core, IsWrite-after, view-audit,
}
use rtc_egress.Metadata.Verdicts.{judged, put, put-put, put_self, view-write}
use rtc_egress.Metadata.Checks.{check-view}

-- The record of a completed file with its new checksum.
unfoldable pub stamped : Disk → FileInfo → FileInfo
stamped disk f =
    let sum = calculate_sha256 disk f.full_path in
    if not (str_eq f.full_path "") && disk.exists f.full_path
    then if not (is_empty sum)
      then record f {
        checksum = sum;
        integrity_status = "verified";
        integrity_verified = true;
        last_integrity_check = disk.now;
      }
      else record f { checksum = sum; integrity_status = "checksum_failed" }
    else record f { integrity_status = "missing" }

module _ (disk : Disk) (name : String) (f : FileInfo) (s : TaskSession)
    (there : view s name ≡ some (core f)) where
  sealed-view : (k : String) → view (sealed disk name f s) k ≡ put name (stamped disk f) s k
  unfolding sealed stamped
  sealed-view k = elim (Bool-cases (not (str_eq f.full_path "") && disk.exists f.full_path)) [
    | inl here ↦ elim (Bool-cases (is_empty (calculate_sha256 disk f.full_path))) [
      | inl no_sum ↦
          rw (here, no_sum)
            (view-audit disk.now name _ _ _ k
              ∙ view-write disk name s there _ (record { same_name = λ g. refl; blind = λ g. refl })
                  k)
      | inr hashed ↦
          rw (here, hashed)
            (view-audit disk.now name _ _ _ k
              ∙ view-write disk name s there _ (record { same_name = λ g. refl; blind = λ g. refl })
                  k)
    ]
    | inr gone ↦ rw gone (
        view-audit disk.now name _ _ _ k
        ∙ view-write disk name s there _ (record { same_name = λ g. refl; blind = λ g. refl }) k)
  ]

completed-IsWrite : (now size : ℕ) (duration : ℤ) → IsWrite (completed now size duration)
unfolding completed
completed-IsWrite now size duration = record { same_name = λ f. refl; blind = λ f. refl }

stamped-IsWrite : (disk : Disk) → IsWrite (stamped disk)
unfolding stamped
stamped-IsWrite disk = record { same_name = λ f. ground arith; blind = λ f. ground arith }

abbrev counted : Disk → String → ℕ → ℤ → FileInfo → TaskSession → TaskSession
counted disk name size duration f s = record s {
  files = update_file name (completed disk.now size duration) s.files;
  total_bytes_generated =
      if ltb 0 size
      then add64 s.total_bytes_generated (sub64 size f.size_bytes)
      else s.total_bytes_generated;
}

mark-found :
    (disk : Disk) (name : String) (size : ℕ) (duration : ℤ) (s : TaskSession) (f : FileInfo)
    → find_file name s.files ≡ some f
    → (k : String)
    → view (mark_file_complete disk name size duration s).1 k
      ≡ put name (stamped disk (completed disk.now size duration f)) s k
unfolding mark_file_complete completed
mark-found disk name size duration s f found k =
    rw (found, mark_file_complete)
      (view-audit disk.now name _ _ _ k
        ∙ sealed-view disk name done next (put_self name done s next h) k
        ∙ put-put name done (stamped disk done) s next h k)
  where
    done : FileInfo
    done = completed disk.now size duration f

    next : TaskSession
    next = counted disk name size duration f s

    h : (j : String) → view next j ≡ put name done s j
    h j = view-write disk name s (ap core_of found) _ (completed-IsWrite disk.now size duration) j

-- The record of a file marked complete.
abbrev pub marked_file : Disk → ℕ → ℤ → FileInfo → FileInfo
marked_file disk size duration f = stamped disk (completed disk.now size duration f)

marked_file-IsWrite :
    (disk : Disk) (size : ℕ) (duration : ℤ) → IsWrite (marked_file disk size duration)
marked_file-IsWrite disk size duration =
    IsWrite-after (completed disk.now size duration) (stamped disk)
      (completed-IsWrite disk.now size duration) (stamped-IsWrite disk)

pub mark-view :
    (disk : Disk) (name : String) (size : ℕ) (duration : ℤ) (s : TaskSession) (c : FileInfo)
    → view s name ≡ some (core c)
    → (k : String)
    → view (mark_file_complete disk name size duration s).1 k
      ≡ put name (marked_file disk size duration c) s k
mark-view disk name size duration s c there k = elim (Option-cases (find_file name s.files)) [
  | inl absent ↦ cc
  | inr (f, found) ↦
      mark-found disk name size duration s f found k
      ∙ ap (λ r. if str_eq name k then some r else view s k)
          (IsWrite-core (marked_file disk size duration) (marked_file-IsWrite disk size duration) f
            c (cc (ap core_of found)))
]

-- The record that a segment has behind its save.
abbrev pub settled_file : Disk → FileInfo → FileInfo
settled_file disk f = judged disk (marked_file disk f.size_bytes f.duration_seconds f)

pub settled-view :
    (disk : Disk) (f : FileInfo) (s : TaskSession)
    → view s f.filename ≡ some (core f)
    → (k : String) → view (settled disk f s) k ≡ put f.filename (settled_file disk f) s k
unfolding settled
settled-view disk f s there k =
    (check-view disk f.filename marked c (put_self f.filename c s marked seen)).1 k
    ∙ put-put f.filename c (judged disk c) s marked seen k
  where
    c : FileInfo
    c = marked_file disk f.size_bytes f.duration_seconds f

    marked : TaskSession
    marked = (mark_file_complete disk f.filename f.size_bytes f.duration_seconds s).1

    seen : (j : String) → view marked j ≡ put f.filename c s j
    seen = mark-view disk f.filename f.size_bytes f.duration_seconds s f there

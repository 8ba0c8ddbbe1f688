-- ===== src/Metadata/Checks.antt =====
-- validateFileIntegrityWithoutLock, as a step of the map of a session's files.
use rtc_egress.Prelude.{
  String, some, ◌==◌, if◌then◌else◌, ◌≡◌, refl, ◌∙◌, ap, arith, str_eq, Bool-cases, Option-cases,
  inl, inr,
}
use rtc_egress.Metadata.Defs.{FileInfo, TaskSession, find_file}
use rtc_egress.Metadata.Checksum.{Disk}
use rtc_egress.Metadata.Files.{validate_file_integrity}
use rtc_egress.Metadata.Views.{core, core_of, view, IsWrite, IsWrite-core}
use rtc_egress.Metadata.Verdicts.{
  verdict, hash_verdict, judged, hash_judged, is_verified, put, view-failed, check_checksum-view,
}

module _ (disk : Disk) (name : String) (s : TaskSession) where
  check-found :
      (f : FileInfo)
      → find_file name s.files ≡ some f
      → ((validate_file_integrity disk name s).0 ≡ is_verified (verdict disk f))
        × ((k : String)
            → view (validate_file_integrity disk name s).1 k ≡ put name (judged disk f) s k)
  unfolding validate_file_integrity verdict judged
  check-found f found = elim (Bool-cases (disk.exists f.full_path)) [
    | inr gone ↦
        rw (found, validate_file_integrity, gone)
          (refl, λ k. view-failed disk name s (ap core_of found) _ _ k)
    | inl here ↦ elim (Bool-cases (disk.file_size f.full_path == f.size_bytes)) [
      | inr other ↦
          rw (found, validate_file_integrity, here, other)
            (refl, λ k. view-failed disk name s (ap core_of found) _ _ k)
      | inl fits ↦
          rw (found, validate_file_integrity, here, fits)
            (check_checksum-view disk name f s (ap core_of found))
    ]
  ]

-- A check does not read the log.
pub verdict-core :
    (disk : Disk) (f g : FileInfo) → core f ≡ core g → verdict disk f ≡ verdict disk g
unfolding verdict hash_verdict
verdict-core disk f g same = ap (verdict disk) same

pub judged-IsWrite : (disk : Disk) → IsWrite (judged disk)
unfolding judged hash_judged hash_verdict
judged-IsWrite disk = record { same_name = λ f. ground arith; blind = λ f. ground arith }

-- The check of a file of which the session's map says c.
pub check-view :
    (disk : Disk) (name : String) (s : TaskSession) (c : FileInfo)
    → view s name ≡ some (core c)
    → ((validate_file_integrity disk name s).0 ≡ is_verified (verdict disk c))
      × ((k : String)
          → view (validate_file_integrity disk name s).1 k ≡ put name (judged disk c) s k)
check-view disk name s c there = elim (Option-cases (find_file name s.files)) [
  | inl absent ↦ cc
  | inr (f, found) ↦
      let same : core f ≡ core c = cc (ap core_of found) in
      let checked = check-found disk name s f found in
      (
        checked.0 ∙ ap is_verified (verdict-core disk f c same),
        λ k.
            checked.1 k
            ∙ ap (λ r. if str_eq name k then some r else view s k)
                (IsWrite-core (judged disk) (judged-IsWrite disk) f c same),
      )
]

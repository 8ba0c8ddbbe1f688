-- ===== src/Metadata/Steps.antt =====
-- What every write of a check keeps, the checks keep: shown once, for any relation of sessions.
use rtc_egress.Prelude.{
  ℕ, suc, String, List, [], ◌∷◌, not, ◌&&◌, ◌==◌, str_eq, is_empty, ◌≡◌, refl, Bool-cases,
  Option-cases, inl, inr,
}
use rtc_egress.Metadata.Defs.{
  Details, FileInfo, TaskSession, find_file, in_session, add_file_audit_entry,
}
use rtc_egress.Metadata.Checksum.{Disk, calculate_sha256, verify_file_checksum}
use rtc_egress.Metadata.Files.{
  Tally, count, status_at, sealed, failed, passed, check_checksum, validate_file_integrity,
  validate_from,
}

-- A write of what a check found: not of a name, a size or a log.
pub record IsSoft (change : FileInfo → FileInfo) : Type 0 where
  pub same_name : (f : FileInfo) → (change f).filename ≡ f.filename
  pub same_size : (f : FileInfo) → (change f).size_bytes ≡ f.size_bytes
  pub same_log : (f : FileInfo) → (change f).audit_log ≡ f.audit_log

abbrev soft :
    {change : FileInfo → FileInfo}
    → ((f : FileInfo) → (change f).filename ≡ f.filename)
    → ((f : FileInfo) → (change f).size_bytes ≡ f.size_bytes)
    → ((f : FileInfo) → (change f).audit_log ≡ f.audit_log)
    → IsSoft change
soft n s l = record { same_name = n; same_size = s; same_log = l }

pub record IsKeeping (R : TaskSession → TaskSession → Type 0) : Type 0 where
  pub stay : (s : TaskSession) → R s s
  pub join : (s t u : TaskSession) → R s t → R t u → R s u
  pub write :
      (name : String) (change : FileInfo → FileInfo) (s : TaskSession)
      → IsSoft change
      → R s (in_session name change s)
  pub audit :
      (now : ℕ) (name operation : String) (details : Details) (s : TaskSession)
      → R s (add_file_audit_entry now name operation details s)

module _ {R : TaskSession → TaskSession → Type 0} (k : IsKeeping R) (disk : Disk)
    (name : String) where
  write_audit :
      (change : FileInfo → FileInfo) (operation : String) (details : Details) (s : TaskSession)
      → IsSoft change
      → R s (add_file_audit_entry disk.now name operation details (in_session name change s))
  write_audit change operation details s w =
      k.join s (in_session name change s) _ (k.write name change s w)
        (k.audit disk.now name operation details (in_session name change s))

  failed_keeps :
      (why : String) (details : Details) (s : TaskSession) → R s (failed disk name why details s)
  unfolding failed
  failed_keeps why details s =
      write_audit (λ g. record g { integrity_status = why }) _ details s
        (soft (λ f. refl) (λ f. refl) (λ f. refl))

  passed_keeps : (s : TaskSession) → R s (passed disk name s)
  unfolding passed
  passed_keeps s = write_audit _ _ _ s (soft (λ f. refl) (λ f. refl) (λ f. refl))

  check_keeps : (f : FileInfo) (s : TaskSession) → R s (check_checksum disk name f s).1
  unfolding check_checksum
  check_keeps f s = elim (Bool-cases (is_empty f.checksum)) [
    | inl bare ↦ elim (Bool-cases (is_empty (calculate_sha256 disk f.full_path))) [
      | inl no_sum ↦ rw (bare, no_sum) (k.join s summed _ summing (failed_keeps _ _ summed))
      | inr hashed ↦
          rw (bare, hashed) (k.join s noted _ (write_audit _ _ _ s is_soft) (passed_keeps noted))
    ]
    | inr recorded ↦ elim (Bool-cases (verify_file_checksum disk f.full_path f.checksum)) [
      | inl good ↦ rw (recorded, good) (passed_keeps s)
      | inr bad ↦ rw (recorded, bad) (failed_keeps _ _ s)
    ]
  ]
    where
      sum : FileInfo → FileInfo
      sum g = record g { checksum = calculate_sha256 disk f.full_path }

      is_soft : IsSoft sum
      is_soft = soft (λ g. refl) (λ g. refl) (λ g. refl)

      summed : TaskSession
      summed = in_session name sum s

      noted : TaskSession
      noted =
          add_file_audit_entry disk.now name "checksum_generated"
            (Details.sha256 (calculate_sha256 disk f.full_path)) summed

      summing : R s summed
      summing = k.write name sum s is_soft

  pub validate_keeps : (s : TaskSession) → R s (validate_file_integrity disk name s).1
  unfolding validate_file_integrity
  validate_keeps s = elim (Option-cases (find_file name s.files)) [
    | inl absent ↦ rw (absent, validate_file_integrity) (k.stay s)
    | inr (f, found) ↦ elim (Bool-cases (disk.exists f.full_path)) [
      | inr gone ↦ rw (found, validate_file_integrity, gone) (failed_keeps _ _ s)
      | inl here ↦ elim (Bool-cases (disk.file_size f.full_path == f.size_bytes)) [
        | inr other ↦ rw (found, validate_file_integrity, here, other) (failed_keeps _ _ s)
        | inl fits ↦ rw (found, validate_file_integrity, here, fits) (check_keeps f s)
      ]
    ]
  ]

  pub sealed_keeps : (f : FileInfo) (s : TaskSession) → R s (sealed disk name f s)
  unfolding sealed
  sealed_keeps f s = elim (Bool-cases (not (str_eq f.full_path "") && disk.exists f.full_path)) [
    | inl here ↦ elim (Bool-cases (is_empty (calculate_sha256 disk f.full_path))) [
      | inl no_sum ↦
          rw (here, no_sum) (write_audit _ _ _ s (soft (λ g. refl) (λ g. refl) (λ g. refl)))
      | inr hashed ↦
          rw (here, hashed) (write_audit _ _ _ s (soft (λ g. refl) (λ g. refl) (λ g. refl)))
    ]
    | inr gone ↦ rw gone (write_audit _ _ _ s (soft (λ g. refl) (λ g. refl) (λ g. refl)))
  ]

pub loop_keeps :
    {R : TaskSession → TaskSession → Type 0} (k : IsKeeping R) (disk : Disk) (i : ℕ)
    (names : List String) (t : Tally) (s : TaskSession)
    → R s (validate_from disk i names t s).1
unfolding validate_from
loop_keeps k disk i [] t s = k.stay s
loop_keeps k disk i (name ∷ names) t s =
    let checked = validate_file_integrity disk name s in
    let u = count checked.0 (status_at i checked.1.files) t in
    k.join s checked.1 (validate_from disk (suc i) names u checked.1).1
      (validate_keeps k disk name s) (loop_keeps k disk (suc i) names u checked.1)

-- ===== src/Metadata/Filenames.antt =====
-- The names of a session's files through the operations, and the file at a position.
use rtc_egress.Prelude.{
  ℕ, String, List, [], ◌∷◌, ◌++◌, ℤ, some, false, str_eq, length, ◌≡◌, refl, ◌∙◌, arith,
  Option-cases, inl, inr, eq_iff, All, subst,
}
use rtc_egress.Metadata.Defs.{
  Details, FileInfo, TaskSession, find_file, update_file, audited, noted, add_file_audit_entry,
}
use rtc_egress.Metadata.Checksum.{Disk}
use rtc_egress.Metadata.Files.{
  Tally, names_of, completed, mark_file_complete, validate_file_integrity, validate_from, status_at,
}
use rtc_egress.Metadata.Steps.{IsKeeping, validate_keeps, sealed_keeps, loop_keeps}
use rtc_egress.Metadata.Views.{core_of}

abbrev pub Differs : String → String → Type 0
Differs name k = str_eq k name ≡ false

-- No two files of one name.
abbrev pub AreDistinct : List String → Type 0
AreDistinct [] = Unit
AreDistinct (name ∷ names) = All (Differs name) names × AreDistinct names

pub names-update :
    (name : String) (change : FileInfo → FileInfo)
    → ((f : FileInfo) → (change f).filename ≡ f.filename)
    → (fs : List FileInfo) → names_of (update_file name change fs) ≡ names_of fs
unfolding names_of update_file
names-update name change w [] = refl
names-update name change w (f ∷ fs) = ground (arith, w f, names-update name change w fs)

pub names-audit :
    (now : ℕ) (name operation : String) (details : Details) (s : TaskSession)
    → names_of (add_file_audit_entry now name operation details s).files ≡ names_of s.files
unfolding add_file_audit_entry noted audited
names-audit now name operation details s = elim (Option-cases (find_file name s.files)) [
  | inl absent ↦ rw (absent, add_file_audit_entry) refl
  | inr (f, there) ↦
      rw (there, add_file_audit_entry)
        (names-update name (audited now operation details) (λ g. refl) s.files)
]

abbrev SameNames : TaskSession → TaskSession → Type 0
SameNames s t = names_of t.files ≡ names_of s.files

names-IsKeeping : IsKeeping SameNames
names-IsKeeping = record {
  stay = λ s. refl;
  join = λ s t u h k. k ∙ h;
  write = λ name change s w. names-update name change w.same_name s.files;
  audit = λ now name operation details s. names-audit now name operation details s;
}

pub names-validate :
    (disk : Disk) (name : String) (s : TaskSession)
    → names_of (validate_file_integrity disk name s).1.files ≡ names_of s.files
names-validate disk name s = validate_keeps names-IsKeeping disk name s

pub names-loop :
    (disk : Disk) (i : ℕ) (names : List String) (t : Tally) (s : TaskSession)
    → names_of (validate_from disk i names t s).1.files ≡ names_of s.files
names-loop disk i names t s = loop_keeps names-IsKeeping disk i names t s

pub names-mark :
    (disk : Disk) (name : String) (size : ℕ) (duration : ℤ) (s : TaskSession)
    → names_of (mark_file_complete disk name size duration s).1.files ≡ names_of s.files
unfolding mark_file_complete completed
names-mark disk name size duration s = elim (Option-cases (find_file name s.files)) [
  | inl absent ↦ rw (absent, mark_file_complete) refl
  | inr (f, found) ↦
      rw (found, mark_file_complete)
        (names-audit disk.now name _ _ _
          ∙ sealed_keeps names-IsKeeping disk name _ _
          ∙ names-update name (completed disk.now size duration) (λ g. refl) s.files)
]

pub All-middle :
    {A : Type 0} (P : A → Type 0) (xs : List A) (y : A) (ys : List A) → All P (xs ++ (y ∷ ys)) → P y
All-middle P [] y ys h = h.0
All-middle P (x ∷ xs) y ys h = All-middle P xs y ys h.1

-- Where no name is there twice, the file at a position is the one that is found by its name.
pub status-found :
    (before after : List String) (name : String) (c : FileInfo) (fs : List FileInfo)
    → names_of fs ≡ before ++ (name ∷ after)
    → AreDistinct (names_of fs)
    → core_of (find_file name fs) ≡ some c
    → status_at (length before) fs ≡ c.integrity_status
unfolding names_of find_file status_at
status-found [] after name c [] e d h = cc
status-found [] after name c (f ∷ fs) e d h = ground (arith, eq_iff f.filename name)
status-found (b ∷ before) after name c [] e d h = cc
status-found (b ∷ before) after name c (f ∷ fs) e d h =
    status-found before after name c fs tail d.1
      (ground (arith, apart, h, eq_iff f.filename name, eq_iff name f.filename))
  where
    tail : names_of fs ≡ before ++ (name ∷ after)
    tail = cc e

    apart : str_eq name f.filename ≡ false
    apart =
        All-middle (Differs f.filename) before name after
          (subst (All (Differs f.filename)) tail d.0)

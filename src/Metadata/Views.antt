-- ===== src/Metadata/Views.antt =====
-- What a session says of a file, its audit log aside: how each write of the operations changes it.
use rtc_egress.Prelude.{
  String, List, [], ◌∷◌, Option, none, some, if◌then◌else◌, str_eq, ◌≡◌, refl, ap, ◌∙◌, sym,
  Option-cases, inl, inr, arith, eq_iff, ℕ,
}
use rtc_egress.Metadata.Defs.{
  Details, FileInfo, TaskSession, find_file, update_file, in_session, add_file_audit_entry, audited,
  noted,
}

-- A file's record without its audit log.
abbrev pub core : FileInfo → FileInfo
core f = record f { audit_log = [] }

abbrev pub core_of : Option FileInfo → Option FileInfo
core_of none = none
core_of (some f) = some (core f)

-- The files as a map from names, which forgets their order and their logs.
abbrev pub view : TaskSession → String → Option FileInfo
view s name = core_of (find_file name s.files)

-- A write that keeps the name, and does not read the log.
pub record IsWrite (change : FileInfo → FileInfo) : Type 0 where
  pub same_name : (f : FileInfo) → (change f).filename ≡ f.filename
  pub blind : (f : FileInfo) → core (change f) ≡ core (change (core f))

pub IsWrite-core :
    (change : FileInfo → FileInfo)
    → IsWrite change
    → (f g : FileInfo) → core f ≡ core g
    → core (change f) ≡ core (change g)
IsWrite-core change w f g same = w.blind f ∙ ap (λ c. core (change c)) same ∙ sym (w.blind g)

pub IsWrite-after :
    (change next : FileInfo → FileInfo)
    → IsWrite change
    → IsWrite next
    → IsWrite (λ f. next (change f))
IsWrite-after change next w v = record {
  same_name = λ f. v.same_name (change f) ∙ w.same_name f;
  blind = λ f. IsWrite-core next v (change f) (change (core f)) (w.blind f);
}

abbrev pub changed : (FileInfo → FileInfo) → Option FileInfo → Option FileInfo
changed change none = none
changed change (some f) = some (core (change f))

pub find-update :
    (name k : String) (change : FileInfo → FileInfo)
    → IsWrite change
    → (fs : List FileInfo)
    → core_of (find_file k (update_file name change fs)) ≡ (
        if str_eq name k
        then changed change (core_of (find_file name fs))
        else core_of (find_file k fs))
unfolding find_file update_file
find-update name k change w [] = ground arith
find-update name k change w (f ∷ fs) = ground (
  arith,
  eq_iff name k,
  eq_iff f.filename name,
  eq_iff f.filename k,
  w.blind f,
  w.same_name f,
  find-update name k change w fs,
)

audited-IsWrite :
    (now : ℕ) (operation : String) (details : Details) → IsWrite (audited now operation details)
unfolding audited
audited-IsWrite now operation details = record { same_name = λ f. refl; blind = λ f. refl }

find-audited :
    (now : ℕ) (name operation : String) (details : Details) (k : String) (fs : List FileInfo)
    → core_of (find_file k (update_file name (audited now operation details) fs))
      ≡ core_of (find_file k fs)
unfolding audited
find-audited now name operation details k fs = elim (Option-cases (find_file name fs)) [
  | inl absent ↦
      ground (arith, find-update name k _ (audited-IsWrite now operation details) fs, eq_iff name k)
  | inr (f, there) ↦
      ground (arith, find-update name k _ (audited-IsWrite now operation details) fs, eq_iff name k)
]

-- An audit entry about a file is not seen.
pub view-audit :
    (now : ℕ) (name operation : String) (details : Details) (s : TaskSession) (k : String)
    → view (add_file_audit_entry now name operation details s) k ≡ view s k
unfolding noted add_file_audit_entry
view-audit now name operation details s k = elim (Option-cases (find_file name s.files)) [
  | inl absent ↦ rw (absent, add_file_audit_entry) refl
  | inr (f, there) ↦
      rw (there, add_file_audit_entry) (find-audited now name operation details k s.files)
]

-- What a write through the iterator makes of each file.
pub view-in_session :
    (name : String) (change : FileInfo → FileInfo)
    → IsWrite change
    → (s : TaskSession) (k : String)
    → view (in_session name change s) k
      ≡ (if str_eq name k then changed change (view s name) else view s k)
view-in_session name change w s k = find-update name k change w s.files

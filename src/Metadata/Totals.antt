-- ===== src/Metadata/Totals.antt =====
-- The session's count of bytes against the sizes of its files.
use rtc_egress.Prelude.{
  ℕ, ◌+◌, ◌%◌, ◌<◌, String, List, [], ◌∷◌, ◌++◌, ℤ, Option, none, some, if◌then◌else◌, str_eq, ltb,
  sub64, ◌≡◌, refl, ◌∙◌, sym, ap, arith, ◌↔◌, Bool-cases, Option-cases, inl, inr, All,
}
use rtc_egress.Metadata.Defs.{
  Details, FileInfo, TaskSession, find_file, update_file, audited, noted, add_file_audit_entry,
}
use rtc_egress.Metadata.Checksum.{Disk}
use rtc_egress.Metadata.Files.{add64, add_new_file, completed, mark_file_complete}
use rtc_egress.Metadata.Steps.{IsKeeping, sealed_keeps}

unfoldable pub sizes : List FileInfo → ℕ
sizes [] = 0
sizes (f ∷ fs) = f.size_bytes + sizes fs

-- The count is the sum of the sizes, in 64 bits.
unfoldable pub Counts : TaskSession → Type 0
Counts s = s.total_bytes_generated ≡ sizes s.files % 18446744073709551616

-- A step that changes neither.
record Books (s t : TaskSession) : Type 0 where
  total : t.total_bytes_generated ≡ s.total_bytes_generated
  sum : sizes t.files ≡ sizes s.files

Books-trans : {s t u : TaskSession} → Books s t → Books t u → Books s u
Books-trans h k = record { total = k.total ∙ h.total; sum = k.sum ∙ h.sum }

sizes-update :
    (name : String) (change : FileInfo → FileInfo) (g : FileInfo) (fs : List FileInfo)
    → find_file name fs ≡ some g
    → sizes (update_file name change fs) + g.size_bytes ≡ sizes fs + (change g).size_bytes
unfolding sizes update_file find_file
sizes-update name change g [] h = cc
sizes-update name change g (f ∷ fs) h = elim (Bool-cases (str_eq f.filename name)) [
  | inl here ↦ rw here (let same : f ≡ g = ground arith in rw same (omega arith))
  | inr other ↦
      let ih = sizes-update name change g fs (ground arith) in rw other (omega (arith, ih))
]

sizes-same :
    (name : String) (change : FileInfo → FileInfo)
    → ((f : FileInfo) → (change f).size_bytes ≡ f.size_bytes)
    → (fs : List FileInfo) → sizes (update_file name change fs) ≡ sizes fs
unfolding sizes update_file
sizes-same name change same [] = refl
sizes-same name change same (f ∷ fs) = ground (arith, same f, sizes-same name change same fs)

Books-audit :
    (now : ℕ) (name operation : String) (details : Details) (s : TaskSession)
    → Books s (add_file_audit_entry now name operation details s)
unfolding add_file_audit_entry noted audited
Books-audit now name operation details s = elim (Option-cases (find_file name s.files)) [
  | inl absent ↦ rw (absent, add_file_audit_entry) (record { total = refl; sum = refl })
  | inr (f, there) ↦
      rw (there, add_file_audit_entry)
        (record {
          total = refl;
          sum = sizes-same name (audited now operation details) (λ g. refl) s.files;
        })
]

Books-IsKeeping : IsKeeping Books
Books-IsKeeping = record {
  stay = λ s. record { total = refl; sum = refl };
  join = λ s t u h k. Books-trans h k;
  write =
      λ name change s w. record { total = refl; sum = sizes-same name change w.same_size s.files };
  audit = λ now name operation details s. Books-audit now name operation details s;
}

abbrev pub Fits : FileInfo → Type 0
Fits f = f.size_bytes < 18446744073709551616

Fits-found :
    (name : String) (f : FileInfo) (fs : List FileInfo)
    → All Fits fs
    → find_file name fs ≡ some f
    → Fits f
unfolding find_file
Fits-found name f [] h e = cc
Fits-found name f (g ∷ fs) h e = elim (Bool-cases (str_eq g.filename name)) [
  | inl here ↦ let same : g ≡ f = ground arith in rw (← same) h.0
  | inr other ↦ Fits-found name f fs h.1 (ground arith)
]

replaced_size :
    (total sum sum' old new : ℕ)
    → total ≡ sum % 18446744073709551616
    → sum' + old ≡ sum + new
    → old < 18446744073709551616
    → add64 total (sub64 new old) ≡ sum' % 18446744073709551616
replaced_size total sum sum' old new h e b = omega arith

Books-Counts : (s t : TaskSession) → Books s t → Counts s → Counts t
unfolding Counts
Books-Counts s t b h = b.total ∙ h ∙ ap (λ n. n % 18446744073709551616) (sym b.sum)

marked_size :
    (now : ℕ) (name : String) (size : ℕ) (duration : ℤ) (s : TaskSession) (f : FileInfo)
    → find_file name s.files ≡ some f
    → Fits f
    → Counts s
    → (if ltb 0 size
        then add64 s.total_bytes_generated (sub64 size f.size_bytes)
        else s.total_bytes_generated)
      ≡ sizes (update_file name (completed now size duration) s.files) % 18446744073709551616
unfolding Counts completed
marked_size now name size duration s f found fits h =
    let e = sizes-update name (completed now size duration) f s.files found in
    elim (Bool-cases (ltb 0 size)) [
      | inl some_size ↦ rw some_size (
          replaced_size s.total_bytes_generated (sizes s.files) _ f.size_bytes size h
            (rw some_size at e) fits)
      | inr no_size ↦ rw no_size (let e' = rw no_size at e in omega (arith, e', h))
    ]

-- Marking a file complete keeps the count right.
pub mark-Counts :
    (disk : Disk) (name : String) (size : ℕ) (duration : ℤ) (s : TaskSession)
    → All Fits s.files
    → Counts s
    → Counts (mark_file_complete disk name size duration s).1
unfolding mark_file_complete Counts
mark-Counts disk name size duration s fits h = elim (Option-cases (find_file name s.files)) [
  | inl absent ↦ rw (absent, mark_file_complete) h
  | inr (f, found) ↦
      rw (found, mark_file_complete)
        (Books-Counts _ _
          (Books-trans (sealed_keeps Books-IsKeeping disk name _ _)
            (Books-audit disk.now name _ _ _))
          (marked_size disk.now name size duration s f found (Fits-found name f s.files fits found)
            h))
]

sizes-append :
    (fs : List FileInfo) (f : FileInfo) → sizes (fs ++ (f ∷ [])) ≡ sizes fs + f.size_bytes
unfolding sizes
sizes-append [] f = omega arith
sizes-append (g ∷ fs) f = omega (arith, sizes-append fs f)

-- There is no other file of its name, or it has the same size.
abbrev pub SameSize : FileInfo → Option FileInfo → Type 0
SameSize f none = Unit
SameSize f (some g) = f.size_bytes ≡ g.size_bytes

Books-iff : (s t : TaskSession) → Books s t → Counts t ↔ Counts s
Books-iff s t b =
    (Books-Counts t s (record { total = sym b.total; sum = sym b.sum }), Books-Counts s t b)

added_size :
    (total sum sum' old new : ℕ)
    → total ≡ sum % 18446744073709551616
    → sum' + old ≡ sum + new
    → old < 18446744073709551616
    → new < 18446744073709551616
    → (total ≡ sum' % 18446744073709551616) ↔ (new ≡ old)
added_size total sum sum' old new h e b c = ground arith

iff_trans : {A B C : Type 0} → A ↔ B → B ↔ C → A ↔ C
iff_trans f g = (λ a. g.0 (f.0 a), λ c. f.1 (g.1 c))

-- Where a session's count of bytes is the sum of its files' sizes in 64 bits: it is so after a file
-- is added or written again exactly if there was no file of its name, or that file had the same size;
-- and it stays so when a file is marked complete, with whatever final size.
pub add_new_file-Counts :
    (disk : Disk) (f : FileInfo) (s : TaskSession)
    → All Fits s.files
    → Fits f
    → Counts s
    → (Counts (add_new_file disk f s) ↔ SameSize f (find_file f.filename s.files))
      × ((name : String) (size : ℕ) (duration : ℤ)
          → Counts (mark_file_complete disk name size duration s).1)
unfolding add_new_file Counts
add_new_file-Counts disk f s fits fit h = (
  elim (Option-cases (find_file f.filename s.files)) [
    | inl new ↦
        rw (new, add_new_file)
          (iff_trans (Books-iff _ _ (Books-audit disk.now f.filename _ _ _))
            ((λ _. tt), λ _. omega (arith, h, sizes-append s.files f)))
    | inr (g, old) ↦
        rw (old, add_new_file)
          (iff_trans (Books-iff _ _ (Books-audit disk.now f.filename _ _ _)) (
            added_size s.total_bytes_generated (sizes s.files) _ g.size_bytes f.size_bytes h
              (sizes-update f.filename (λ _. f) g s.files old)
              (Fits-found f.filename g s.files fits old) fit))
  ],
  λ name size duration. mark-Counts disk name size duration s fits h,
)

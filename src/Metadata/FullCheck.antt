-- ===== src/Metadata/FullCheck.antt =====
-- validateAllFilesIntegrityWithoutLock: its loop, its counts and the records it leaves.
use rtc_egress.Prelude.{
  ℕ, suc, ◌+◌, String, List, [], ◌∷◌, ◌++◌, some, Bool, true, false, ◌&&◌, if◌then◌else◌, ◌≡◌, All,
}
use rtc_egress.Metadata.Defs.{FileInfo, TaskSession, find_file}
use rtc_egress.Metadata.Checksum.{Disk}
use rtc_egress.Metadata.Files.{Tally, names_of, validate_file_integrity}
use rtc_egress.Metadata.Views.{core, view}
use rtc_egress.Metadata.Verdicts.{Verdict, is_verified, verdict, judged}
use rtc_egress.Metadata.Filenames.{Differs, AreDistinct}

abbrev pub is_missing : Verdict → Bool
is_missing Verdict.missing = true
is_missing Verdict.verified = false
is_missing Verdict.corrupted = false
is_missing Verdict.unhashed = false

abbrev pub is_corrupted : Verdict → Bool
is_corrupted Verdict.corrupted = true
is_corrupted Verdict.verified = false
is_corrupted Verdict.missing = false
is_corrupted Verdict.unhashed = false

-- How many files have a verdict of a kind, and whether all are verified.
unfoldable pub number : (Verdict → Bool) → Disk → List FileInfo → ℕ
number kind disk [] = 0
number kind disk (f ∷ fs) = (if kind (verdict disk f) then 1 else 0) + number kind disk fs

unfoldable pub all_verified : Disk → List FileInfo → Bool
all_verified disk [] = true
all_verified disk (f ∷ fs) = is_verified (verdict disk f) && all_verified disk fs

abbrev counts : Verdict → Tally → Tally
counts Verdict.verified t = record t { valid_files = suc t.valid_files }
counts Verdict.missing t = record t { all_valid = false; missing_files = suc t.missing_files }
counts Verdict.corrupted t = record t { all_valid = false; corrupted_files = suc t.corrupted_files }
counts Verdict.unhashed t = record t { all_valid = false }

unfoldable tallied : Disk → List FileInfo → Tally → Tally
tallied disk [] t = t
tallied disk (f ∷ fs) t = tallied disk fs (counts (verdict disk f) t)

abbrev Shows : TaskSession → FileInfo → Type 0
Shows s f = view s f.filename ≡ some (core f)

-- What the loop needs, and what it leaves: the files' records, and those of other names.
record Loop (disk : Disk) (before : List String) (rest : List FileInfo) (s : TaskSession)
    : Type 0 where
  named : names_of s.files ≡ before ++ names_of rest
  distinct : AreDistinct (names_of s.files)
  apart : AreDistinct (names_of rest)
  shown : All (Shows s) rest

Judged : Disk → List FileInfo → TaskSession → TaskSession → Type 0
Judged disk rest s t =
    All (λ f. view t f.filename ≡ some (core (judged disk f))) rest
    × ((k : String) → All (Differs k) (names_of rest) → view t k ≡ view s k)

module _ (disk : Disk) (before : List String) (f : FileInfo) (rest : List FileInfo)
    (s : TaskSession) (l : Loop disk before (f ∷ rest) s) where
  abbrev next : TaskSession
  next = (validate_file_integrity disk f.filename s).1

-- The counts by their description.
abbrev added : Disk → List FileInfo → Tally → Tally
added disk fs t = record {
  all_valid = t.all_valid && all_verified disk fs;
  valid_files = t.valid_files + number is_verified disk fs;
  corrupted_files = t.corrupted_files + number is_corrupted disk fs;
  missing_files = t.missing_files + number is_missing disk fs;
}

-- Every file of a list without two equal names is the one found by its name.
Found : List FileInfo → FileInfo → Type 0
Found fs f = find_file f.filename fs ≡ some f

-- ===== src/Metadata/Verdicts.antt =====
-- What a check of a file finds, described by what the file system answers, and what
-- validateFileIntegrityWithoutLock makes of it.
use rtc_egress.Prelude.{
  ℕ, String, List, [], ◌∷◌, ◌&&◌, ap, Option, some, Bool, true, false, not, ◌||◌, ◌==◌,
  if◌then◌else◌, str_eq, is_empty, ◌≡◌, refl, ◌∙◌, Bool-cases, inl, inr, arith, eq_refl,
}
use rtc_egress.Metadata.Defs.{Details, FileInfo, TaskSession, in_session, add_file_audit_entry}
use rtc_egress.Metadata.Checksum.{Disk, calculate_sha256, same_bytes, verify_file_checksum}
use rtc_egress.Metadata.Files.{failed, passed, check_checksum}
use rtc_egress.Metadata.Views.{core, view, IsWrite, view-audit, view-in_session}

pub data Verdict : Type 0 where
  verified : Verdict
  missing : Verdict
  corrupted : Verdict
  unhashed : Verdict

abbrev pub status : Verdict → String
status Verdict.verified = "verified"
status Verdict.missing = "missing"
status Verdict.corrupted = "corrupted"
status Verdict.unhashed = "checksum_failed"

abbrev pub is_verified : Verdict → Bool
is_verified Verdict.verified = true
is_verified Verdict.missing = false
is_verified Verdict.corrupted = false
is_verified Verdict.unhashed = false

-- Whether two texts are the same.
unfoldable pub eq_bytes : List ℕ → List ℕ → Bool
eq_bytes [] [] = true
eq_bytes [] (y ∷ ys) = false
eq_bytes (x ∷ xs) [] = false
eq_bytes (x ∷ xs) (y ∷ ys) = x == y && eq_bytes xs ys

pub eq_bytes_self : (xs : List ℕ) → eq_bytes xs xs ≡ true
unfolding eq_bytes
eq_bytes_self [] = refl
eq_bytes_self (x ∷ xs) = ground (arith, eq_bytes_self xs)

compared_bytes : (xs ys : List ℕ) → same_bytes xs ys ≡ eq_bytes xs ys
unfolding same_bytes eq_bytes
compared_bytes [] [] = refl
compared_bytes [] (y ∷ ys) = refl
compared_bytes (x ∷ xs) [] = refl
compared_bytes (x ∷ xs) (y ∷ ys) = ap (λ b. x == y && b) (compared_bytes xs ys)

compared :
    (xs : List ℕ) (y : ℕ) (ys : List ℕ)
    → (if is_empty xs then false else same_bytes xs (y ∷ ys)) ≡ eq_bytes xs (y ∷ ys)
unfolding eq_bytes
compared [] y ys = refl
compared (x ∷ xs) y ys = compared_bytes (x ∷ xs) (y ∷ ys)

-- verifyFileChecksum against a checksum that is recorded.
pub verify_recorded :
    (disk : Disk) (path : String) (sum : List ℕ)
    → is_empty sum ≡ false
    → verify_file_checksum disk path sum ≡ eq_bytes (calculate_sha256 disk path) sum
unfolding verify_file_checksum
verify_recorded disk path [] e = cc
verify_recorded disk path (x ∷ xs) e = compared (calculate_sha256 disk path) x xs

-- A file of the recorded size, by its checksum: the recorded one, or else a new one.
unfoldable pub hash_verdict : Disk → FileInfo → Verdict
hash_verdict disk f =
    if is_empty f.checksum
    then if is_empty (calculate_sha256 disk f.full_path) then Verdict.unhashed else Verdict.verified
    else if eq_bytes (calculate_sha256 disk f.full_path) f.checksum
    then Verdict.verified
    else Verdict.corrupted

unfoldable pub verdict : Disk → FileInfo → Verdict
verdict disk f =
    if not (disk.exists f.full_path)
    then Verdict.missing
    else if not (disk.file_size f.full_path == f.size_bytes)
    then Verdict.corrupted
    else hash_verdict disk f

-- The record of a file behind its check.
unfoldable pub hash_judged : Disk → FileInfo → FileInfo
hash_judged disk f =
    let v = hash_verdict disk f in
    record f {
      checksum = if is_empty f.checksum then calculate_sha256 disk f.full_path else f.checksum;
      integrity_status = status v;
      integrity_verified = is_verified v || f.integrity_verified;
      last_integrity_check = if is_verified v then disk.now else f.last_integrity_check;
    }

unfoldable pub judged : Disk → FileInfo → FileInfo
judged disk f =
    if not (disk.exists f.full_path)
    then record f { integrity_status = "missing" }
    else if not (disk.file_size f.full_path == f.size_bytes)
    then record f { integrity_status = "corrupted" }
    else hash_judged disk f

-- The map of a session in which one name has a new record.
abbrev pub put : String → FileInfo → TaskSession → String → Option FileInfo
put name c s k = if str_eq name k then some (core c) else view s k

module _ (disk : Disk) (name : String) (s : TaskSession) {c : FileInfo}
    (there : view s name ≡ some c) where
  pub view-write :
      (change : FileInfo → FileInfo)
      → IsWrite change
      → (k : String) → view (in_session name change s) k ≡ put name (change c) s k
  view-write change w k = view-in_session name change w s k ∙ rw there refl

  pub view-failed :
      (why : String) (details : Details) (k : String)
      → view (failed disk name why details s) k ≡ put name (record c { integrity_status = why }) s k
  unfolding failed
  view-failed why details k =
      view-audit disk.now name "integrity_check" details _ k
      ∙ view-write (λ g. record g { integrity_status = why })
          (record { same_name = λ f. refl; blind = λ f. refl }) k

  pub view-passed :
      (k : String)
      → view (passed disk name s) k
        ≡ put name
            (record c {
              integrity_status = "verified";
              integrity_verified = true;
              last_integrity_check = disk.now;
            })
            s
            k
  unfolding passed
  view-passed k =
      view-audit disk.now name "integrity_check" _ _ k
      ∙ view-write _ (record { same_name = λ f. refl; blind = λ f. refl }) k

  view-summed :
      (sum : List ℕ) (k : String)
      → view (in_session name (λ g. record g { checksum = sum }) s) k
        ≡ put name (record c { checksum = sum }) s k
  view-summed sum k = view-write _ (record { same_name = λ f. refl; blind = λ f. refl }) k

-- Of two writes to a name the second is seen.
pub put-put :
    (name : String) (c d : FileInfo) (s t : TaskSession)
    → ((k : String) → view t k ≡ put name c s k)
    → (k : String) → put name d t k ≡ put name d s k
put-put name c d s t h k = ground (arith, h k)

pub put_self :
    (name : String) (c : FileInfo) (s t : TaskSession)
    → ((k : String) → view t k ≡ put name c s k)
    → view t name ≡ some (core c)
put_self name c s t h = h name ∙ rw (eq_refl name) refl

module _ (disk : Disk) (name : String) (f : FileInfo) (s : TaskSession)
    (there : view s name ≡ some (core f)) where
  abbrev sum : List ℕ
  sum = calculate_sha256 disk f.full_path

  abbrev summed : FileInfo
  summed = record f { checksum = sum }

  summed_session : TaskSession
  summed_session = in_session name (λ g. record g { checksum = sum }) s

  noted_session : TaskSession
  noted_session =
      add_file_audit_entry disk.now name "checksum_generated" (Details.sha256 sum) summed_session

  view-summed_session : (k : String) → view summed_session k ≡ put name summed s k
  unfolding summed_session
  view-summed_session k = view-summed disk name s there _ k

  view-noted_session : (k : String) → view noted_session k ≡ put name summed s k
  unfolding noted_session
  view-noted_session k =
      view-audit disk.now name "checksum_generated" _ summed_session k ∙ view-summed_session k

  -- What is written behind a new checksum.
  view-failed_summed :
      (why : String) (details : Details) (k : String)
      → view (failed disk name why details summed_session) k
        ≡ put name (record f { checksum = sum; integrity_status = why }) s k
  view-failed_summed why details k =
      view-failed disk name summed_session
        (put_self name summed s summed_session view-summed_session) why details k
      ∙ put-put name summed (record summed { integrity_status = why }) s summed_session
          view-summed_session k

  view-passed_noted :
      (k : String)
      → view (passed disk name noted_session) k
        ≡ put name
            (record f {
              checksum = sum;
              integrity_status = "verified";
              integrity_verified = true;
              last_integrity_check = disk.now;
            })
            s
            k
  view-passed_noted k =
      view-passed disk name noted_session (put_self name summed s noted_session view-noted_session)
        k
      ∙ put-put name summed
          (record summed {
            integrity_status = "verified";
            integrity_verified = true;
            last_integrity_check = disk.now;
          })
          s noted_session view-noted_session k

  pub check_checksum-view :
      ((check_checksum disk name f s).0 ≡ is_verified (hash_verdict disk f))
      × ((k : String) → view (check_checksum disk name f s).1 k ≡ put name (hash_judged disk f) s k)
  unfolding check_checksum hash_verdict hash_judged summed_session noted_session
  check_checksum-view = elim (Bool-cases (is_empty f.checksum)) [
    | inl bare ↦ elim (Bool-cases (is_empty sum)) [
      | inl no_sum ↦ rw (bare, no_sum) (refl, λ k. view-failed_summed _ _ k)
      | inr hashed ↦ rw (bare, hashed) (refl, λ k. view-passed_noted k)
    ]
    | inr recorded ↦ elim (Bool-cases (eq_bytes (calculate_sha256 disk f.full_path) f.checksum)) [
      | inl good ↦
          rw (recorded, verify_recorded disk f.full_path f.checksum recorded, good)
            (refl, λ k. view-passed disk name s there k)
      | inr bad ↦
          rw (recorded, verify_recorded disk f.full_path f.checksum recorded, bad)
            (refl, λ k. view-failed disk name s there _ _ k)
    ]
  ]

-- ===== src/Metadata/Certified.antt =====
-- What a finished segment's record says, by what the file system answers.
use rtc_egress.Prelude.{
  ℕ, String, List, Bool, true, false, not, ◌&&◌, ◌||◌, ◌==◌, if◌then◌else◌, str_eq, is_empty, ◌≡◌,
  refl, ap, ◌∙◌, Bool-cases, inl, inr, eq_iff, ltb, pos, ltb_ℤ,
}
use rtc_egress.Metadata.Defs.{FileInfo}
use rtc_egress.Metadata.Checksum.{Disk, calculate_sha256}
use rtc_egress.Metadata.Files.{completed}
use rtc_egress.Metadata.Views.{core}
use rtc_egress.Metadata.Verdicts.{hash_verdict, judged, hash_judged, eq_bytes_self}
use rtc_egress.Metadata.Completions.{stamped, settled_file}

if_same : {A : Type 0} (b : Bool) (a : A) → (if b then a else a) ≡ a
if_same true a = refl
if_same false a = refl

judged-gone :
    (disk : Disk) (g : FileInfo)
    → disk.exists g.full_path ≡ false
    → judged disk g ≡ record g { integrity_status = "missing" }
unfolding judged
judged-gone disk g gone = rw gone refl

judged-other :
    (disk : Disk) (g : FileInfo)
    → disk.exists g.full_path ≡ true
    → (disk.file_size g.full_path == g.size_bytes) ≡ false
    → judged disk g ≡ record g { integrity_status = "corrupted" }
unfolding judged
judged-other disk g there other = rw (there, other) refl

judged-fits :
    (disk : Disk) (g : FileInfo)
    → disk.exists g.full_path ≡ true
    → (disk.file_size g.full_path == g.size_bytes) ≡ true
    → judged disk g ≡ hash_judged disk g
unfolding judged
judged-fits disk g there fits = rw (there, fits) refl

module _ (disk : Disk) (f : FileInfo) where
  abbrev here : Bool
  here = disk.exists f.full_path

  abbrev sum : List ℕ
  sum = calculate_sha256 disk f.full_path

  abbrev hashed : Bool
  hashed = here && not (is_empty (calculate_sha256 disk f.full_path))

  abbrev finding : String
  finding =
      if not here
      then "missing"
      else if not (disk.file_size f.full_path == f.size_bytes)
      then "corrupted"
      else if not hashed
      then "checksum_failed"
      else "verified"

  -- The record of a segment that is complete: the mark of a verified file goes by the hash alone,
  -- the status by the size first.
  unfoldable pub certified : FileInfo
  certified = record f {
    is_complete = true;
    completed_at = disk.now;
    checksum = if here then calculate_sha256 disk f.full_path else f.checksum;
    integrity_verified = hashed || f.integrity_verified;
    last_integrity_check = if hashed then disk.now else f.last_integrity_check;
    integrity_status = finding;
  }

  abbrev finished : FileInfo
  finished = record f { is_complete = true; completed_at = disk.now }

  completed-finished : completed disk.now f.size_bytes f.duration_seconds f ≡ finished
  unfolding completed
  completed-finished =
      rw
        (
          if_same (ltb 0 f.size_bytes) f.size_bytes,
          if_same (ltb_ℤ (pos 0) f.duration_seconds) f.duration_seconds,
        )
        refl

  module _ (nameless : disk.exists "" ≡ false) where
    found_here : (not (str_eq f.full_path "") && here) ≡ here
    found_here = elim (Bool-cases (str_eq f.full_path "")) [
      | inr named ↦ rw named refl
      | inl unnamed ↦
          let empty : f.full_path ≡ "" = (eq_iff f.full_path "").0 unnamed in
          let gone : here ≡ false = ap disk.exists empty ∙ nameless in rw (unnamed, gone) refl
    ]

    stamped-gone :
        here ≡ false → stamped disk finished ≡ record finished { integrity_status = "missing" }
    unfolding stamped
    stamped-gone gone = rw (found_here, gone) refl

    stamped-bare :
        here ≡ true
        → is_empty sum ≡ true
        → stamped disk finished
          ≡ record finished { checksum = sum; integrity_status = "checksum_failed" }
    unfolding stamped
    stamped-bare there bare = rw (found_here, there, bare) refl

    stamped-summed :
        here ≡ true
        → is_empty sum ≡ false
        → stamped disk finished ≡ record finished {
          checksum = sum;
          integrity_status = "verified";
          integrity_verified = true;
          last_integrity_check = disk.now;
        }
    unfolding stamped
    stamped-summed there summed = rw (found_here, there, summed) refl

    gone-certified : here ≡ false → core (judged disk (stamped disk finished)) ≡ core certified
    unfolding certified
    gone-certified gone =
        ap (λ g. core (judged disk g)) (stamped-gone gone)
        ∙ ap core (judged-gone disk (record finished { integrity_status = "missing" }) gone)
        ∙ rw gone refl

    bare-certified :
        here ≡ true
        → is_empty sum ≡ true
        → core (judged disk (stamped disk finished)) ≡ core certified
    unfolding certified hash_judged hash_verdict
    bare-certified there bare =
        ap (λ g. core (judged disk g)) (stamped-bare there bare)
        ∙ (elim (Bool-cases (disk.file_size f.full_path == f.size_bytes)) [
          | inr other ↦
              ap core (judged-other disk bare_file there other) ∙ rw (there, bare, other) refl
          | inl fits ↦ ap core (judged-fits disk bare_file there fits) ∙ rw (there, bare, fits) refl
        ])
      where
        bare_file : FileInfo
        bare_file = record finished { checksum = sum; integrity_status = "checksum_failed" }

    summed-certified :
        here ≡ true
        → is_empty sum ≡ false
        → core (judged disk (stamped disk finished)) ≡ core certified
    unfolding certified hash_judged hash_verdict
    summed-certified there summed =
        ap (λ g. core (judged disk g)) (stamped-summed there summed)
        ∙ (elim (Bool-cases (disk.file_size f.full_path == f.size_bytes)) [
          | inr other ↦
              ap core (judged-other disk good_file there other) ∙ rw (there, summed, other) refl
          | inl fits ↦
              ap core (judged-fits disk good_file there fits)
              ∙ rw (there, summed, fits, eq_bytes_self sum) refl
        ])
      where
        good_file : FileInfo
        good_file = record finished {
          checksum = sum;
          integrity_status = "verified";
          integrity_verified = true;
          last_integrity_check = disk.now;
        }

    pub settled_file-certified : core (settled_file disk f) ≡ core certified
    settled_file-certified =
        ap (λ g. core (judged disk (stamped disk g))) completed-finished ∙ (elim (Bool-cases here) [
          | inr gone ↦ gone-certified gone
          | inl there ↦ elim (Bool-cases (is_empty sum)) [
            | inl bare ↦ bare-certified there bare
            | inr summed ↦ summed-certified there summed
          ]
        ])

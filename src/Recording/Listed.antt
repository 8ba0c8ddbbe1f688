-- ===== src/Recording/Listed.antt =====
-- The files of a TS recording in the metadata's catalogue.
use rtc_egress.Prelude.{
  ◌++◌, ◌==◌, pos, not, ◌&&◌, is_empty, ℕ, suc, ◌<◌, String, List, [], ◌∷◌, Option, none, some,
  Bool, true, false, str_eq, if◌then◌else◌, ◌≡◌, refl, ◌∙◌, sym, ap, subst, arith, All, Bool-cases,
  inl, inr, eq_iff,
}
use rtc_egress.Segments.Names.{
  segment_filename, segment_number_of, segment_number_of-segment_filename,
}
use rtc_egress.Segments.Defs.{SegmentInfo, Manager, end_current_session}
use rtc_egress.Segments.Numbering.{IsFinished, Rising, InOrder, end_current_session-InOrder}
use rtc_egress.Metadata.Names.{FileType}
use rtc_egress.Metadata.Defs.{FileInfo}
use rtc_egress.Metadata.Checksum.{calculate_sha256}
use rtc_egress.Metadata.Certified.{certified}
use rtc_egress.Metadata.Views.{core}
use rtc_egress.Metadata.Catalogue.{
  Call, step, catalogue, saves, entered, register, step-catalogue, abstract_step,
}
use rtc_egress.Metadata.Sessions
use rtc_egress.Recording.Files.{TaskFiles, file_of_segment, add_segment, add_segments, hand_over}

-- Another number, another name.
abbrev pub IsFaithful : TaskFiles → Type 0
IsFaithful o = (x y : List ℕ) → o.text x ≡ o.text y → x ≡ y

-- What the metadata say of a segment's file, by what the file system answers: a complete TS file under
-- the segment's name in the session's directory, with its size, duration and number; where the metadata
-- could be saved, with its hash, and found missing, without a hash, or verified.
abbrev pub listed : TaskFiles → SegmentInfo → FileInfo
listed o s =
    let path = o.text (o.session_dir ++ (b'/' ∷ s.filename)) in
    let here = o.disk.exists path in
    let saved = saves o.disk o.output_prefix in
    let sum = calculate_sha256 o.disk path in
    let hashed = saved && here && not (is_empty sum) in
    record {
      filename = o.text s.filename;
      full_path = path;
      file_type = FileType.ts;
      size_bytes = if here then o.disk.file_size path else 0;
      created_at = s.start_time;
      completed_at = o.disk.now;
      duration_seconds = pos s.duration;
      is_complete = true;
      width = pos 0;
      height = pos 0;
      segment_number = pos s.segment_number;
      is_keyframe_aligned = true;
      checksum = if saved && here then sum else [];
      checksum_algorithm = "SHA-256";
      integrity_verified = hashed;
      integrity_status =
          if not saved
          then "pending"
          else if not here
          then "missing"
          else if hashed
          then "verified"
          else "checksum_failed";
      last_integrity_check = if hashed then o.disk.now else 0;
      backup_path = "";
      recovery_info = "";
      audit_log = [];
    }

same_size : (n : ℕ) → (n == n) ≡ true
same_size n = ground arith

entered-listed :
    (o : TaskFiles) (s : SegmentInfo)
    → core (entered o.disk o.output_prefix (file_of_segment o s)) ≡ listed o s
unfolding entered certified
entered-listed o s =
    let path = o.text (o.session_dir ++ (b'/' ∷ s.filename)) in
    elim (Bool-cases (saves o.disk o.output_prefix)) [
      | inr lost ↦ rw lost refl
      | inl saved ↦ elim (Bool-cases (o.disk.exists path)) [
        | inr gone ↦ rw (saved, gone) refl
        | inl here ↦ elim (Bool-cases (is_empty (calculate_sha256 o.disk path))) [
          | inl bare ↦ rw (saved, here, same_size (o.disk.file_size path), bare) refl
          | inr hashed ↦ rw (saved, here, same_size (o.disk.file_size path), hashed) refl
        ]
      ]
    ]

-- The name is of none of the segments.
abbrev pub IsOther : TaskFiles → String → SegmentInfo → Type 0
IsOther o k s = str_eq (o.text s.filename) k ≡ false

-- The segment with a name.
unfoldable pub segment_named : TaskFiles → String → List SegmentInfo → Option SegmentInfo
segment_named o k [] = none
segment_named o k (s ∷ ss) = if str_eq (o.text s.filename) k then some s else segment_named o k ss

-- What the metadata say of a name: the segment's file, or what was said before.
abbrev pub said_of : TaskFiles → Option SegmentInfo → Option FileInfo → Option FileInfo
said_of o none before = before
said_of o (some s) before = some (listed o s)

-- The catalogue of the task afterwards.
abbrev with_segment :
    TaskFiles → SegmentInfo → (String → Option FileInfo) → String → Option FileInfo
with_segment o s files k = if str_eq (o.text s.filename) k then some (listed o s) else files k

with_segments : TaskFiles → List SegmentInfo → (String → Option FileInfo) → String → Option FileInfo
with_segments o [] files = files
with_segments o (s ∷ ss) files = with_segments o ss (with_segment o s files)

same_string : (k : String) → str_eq k k ≡ true
same_string k = ground (arith, eq_iff k k)

add_segment-catalogue :
    (o : TaskFiles) (s : SegmentInfo) (m : Sessions.Manager) (files : String → Option FileInfo)
    → o.disk.exists "" ≡ false
    → s.is_complete ≡ true
    → catalogue m o.task_id ≡ some files
    → catalogue (add_segment o s m) o.task_id ≡ some (with_segment o s files)
unfolding add_segment step abstract_step
add_segment-catalogue o s m files named done known =
    let f = file_of_segment o s in
    let call = Call.append o.disk o.task_id f o.output_prefix in
    rw done (
      ap (λ c. c o.task_id) (step-catalogue call m named)
      ∙ rw (same_string o.task_id) (
          ap (register f (entered o.disk o.output_prefix f)) known
          ∙ ap (λ g. some (λ (k : String). if str_eq f.filename k then some g else files k))
              (entered-listed o s)))

add_segments-catalogue :
    (o : TaskFiles) (bound : ℕ) (ss : List SegmentInfo) (m : Sessions.Manager)
    (files : String → Option FileInfo)
    → o.disk.exists "" ≡ false
    → All (IsFinished bound) ss
    → catalogue m o.task_id ≡ some files
    → catalogue (add_segments o ss m) o.task_id ≡ some (with_segments o ss files)
unfolding add_segments with_segments
add_segments-catalogue o bound [] m files named h known = known
add_segments-catalogue o bound (s ∷ ss) m files named h known =
    add_segments-catalogue o bound ss (add_segment o s m) (with_segment o s files) named h.1
      (add_segment-catalogue o s m files named h.0.complete known)

with_segments-other :
    (o : TaskFiles) (ss : List SegmentInfo) (files : String → Option FileInfo) (k : String)
    → All (IsOther o k) ss
    → with_segments o ss files k ≡ files k
unfolding with_segments
with_segments-other o [] files k h = refl
with_segments-other o (s ∷ ss) files k h =
    with_segments-other o ss (with_segment o s files) k h.1 ∙ rw h.0 refl

segment_filename-injective : (n m : ℕ) → segment_filename n ≡ segment_filename m → n ≡ m
segment_filename-injective n m e =
    sym (segment_number_of-segment_filename n)
    ∙ ap segment_number_of e
    ∙ segment_number_of-segment_filename m

segment_filename-IsOther :
    (o : TaskFiles) (n bound : ℕ) (s : SegmentInfo)
    → IsFaithful o
    → n < s.segment_number
    → IsFinished bound s
    → IsOther o (o.text (segment_filename n)) s
segment_filename-IsOther o n bound s faithful l h =
    elim (Bool-cases (str_eq (o.text s.filename) (o.text (segment_filename n)))) [
      | inr differs ↦ differs
      | inl equal ↦
          let name = faithful s.filename (segment_filename n) ((eq_iff _ _).0 equal) in
          let number = segment_filename-injective s.segment_number n (sym h.named ∙ name) in
          absurd (omega (arith, number))
    ]

-- A segment with a lower number than all of them has another name.
later_names :
    (o : TaskFiles) (n low bound : ℕ) (ss : List SegmentInfo)
    → IsFaithful o
    → n < low
    → Rising low ss
    → All (IsFinished bound) ss
    → All (IsOther o (o.text (segment_filename n))) ss
later_names o n low bound [] faithful l r h = tt
later_names o n low bound (s ∷ ss) faithful l r h = (
  segment_filename-IsOther o n bound s faithful (omega (arith, r.0)) h.0,
  later_names o n (suc s.segment_number) bound ss faithful (omega (arith, r.0)) r.1 h.1,
)

segment_named-other :
    (o : TaskFiles) (k : String) (ss : List SegmentInfo)
    → All (IsOther o k) ss
    → segment_named o k ss ≡ none
unfolding segment_named
segment_named-other o k [] h = refl
segment_named-other o k (s ∷ ss) h = rw h.0 (segment_named-other o k ss h.1)

with_segments_lem :
    (o : TaskFiles) (low bound : ℕ) (ss : List SegmentInfo) (files : String → Option FileInfo)
    (k : String)
    → IsFaithful o
    → Rising low ss
    → All (IsFinished bound) ss
    → with_segments o ss files k ≡ said_of o (segment_named o k ss) (files k)
unfolding with_segments segment_named
with_segments_lem o low bound [] files k faithful r h = refl
with_segments_lem o low bound (s ∷ ss) files k faithful r h =
    elim (Bool-cases (str_eq (o.text s.filename) k)) [
      | inr differs ↦
          with_segments_lem o (suc s.segment_number) bound ss (with_segment o s files) k faithful
            r.1 h.1
          ∙ rw differs refl
      | inl equal ↦
          let others : All (IsOther o k) ss =
            subst (λ name. All (IsOther o name) ss)
              (ap o.text (sym h.0.named) ∙ (eq_iff _ _).0 equal)
              (later_names o s.segment_number (suc s.segment_number) bound ss faithful (omega arith)
                r.1 h.1) in
          with_segments-other o ss (with_segment o s files) k others ∙ rw equal refl
    ]

-- The end of a TS recording whose segments are in order, as any calls leave them, with a task that the
-- metadata manager knows, where the empty path is no file and different bytes are different strings,
-- whatever the file system answers: the session is ended and its segments stay in order; and the task's catalogue has under the name
-- of a segment its complete TS file, with its hash and what was found of it if the metadata could be
-- saved, and under any other name what it had.
pub hand_over_lem :
    (o : TaskFiles) (now : ℕ) (renamed opened : Bool) (segments : Manager) (m : Sessions.Manager)
    (files : String → Option FileInfo)
    → IsFaithful o
    → o.disk.exists "" ≡ false
    → str_eq o.task_id "" ≡ false
    → InOrder segments
    → catalogue m o.task_id ≡ some files
    → let (ended, after) = hand_over o now renamed opened segments m in
      (ended ≡ end_current_session now renamed opened segments)
      × InOrder ended
      × (catalogue after o.task_id
          ≡ some (λ k. said_of o (segment_named o k ended.session.segments) (files k)))
unfolding hand_over
hand_over_lem o now renamed opened segments m files faithful named task order known =
    let ended = end_current_session now renamed opened segments in
    let e = end_current_session-InOrder now renamed opened segments order in
    let ss = ended.session.segments in
    let bound = ended.session.current_segment_number in
    (
      refl,
      e,
      rw task (
          add_segments-catalogue o bound ss m files named e.finished known
          ∙ ap some (λ i k. with_segments_lem o 0 bound ss files k faithful e.rising e.finished i)),
    )

-- ===== src/Metadata/Kept.antt =====
-- The well-formedness of the manager's sessions: no two files of one name, and audit logs within
-- their limits.
use rtc_egress.Prelude.{
  ℕ, ◌≤◌, String, List, [], ◌∷◌, ◌++◌, ℤ, none, Bool, true, false, if◌then◌else◌, str_eq, is_empty,
  length, length-append, length-drop, ◌≡◌, refl, ◌∙◌, sym, ap, arith, subst, Bool-cases,
  Option-cases, inl, inr, eq_iff, All, All-append, lookup, All-insert, All-erase, All-lookup,
}
use rtc_egress.Metadata.Defs.{
  Details, FileInfo, TaskSession, push_bounded, find_file, update_file, audited, noted,
  add_audit_entry, add_file_audit_entry,
}
use rtc_egress.Metadata.Checksum.{Disk}
use rtc_egress.Metadata.Files.{names_of, completed, add_new_file, mark_file_complete}
use rtc_egress.Metadata.Sessions.{Manager, start_session, begun, append_file, settled, end_session}
use rtc_egress.Metadata.Catalogue.{Call, step, run, save_session_lem}
use rtc_egress.Metadata.Steps.{IsKeeping, validate_keeps, sealed_keeps}
use rtc_egress.Metadata.Filenames.{Differs, AreDistinct, names-audit, names-validate, names-mark}

abbrev pub IsShort : FileInfo → Type 0
IsShort f = length f.audit_log ≤ 100

pub record IsKept (s : TaskSession) : Type 0 where
  pub distinct : AreDistinct (names_of s.files)
  pub short_log : length s.session_audit_log ≤ 1000
  pub short_logs : All IsShort s.files

length-push_bounded :
    {A : Type 0} (limit : ℕ) (a : A) (log : List A)
    → length log ≤ limit
    → length (push_bounded limit a log) ≤ limit
unfolding push_bounded
length-push_bounded limit a log h =
    ground (arith, length-append log (a ∷ []), length-drop 1 (log ++ (a ∷ [])))

-- The logs stay short.
record Short (s : TaskSession) : Type 0 where
  session : length s.session_audit_log ≤ 1000
  files : All IsShort s.files

IsShort-update :
    (name : String) (change : FileInfo → FileInfo) (fs : List FileInfo)
    → ((f : FileInfo) → IsShort f → IsShort (change f))
    → All IsShort fs
    → All IsShort (update_file name change fs)
unfolding update_file
IsShort-update name change [] keep h = tt
IsShort-update name change (f ∷ fs) keep h = elim (Bool-cases (str_eq f.filename name)) [
  | inl here ↦ rw here (keep f h.0, h.1)
  | inr other ↦ rw other (h.0, IsShort-update name change fs keep h.1)
]

audited-IsShort :
    (now : ℕ) (operation : String) (details : Details) (f : FileInfo)
    → IsShort f
    → IsShort (audited now operation details f)
unfolding audited
audited-IsShort now operation details f h = length-push_bounded 100 _ f.audit_log h

Short-audit :
    (now : ℕ) (name operation : String) (details : Details) (s : TaskSession)
    → Short s
    → Short (add_file_audit_entry now name operation details s)
unfolding add_file_audit_entry noted
Short-audit now name operation details s h = elim (Option-cases (find_file name s.files)) [
  | inl absent ↦ rw (absent, add_file_audit_entry) h
  | inr (f, there) ↦
      rw (there, add_file_audit_entry)
        (record {
          session = length-push_bounded 1000 _ s.session_audit_log h.session;
          files =
              IsShort-update name (audited now operation details) s.files
                (audited-IsShort now operation details) h.files;
        })
]

KeepsShort : TaskSession → TaskSession → Type 0
KeepsShort s t = Short s → Short t

Short-IsKeeping : IsKeeping KeepsShort
unfolding KeepsShort
Short-IsKeeping = record {
  stay = λ s h. h;
  join = λ s t u f g h. g (f h);
  write = λ name change s w h. record {
    session = h.session;
    files = IsShort-update name change s.files (λ f k. rw (w.same_log f) k) h.files;
  };
  audit = λ now name operation details s h. Short-audit now name operation details s h;
}

kept : (s : TaskSession) → AreDistinct (names_of s.files) → Short s → IsKept s
kept s d h = record { distinct = d; short_log = h.session; short_logs = h.files }

short : (s : TaskSession) → IsKept s → Short s
short s h = record { session = h.short_log; files = h.short_logs }

mark-Short :
    (disk : Disk) (name : String) (size : ℕ) (duration : ℤ) (s : TaskSession)
    → Short s
    → Short (mark_file_complete disk name size duration s).1
unfolding mark_file_complete completed KeepsShort
mark-Short disk name size duration s h = elim (Option-cases (find_file name s.files)) [
  | inl absent ↦ rw (absent, mark_file_complete) h
  | inr (f, found) ↦
      rw (found, mark_file_complete)
        (Short-audit disk.now name _ _ _ (
          sealed_keeps Short-IsKeeping disk name _ _ (record {
            session = h.session;
            files =
                IsShort-update name (completed disk.now size duration) s.files (λ g k. k) h.files;
          })))
]

settled-IsKept :
    (disk : Disk) (f : FileInfo) (s : TaskSession) → IsKept s → IsKept (settled disk f s)
unfolding settled KeepsShort
settled-IsKept disk f s h =
    let marked = (mark_file_complete disk f.filename f.size_bytes f.duration_seconds s).1 in
    let m = mark-Short disk f.filename f.size_bytes f.duration_seconds s (short s h) in
    let names =
      names-validate disk f.filename marked
      ∙ names-mark disk f.filename f.size_bytes f.duration_seconds s in
    kept (settled disk f s) (subst AreDistinct (sym names) h.distinct)
      (validate_keeps Short-IsKeeping disk f.filename marked m)

begun-IsKept :
    (disk : Disk) (task_id : String) (s : TaskSession) → IsKept s → IsKept (begun disk task_id s)
unfolding begun add_audit_entry
begun-IsKept disk task_id s h = record {
  distinct = h.distinct;
  short_log = length-push_bounded 1000 _ s.session_audit_log h.short_log;
  short_logs = h.short_logs;
}

names-append :
    (fs : List FileInfo) (f : FileInfo)
    → names_of (fs ++ (f ∷ [])) ≡ names_of fs ++ (f.filename ∷ [])
unfolding names_of
names-append [] f = refl
names-append (g ∷ fs) f = ap (λ names. g.filename ∷ names) (names-append fs f)

-- A name that no file has is new.
fresh_distinct :
    (f : FileInfo) (fs : List FileInfo)
    → find_file f.filename fs ≡ none
    → AreDistinct (names_of fs)
    → AreDistinct (names_of fs ++ (f.filename ∷ []))
unfolding names_of find_file
fresh_distinct f [] new d = (tt, tt)
fresh_distinct f (g ∷ fs) new d = (
  All-append (Differs g.filename) (names_of fs) (f.filename ∷ []) d.0
      (ground (arith, eq_iff g.filename f.filename, eq_iff f.filename g.filename), tt),
  fresh_distinct f fs (ground arith) d.1,
)

distinct-overwrite :
    (f : FileInfo) (fs : List FileInfo)
    → names_of (update_file f.filename (λ _. f) fs) ≡ names_of fs
unfolding names_of update_file
distinct-overwrite f [] = refl
distinct-overwrite f (g ∷ fs) =
    ground (arith, eq_iff g.filename f.filename, distinct-overwrite f fs)

add-IsKept :
    (disk : Disk) (f : FileInfo) (s : TaskSession)
    → IsShort f
    → IsKept s
    → IsKept (add_new_file disk f s)
unfolding add_new_file
add-IsKept disk f s h k = elim (Option-cases (find_file f.filename s.files)) [
  | inl new ↦
      rw (new, add_new_file)
        (kept _
          (subst AreDistinct (sym (names-audit disk.now f.filename _ _ _ ∙ names-append s.files f))
            (fresh_distinct f s.files new k.distinct))
          (Short-audit disk.now f.filename _ _ _ (record {
            session = k.short_log;
            files = All-append IsShort s.files (f ∷ []) k.short_logs (h, tt);
          })))
  | inr (g, old) ↦
      rw (old, add_new_file)
        (kept _
          (subst AreDistinct
            (sym (names-audit disk.now f.filename _ _ _ ∙ distinct-overwrite f s.files)) k.distinct)
          (Short-audit disk.now f.filename _ _ _ (record {
            session = k.short_log;
            files = IsShort-update f.filename (λ _. f) s.files (λ _ _. h) k.short_logs;
          })))
]

abbrev Entry : String × TaskSession → Type 0
Entry e = IsKept e.1

-- All of a manager's sessions.
unfoldable pub AreKept : Manager → Type 0
AreKept m = All Entry m.sessions

-- What the callers give: templates that are well-formed, and files with short logs.
abbrev pub IsGiven : Call → Type 0
IsGiven (Call.start disk task_id s dir) = IsKept s
IsGiven (Call.append disk task_id f prefix) = IsShort f
IsGiven (Call.stop disk task_id reason) = Unit

start-AreKept :
    (disk : Disk) (task_id : String) (s : TaskSession) (dir : List ℕ) (m : Manager)
    → IsKept s
    → AreKept m
    → AreKept (start_session disk task_id s dir m)
unfolding start_session AreKept
start-AreKept disk task_id s dir m h k =
    let b = begun-IsKept disk task_id s h in
    elim (Bool-cases (is_empty dir)) [
      | inl no_dir ↦
          rw (no_dir, start_session)
            (All-insert Entry task_id _ m.sessions (begun-IsKept disk task_id s h) k)
      | inr dir_given ↦
          rw (dir_given, start_session)
            (subst (All Entry) (sym (save_session_lem disk _ _ _).1) (
              All-insert Entry task_id _ m.sessions
                (record {
                  distinct = b.distinct;
                  short_log = b.short_log;
                  short_logs = b.short_logs;
                })
                k))
    ]

either-IsKept :
    (b : Bool) (s t : TaskSession) → (IsKept t → IsKept s) → IsKept t → IsKept (if b then s else t)
either-IsKept true s t f k = f k
either-IsKept false s t f k = k

append-AreKept :
    (disk : Disk) (task_id : String) (f : FileInfo) (prefix : List ℕ) (m : Manager)
    → IsShort f
    → AreKept m
    → AreKept (append_file disk task_id f prefix m).1
unfolding append_file AreKept
append-AreKept disk task_id f prefix m h k = elim (Option-cases (lookup task_id m.sessions)) [
  | inl absent ↦ rw (absent, append_file) k
  | inr (s, there) ↦
      rw (there, append_file)
        (All-insert Entry task_id _ m.sessions
          (either-IsKept _ (settled disk f (add_new_file disk f s)) (add_new_file disk f s)
            (λ n. settled-IsKept disk f (add_new_file disk f s) n)
            (add-IsKept disk f s h (All-lookup Entry task_id m.sessions k there)))
          k)
]

stop-AreKept :
    (disk : Disk) (task_id reason : String) (m : Manager)
    → AreKept m
    → AreKept (end_session disk task_id reason m).1
unfolding end_session AreKept
stop-AreKept disk task_id reason m k = elim (Option-cases (lookup task_id m.sessions)) [
  | inl absent ↦ rw (absent, end_session) k
  | inr (s, there) ↦ rw (there, end_session) (All-erase Entry task_id m.sessions k)
]

step-AreKept : (c : Call) (m : Manager) → IsGiven c → AreKept m → AreKept (step c m)
unfolding step
step-AreKept (Call.start disk task_id s dir) m h k = start-AreKept disk task_id s dir m h k
step-AreKept (Call.append disk task_id f prefix) m h k = append-AreKept disk task_id f prefix m h k
step-AreKept (Call.stop disk task_id reason) m h k = stop-AreKept disk task_id reason m k

-- After any calls of the manager in any order, where the templates of started sessions have files of
-- distinct names and short audit logs and so have the appended files: in every session no two files
-- have one name, the session's audit log has at most 1000 entries, and each file's at most 100.
pub run-AreKept : (cs : List Call) (m : Manager) → All IsGiven cs → AreKept m → AreKept (run cs m)
unfolding run
run-AreKept [] m h k = k
run-AreKept (c ∷ cs) m h k = run-AreKept cs (step c m) h.1 (step-AreKept c m h.0 k)

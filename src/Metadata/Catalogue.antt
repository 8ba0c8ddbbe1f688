-- ===== src/Metadata/Catalogue.antt =====
-- src/metadata_manager.cpp, startSession, appendFileToMetadata and endSession against a map: each
-- task that is recorded has a map from filenames to what is said of the file.
use rtc_egress.Prelude.{
  ℕ, String, List, [], ◌∷◌, ◌++◌, Option, none, some, Bool, false, ◌&&◌, if◌then◌else◌, str_eq,
  is_empty, ◌≡◌, refl, ◌∙◌, ap, arith, Bool-cases, Option-cases, inl, inr, eq_iff, Dict, insert,
  erase, lookup, lookup-insert, lookup-erase, All,
}
use rtc_egress.Streaming.Url.{ascii}
use rtc_egress.Metadata.Defs.{FileInfo, TaskSession, add_audit_entry, find_file, update_file}
use rtc_egress.Metadata.Checksum.{Disk}
use rtc_egress.Metadata.Files.{add_new_file}
use rtc_egress.Metadata.Sessions.{
  Manager, save_session, atomic_write, get_directory_from_path, generate_metadata_path,
  start_session, begun, append_file, settled, is_ts, end_session,
}
use rtc_egress.Metadata.Views.{core, core_of, view, view-audit}
use rtc_egress.Metadata.Verdicts.{put, put_self, put-put}
use rtc_egress.Metadata.Completions.{settled_file, settled-view}
use rtc_egress.Metadata.Certified.{certified, settled_file-certified}

find-overwrite :
    (f g : FileInfo) (k : String) (fs : List FileInfo)
    → find_file f.filename fs ≡ some g
    → core_of (find_file k (update_file f.filename (λ _. f) fs))
      ≡ (if str_eq f.filename k then some (core f) else core_of (find_file k fs))
unfolding find_file update_file
find-overwrite f g k [] h = cc
find-overwrite f g k (x ∷ fs) h = ground (
  arith,
  eq_iff f.filename k,
  eq_iff x.filename f.filename,
  eq_iff x.filename k,
  find-overwrite f g k fs,
)

find-append :
    (f : FileInfo) (k : String) (fs : List FileInfo)
    → find_file f.filename fs ≡ none
    → core_of (find_file k (fs ++ (f ∷ [])))
      ≡ (if str_eq f.filename k then some (core f) else core_of (find_file k fs))
unfolding find_file
find-append f k [] h = ground arith
find-append f k (x ∷ fs) h = ground (
  arith,
  eq_iff f.filename k,
  eq_iff x.filename f.filename,
  eq_iff x.filename k,
  find-append f k fs,
)

-- A file is registered under its name, whether the name is new or not.
pub add_new_file-view :
    (disk : Disk) (f : FileInfo) (s : TaskSession) (k : String)
    → view (add_new_file disk f s) k ≡ put f.filename f s k
unfolding add_new_file
add_new_file-view disk f s k = elim (Option-cases (find_file f.filename s.files)) [
  | inl new ↦
      rw (new, add_new_file) (view-audit disk.now f.filename _ _ _ k ∙ find-append f k s.files new)
  | inr (g, old) ↦
      rw (old, add_new_file)
        (view-audit disk.now f.filename _ _ _ k ∙ find-overwrite f g k s.files old)
]

-- Whether a metadata file can be written.
abbrev pub saves : Disk → List ℕ → Bool
saves disk prefix =
    let path = generate_metadata_path prefix in
    disk.creates (get_directory_from_path path)
    && disk.opens_for_writing (path ++ ascii ".tmp")
    && disk.renames path

pub save_session_lem :
    (disk : Disk) (s : TaskSession) (prefix : List ℕ) (m : Manager)
    → ((save_session disk s prefix m).0 ≡ saves disk prefix)
      × ((save_session disk s prefix m).1.sessions ≡ m.sessions)
unfolding save_session atomic_write
save_session_lem disk s prefix m = ground arith

-- A call of the manager, with what the file system answers during it.
pub data Call : Type 0 where
  start : Disk → String → TaskSession → List ℕ → Call
  append : Disk → String → FileInfo → List ℕ → Call
  stop : Disk → String → String → Call

unfoldable pub step : Call → Manager → Manager
step (Call.start disk task_id s dir) m = start_session disk task_id s dir m
step (Call.append disk task_id f prefix) m = (append_file disk task_id f prefix m).1
step (Call.stop disk task_id reason) m = (end_session disk task_id reason m).1

unfoldable pub run : List Call → Manager → Manager
run [] m = m
run (c ∷ cs) m = run cs (step c m)

-- The abstract state: what is said of each file of each task that is recorded.
abbrev pub Catalogue : Type 0
Catalogue = String → Option (String → Option FileInfo)

abbrev pub view_of : Option TaskSession → Option (String → Option FileInfo)
view_of none = none
view_of (some s) = some (view s)

abbrev pub catalogue : Manager → Catalogue
catalogue m task_id = view_of (lookup task_id m.sessions)

-- What an appended file is entered as.
unfoldable pub entered : Disk → List ℕ → FileInfo → FileInfo
entered disk prefix f = if saves disk prefix && is_ts f.file_type then certified disk f else f

abbrev pub register :
    FileInfo → FileInfo → Option (String → Option FileInfo) → Option (String → Option FileInfo)
register f c none = none
register f c (some files) = some (λ k. if str_eq f.filename k then some (core c) else files k)

unfoldable pub abstract_step : Call → Catalogue → Catalogue
abstract_step (Call.start disk task_id s dir) m k = if str_eq task_id k then some (view s) else m k
abstract_step (Call.append disk task_id f prefix) m k =
    if str_eq task_id k then register f (entered disk prefix f) (m task_id) else m k
abstract_step (Call.stop disk task_id reason) m k = if str_eq task_id k then none else m k

unfoldable pub abstract_run : List Call → Catalogue → Catalogue
abstract_run [] m = m
abstract_run (c ∷ cs) m = abstract_run cs (abstract_step c m)

-- No file has the empty path.
abbrev pub IsNamed : Call → Type 0
IsNamed (Call.append disk task_id f prefix) = disk.exists "" ≡ false
IsNamed (Call.start disk task_id s dir) = Unit
IsNamed (Call.stop disk task_id reason) = Unit

view-insert :
    (task_id : String) (s : TaskSession) (d : Dict TaskSession) (k : String)
    → view_of (lookup k (insert task_id s d))
      ≡ (if str_eq task_id k then some (view s) else view_of (lookup k d))
view-insert task_id s d k =
    ap view_of (lookup-insert task_id k s d)
    ∙ (elim (Bool-cases (str_eq task_id k)) [ inl here ↦ rw here refl | inr other ↦ rw other refl ])

view-erase :
    (task_id : String) (d : Dict TaskSession) (k : String)
    → view_of (lookup k (erase task_id d))
      ≡ (if str_eq task_id k then none else view_of (lookup k d))
view-erase task_id d k =
    ap view_of (lookup-erase task_id k d)
    ∙ (elim (Bool-cases (str_eq task_id k)) [ inl here ↦ rw here refl | inr other ↦ rw other refl ])

start-catalogue :
    (disk : Disk) (task_id : String) (s : TaskSession) (dir : List ℕ) (m : Manager) (k : String)
    → catalogue (start_session disk task_id s dir m) k
      ≡ abstract_step (Call.start disk task_id s dir) (catalogue m) k
unfolding start_session begun add_audit_entry abstract_step
start-catalogue disk task_id s dir m k = elim (Bool-cases (is_empty dir)) [
  | inl no_dir ↦ rw (no_dir, start_session) (view-insert task_id _ m.sessions k)
  | inr dir_given ↦
      rw (dir_given, start_session)
        (ap (λ d. view_of (lookup k d)) (save_session_lem disk _ _ _).1
          ∙ view-insert task_id _ m.sessions k)
]

stop-catalogue :
    (disk : Disk) (task_id reason : String) (m : Manager) (k : String)
    → catalogue (end_session disk task_id reason m).1 k
      ≡ abstract_step (Call.stop disk task_id reason) (catalogue m) k
unfolding end_session abstract_step
stop-catalogue disk task_id reason m k = elim (Option-cases (lookup task_id m.sessions)) [
  | inl absent ↦ rw (absent, end_session) (ground (arith, eq_iff task_id k))
  | inr (s, there) ↦ rw (there, end_session) (view-erase task_id m.sessions k)
]

-- The session behind an append.
abbrev appended : Disk → List ℕ → FileInfo → TaskSession → TaskSession
appended disk prefix f s =
    let added = add_new_file disk f s in
    if saves disk prefix && is_ts f.file_type then settled disk f added else added

view-appended :
    (disk : Disk) (prefix : List ℕ) (f : FileInfo) (s : TaskSession)
    → disk.exists "" ≡ false
    → (k : String) → view (appended disk prefix f s) k ≡ put f.filename (entered disk prefix f) s k
unfolding entered
view-appended disk prefix f s nameless k =
    elim (Bool-cases (saves disk prefix && is_ts f.file_type)) [
      | inl segment ↦ rw segment (
          settled-view disk f added (put_self f.filename f s added (add_new_file-view disk f s)) k
          ∙ put-put f.filename f (settled_file disk f) s added (add_new_file-view disk f s) k
          ∙ ap (λ r. if str_eq f.filename k then some r else view s k)
              (settled_file-certified disk f nameless))
      | inr other ↦ rw other (add_new_file-view disk f s k)
    ]
  where
    added : TaskSession
    added = add_new_file disk f s

append-catalogue :
    (disk : Disk) (task_id : String) (f : FileInfo) (prefix : List ℕ) (m : Manager)
    → disk.exists "" ≡ false
    → (k : String)
    → catalogue (append_file disk task_id f prefix m).1 k
      ≡ abstract_step (Call.append disk task_id f prefix) (catalogue m) k
unfolding append_file abstract_step
append-catalogue disk task_id f prefix m nameless k =
    elim (Option-cases (lookup task_id m.sessions)) [
      | inl absent ↦ rw (absent, append_file) (ground (arith, eq_iff task_id k))
      | inr (s, there) ↦
          let saving = save_session_lem disk (add_new_file disk f s) prefix m in
          rw (there, append_file, saving.0)
            (view-insert task_id (appended disk prefix f s) m.sessions k
              ∙ ap (λ files. if str_eq task_id k then some files else catalogue m k)
                  (λ i j. view-appended disk prefix f s nameless j i))
    ]

-- What is said of the files is the abstract state's, call by call.
pub step-catalogue :
    (c : Call) (m : Manager) → IsNamed c → catalogue (step c m) ≡ abstract_step c (catalogue m)
unfolding step
step-catalogue (Call.start disk task_id s dir) m h = λ i k. start-catalogue disk task_id s dir m k i
step-catalogue (Call.append disk task_id f prefix) m h =
    λ i k. append-catalogue disk task_id f prefix m h k i
step-catalogue (Call.stop disk task_id reason) m h = λ i k. stop-catalogue disk task_id reason m k i

-- After any calls of the manager, in any order and for any tasks, where no file has an empty path,
-- what its sessions say of their files, audit logs aside, is what the abstract state says: a started
-- task has the files of its template; an appended file is entered under its name in its task alone,
-- a TS segment that was saved as complete, with its new hash and what the file system showed, and
-- any other file as it was given; an ended task is gone.
pub run-catalogue :
    (cs : List Call) (m : Manager)
    → All IsNamed cs
    → catalogue (run cs m) ≡ abstract_run cs (catalogue m)
unfolding run abstract_run
run-catalogue [] m h = refl
run-catalogue (c ∷ cs) m h =
    run-catalogue cs (step c m) h.1 ∙ ap (abstract_run cs) (step-catalogue c m h.0)

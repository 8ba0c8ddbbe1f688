-- ===== src/Metadata/Tests.antt =====
-- The metadata manager on a concrete disk, with a JSON library that can be run.
use rtc_egress.Prelude.{ℕ, String, List, [], ◌∷◌, ℤ, pos, true, false, ◌≡◌, refl, ◌↔◌, arith}
use rtc_egress.Metadata.Names.{FileType}
use rtc_egress.Metadata.Defs.{FileInfo, TaskSession, find_file}
use rtc_egress.Metadata.Samples.{disk, template}
use rtc_egress.Metadata.Files.{add_new_file, mark_file_complete, names_of}
use rtc_egress.Metadata.Sessions.{Manager}
use rtc_egress.Metadata.Catalogue.{Call, run, catalogue, abstract_run, run-catalogue}
use rtc_egress.Metadata.Totals.{sizes, Counts, SameSize, add_new_file-Counts}
use rtc_egress.Metadata.Kept.{AreKept, IsGiven, run-AreKept}
use rtc_egress.Metadata.Json.{deserialize_session_into, serialize_session}
use rtc_egress.Metadata.Trees.{trees}
use rtc_egress.Metadata.RoundTrip.{read_back, deserialize-serialize}

abbrev segment : FileInfo
segment = record {
  filename = "a.ts";
  full_path = "/out/a.ts";
  file_type = FileType.ts;
  size_bytes = 3;
  created_at = 4000;
  completed_at = 4500;
  duration_seconds = pos 10;
  is_complete = true;
  width = pos 0;
  height = pos 0;
  segment_number = pos 1;
  is_keyframe_aligned = true;
  checksum = [];
  checksum_algorithm = "SHA-256";
  integrity_verified = false;
  integrity_status = "pending";
  last_integrity_check = 0;
  backup_path = "";
  recovery_info = "";
  audit_log = [];
}

abbrev lost : FileInfo
lost = record segment { filename = "b.ts"; full_path = "/out/b.ts" }

abbrev two_files : TaskSession
two_files = record template { files = segment ∷ lost ∷ []; total_bytes_generated = 6 }

abbrev no_sessions : Manager
no_sessions = record { sessions = []; saved = [] }

abbrev calls : List Call
calls =
    Call.start disk "t" template (b'/' ∷ [])
    ∷ Call.append disk "t" segment (b'/' ∷ b'p' ∷ [])
    ∷ Call.append disk "t" lost (b'/' ∷ b'p' ∷ [])
    ∷ []

run-catalogue_example :
    catalogue (run calls no_sessions) ≡ abstract_run calls (catalogue no_sessions)
run-catalogue_example = run-catalogue calls no_sessions (tt, (refl, (refl, tt)))

two_counted : Counts two_files
unfolding Counts sizes
two_counted = refl

add_new_file-Counts_example :
    (Counts (add_new_file disk (record lost { size_bytes = 9 }) two_files)
      ↔ SameSize (record lost { size_bytes = 9 }) (find_file "b.ts" two_files.files))
    × ((name : String) (size : ℕ) (duration : ℤ)
        → Counts (mark_file_complete disk name size duration two_files).1)
add_new_file-Counts_example =
    add_new_file-Counts disk (record lost { size_bytes = 9 }) two_files
      (omega arith, (omega arith, tt)) (omega arith) two_counted

template-IsKept : IsGiven (Call.start disk "t" template (b'/' ∷ []))
unfolding names_of
template-IsKept = record { distinct = tt; short_log = omega arith; short_logs = tt }

nothing_kept : AreKept no_sessions
unfolding AreKept
nothing_kept = tt

run-AreKept_example : AreKept (run calls no_sessions)
run-AreKept_example =
    run-AreKept calls no_sessions (template-IsKept, (omega arith, (omega arith, tt))) nothing_kept

deserialize-serialize_example :
    deserialize_session_into trees 9 FileType.mp4 template (serialize_session trees two_files)
    ≡ read_back trees 9 template two_files
deserialize-serialize_example = deserialize-serialize trees 9 FileType.mp4 template two_files

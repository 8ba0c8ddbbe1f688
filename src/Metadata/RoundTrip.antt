-- ===== src/Metadata/RoundTrip.antt =====
-- A session that is written as JSON and read back.
use rtc_egress.Prelude.{
  ℕ, String, List, [], ◌∷◌, ◌++◌, map, pos, Option, none, some, Bool, true, false, not, ◌&&◌, ◌==◌,
  if◌then◌else◌, str_eq, ◌≡◌, refl, ◌∙◌, ap,
}
use rtc_egress.Metadata.Names.{
  FileType, file_type_to_string, string_to_file_type, file_type_lem, composition_mode_to_string,
  string_to_composition_mode, composition_mode_lem, layout_to_string, string_to_layout, layout_lem,
}
use rtc_egress.Metadata.Defs.{FileInfo, TaskSession}
use rtc_egress.Metadata.Json.{
  Codec, JsonLib, Assignment, assign, file_fields, serialize_file_info, read, read_time, read_as,
  deserialize_file_info, session_fields, serialize_session, read_files, deserialize_session_into,
}

module _ (lib : JsonLib) where
  open lib use {Json, null, get, set, get-null, get-set, text, format_timestamp}

  -- What a key has behind the assignments: the last one's value.
  search : String → List (Assignment lib) → Option Json → Option Json
  search key [] found = found
  search key (a ∷ rest) found =
      search key rest (if str_eq a.key key && a.guard then some a.value else found)

  guarded :
      (key k : String) (v j : Json) (g : Bool)
      → get key (if g then set k v j else j) ≡ (if str_eq k key && g then some v else get key j)
  guarded key k v j true = get-set k key v j ∙ and_true (str_eq k key)
    where
      and_true :
          (b : Bool) → (if b then some v else get key j) ≡ (if b && true then some v else get key j)
      and_true true = refl
      and_true false = refl
  guarded key k v j false = and_false (str_eq k key)
    where
      and_false : (b : Bool) → get key j ≡ (if b && false then some v else get key j)
      and_false true = refl
      and_false false = refl

  get-assign :
      (key : String) (fields : List (Assignment lib)) (j : Json)
      → get key (assign lib fields j) ≡ search key fields (get key j)
  unfolding assign search
  get-assign key [] j = refl
  get-assign key (a ∷ rest) j =
      get-assign key rest _ ∙ ap (search key rest) (guarded key a.key a.value j a.guard)

  module _ (fields : List (Assignment lib)) where
    get-fields : (key : String) → get key (assign lib fields null) ≡ search key fields none
    get-fields key = get-assign key fields null ∙ ap (search key fields) (get-null key)

    read-written :
        {A : Type 0} (c : Codec Json A) (key : String) (a old : A)
        → search key fields none ≡ some (c.encode a)
        → read lib c key old (assign lib fields null) ≡ a
    unfolding read
    read-written c key a old found = rw (read, get-fields key, found) (c.decode-encode a)

    time-written :
        (now old : ℕ) (key : String) (v : Json) (g : Bool)
        → search key fields none ≡ (if g then some v else none)
        → read_time lib now key old (assign lib fields null) ≡ (if g then now else old)
    unfolding read_time
    time-written now old key v true found = rw (read_time, get-fields key, found) refl
    time-written now old key v false found = rw (read_time, get-fields key, found) refl

    text-parsed :
        {A : Type 0} (parse : String → A) (key : String) (a : String) (old : A)
        → search key fields none ≡ some (text.encode a)
        → read_as lib parse key old (assign lib fields null) ≡ parse a
    unfolding read_as
    text-parsed parse key a old found =
        rw (read_as, get-fields key, found) (ap parse (text.decode-encode a))

  -- A record that is read back: its times are those of the reading, where they were written.
  abbrev pub restamped : ℕ → FileInfo → FileInfo
  restamped now f = record f {
    created_at = now;
    completed_at = if f.is_complete then now else 0;
    last_integrity_check = if not (f.last_integrity_check == 0) then now else 0;
  }

  file_info_lem :
      (now : ℕ) (junk : FileType) (f : FileInfo)
      → deserialize_file_info lib now junk (serialize_file_info lib f) ≡ restamped now f
  unfolding deserialize_file_info serialize_file_info search
  file_info_lem now junk f = λ i. record {
    filename = read-written fields lib.text "filename" f.filename "" refl i;
    full_path = read-written fields lib.text "fullPath" f.full_path "" refl i;
    file_type =
        (text-parsed fields string_to_file_type "type" (file_type_to_string f.file_type) junk refl
            ∙ file_type_lem f.file_type)
          i;
    size_bytes = read-written fields lib.unsigned "sizeBytes" f.size_bytes 0 refl i;
    created_at = time-written fields now 0 "createdAt" (format_timestamp f.created_at) true refl i;
    completed_at =
        time-written fields now 0 "completedAt" (format_timestamp f.completed_at) f.is_complete refl
          i;
    last_integrity_check =
        time-written fields now 0 "lastIntegrityCheck" (format_timestamp f.last_integrity_check)
          (not (f.last_integrity_check == 0)) refl i;
    duration_seconds =
        read-written fields lib.real "durationSeconds" f.duration_seconds (pos 0) refl i;
    is_complete = read-written fields lib.boolean "isComplete" f.is_complete false refl i;
    width = read-written fields lib.integer "width" f.width (pos 0) refl i;
    height = read-written fields lib.integer "height" f.height (pos 0) refl i;
    segment_number =
        read-written fields lib.integer "segmentNumber" f.segment_number (pos 0) refl i;
    is_keyframe_aligned =
        read-written fields lib.boolean "isKeyframeAligned" f.is_keyframe_aligned false refl i;
    checksum = read-written fields lib.bytes "checksum" f.checksum [] refl i;
    integrity_verified =
        read-written fields lib.boolean "integrityVerified" f.integrity_verified false refl i;
    checksum_algorithm =
        read-written fields lib.text "checksumAlgorithm" f.checksum_algorithm "SHA-256" refl i;
    integrity_status =
        read-written fields lib.text "integrityStatus" f.integrity_status "pending" refl i;
    backup_path = read-written fields lib.text "backupPath" f.backup_path "" refl i;
    recovery_info = read-written fields lib.text "recoveryInfo" f.recovery_info "" refl i;
    audit_log = read-written fields lib.log "auditLog" f.audit_log [] refl i;
  }
    where
      fields : List (Assignment lib)
      fields = file_fields lib f

  map-map_lem :
      (now : ℕ) (junk : FileType) (fs : List FileInfo)
      → map (deserialize_file_info lib now junk) (map (serialize_file_info lib) fs)
        ≡ map (restamped now) fs
  map-map_lem now junk [] = refl
  map-map_lem now junk (f ∷ fs) = λ i. file_info_lem now junk f i ∷ map-map_lem now junk fs i

  files-written :
      (fields : List (Assignment lib)) (now : ℕ) (junk : FileType) (old fs : List FileInfo)
      → search "files" fields none ≡ some (lib.array.encode (map (serialize_file_info lib) fs))
      → read_files lib now junk old (assign lib fields null) ≡ old ++ map (restamped now) fs
  unfolding read_files
  files-written fields now junk old fs found =
      rw (read_files, get-fields fields "files", found)
        (ap (λ js. old ++ map (deserialize_file_info lib now junk) js)
            (lib.array.decode-encode (map (serialize_file_info lib) fs))
          ∙ ap (λ gs. old ++ gs) (map-map_lem now junk fs))

  -- The session into which another was read back: the other's fields, but for the times, which are
  -- those of the reading; the prefix of its output files is not written, and its files are put behind
  -- those that were there.
  abbrev pub read_back : ℕ → TaskSession → TaskSession → TaskSession
  read_back now into s = record s {
    session_start_time = now;
    session_end_time = if s.session_completed then now else into.session_end_time;
    output_file_prefix = into.output_file_prefix;
    files = into.files ++ map (restamped now) s.files;
  }

  -- A session that is written as JSON and read into a session, whatever that is, is read back: every
  -- field that is written has its value, the files behind those that were there, and each time that is
  -- written is the time of the reading.
  pub deserialize-serialize :
      (now : ℕ) (junk : FileType) (into s : TaskSession)
      → deserialize_session_into lib now junk into (serialize_session lib s) ≡ read_back now into s
  unfolding deserialize_session_into serialize_session search
  deserialize-serialize now junk into s = λ i. record into {
    task_id = read-written fields lib.text "taskId" s.task_id into.task_id refl i;
    description = read-written fields lib.text "description" s.description into.description refl i;
    channel = read-written fields lib.text "channel" s.channel into.channel refl i;
    users = read-written fields lib.texts "users" s.users into.users refl i;
    composition_mode =
        (text-parsed fields string_to_composition_mode "compositionMode"
              (composition_mode_to_string s.composition_mode) into.composition_mode refl
            ∙ composition_mode_lem s.composition_mode)
          i;
    layout =
        (text-parsed fields string_to_layout "layout" (layout_to_string s.layout) into.layout refl
            ∙ layout_lem s.layout)
          i;
    width = read-written fields lib.integer "width" s.width into.width refl i;
    height = read-written fields lib.integer "height" s.height into.height refl i;
    fps = read-written fields lib.integer "fps" s.fps into.fps refl i;
    video_codec = read-written fields lib.text "videoCodec" s.video_codec into.video_codec refl i;
    audio_sample_rate =
        read-written fields lib.integer "audioSampleRate" s.audio_sample_rate into.audio_sample_rate
          refl i;
    audio_channels =
        read-written fields lib.integer "audioChannels" s.audio_channels into.audio_channels refl i;
    audio_codec = read-written fields lib.text "audioCodec" s.audio_codec into.audio_codec refl i;
    output_format =
        read-written fields lib.text "outputFormat" s.output_format into.output_format refl i;
    session_start_time =
        time-written fields now into.session_start_time "sessionStartTime"
          (format_timestamp s.session_start_time) true refl i;
    session_end_time =
        time-written fields now into.session_end_time "sessionEndTime"
          (format_timestamp s.session_end_time) s.session_completed refl i;
    duration_seconds =
        read-written fields lib.real "durationSeconds" s.duration_seconds into.duration_seconds refl
          i;
    ts_segment_duration =
        read-written fields lib.integer "tsSegmentDuration" s.ts_segment_duration
          into.ts_segment_duration refl i;
    ts_generate_playlist =
        read-written fields lib.boolean "tsGeneratePlaylist" s.ts_generate_playlist
          into.ts_generate_playlist refl i;
    playlist_path =
        read-written fields lib.text "playlistPath" s.playlist_path into.playlist_path refl i;
    total_frames_processed =
        read-written fields lib.integer "totalFramesProcessed" s.total_frames_processed
          into.total_frames_processed refl i;
    dropped_frames =
        read-written fields lib.integer "droppedFrames" s.dropped_frames into.dropped_frames refl i;
    total_bytes_generated =
        read-written fields lib.unsigned "totalBytesGenerated" s.total_bytes_generated
          into.total_bytes_generated refl i;
    average_frame_rate =
        read-written fields lib.rate "averageFrameRate" s.average_frame_rate into.average_frame_rate
          refl i;
    session_completed =
        read-written fields lib.boolean "sessionCompleted" s.session_completed
          into.session_completed refl i;
    termination_reason =
        read-written fields lib.text "terminationReason" s.termination_reason
          into.termination_reason refl i;
    session_integrity_hash =
        read-written fields lib.text "sessionIntegrityHash" s.session_integrity_hash
          into.session_integrity_hash refl i;
    session_audit_log =
        read-written fields lib.log "sessionAuditLog" s.session_audit_log into.session_audit_log
          refl i;
    total_files_expected =
        read-written fields lib.integer "totalFilesExpected" s.total_files_expected
          into.total_files_expected refl i;
    files_with_integrity_issues =
        read-written fields lib.integer "filesWithIntegrityIssues" s.files_with_integrity_issues
          into.files_with_integrity_issues refl i;
    missing_files =
        read-written fields lib.integer "missingFiles" s.missing_files into.missing_files refl i;
    critical_errors =
        read-written fields lib.texts "criticalErrors" s.critical_errors into.critical_errors refl
          i;
    files = files-written fields now junk into.files s.files refl i;
  }
    where
      fields : List (Assignment lib)
      fields = session_fields lib s

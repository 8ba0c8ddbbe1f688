-- ===== src/Metadata/Json.antt =====
-- src/metadata_manager.cpp: serializeSession, serializeFileInfo, deserializeSessionInto and
-- deserializeFileInfo, over the JSON library.
--
-- The library is a parameter: the values it makes of C++ values and gives back, and objects that
-- are written and read by key. formatTimestamp is one of its makers here, since no time is read back.
use rtc_egress.Prelude.{
  ℕ, String, List, [], ◌∷◌, ◌++◌, map, ℤ, pos, Option, none, some, Bool, true, false, not, ◌==◌,
  if◌then◌else◌, str_eq, ◌≡◌,
}
use rtc_egress.Metadata.Names.{
  FileType, composition_mode_to_string, string_to_composition_mode, layout_to_string,
  string_to_layout, file_type_to_string, string_to_file_type,
}
use rtc_egress.Metadata.Defs.{AuditEntry, FileInfo, Rate, TaskSession}

-- A C++ value as a JSON value, and back.
pub record Codec (Json A : Type 0) : Type 0 where
  pub encode : A → Json
  pub decode : Json → A
  pub decode-encode : (a : A) → decode (encode a) ≡ a

pub record JsonLib : Type 1 where
  pub Json : Type 0
  pub null : Json
  pub set : String → Json → Json → Json  -- j[k] = v
  pub get : String → Json → Option Json  -- j.contains(k), and j[k]
  pub get-null : (k : String) → get k null ≡ none
  pub get-set :
      (k other : String) (v j : Json)
      → get other (set k v j) ≡ (if str_eq k other then some v else get other j)
  pub text : Codec Json String
  pub integer : Codec Json ℤ
  pub unsigned : Codec Json ℕ
  pub boolean : Codec Json Bool
  pub real : Codec Json ℤ
  pub rate : Codec Json Rate
  pub bytes : Codec Json (List ℕ)
  pub texts : Codec Json (List String)
  pub log : Codec Json (List AuditEntry)
  pub array : Codec Json (List Json)
  pub format_timestamp : ℕ → Json

module _ (lib : JsonLib) where
  open lib use {
    Json, null, set, get, text, integer, unsigned, boolean, real, rate, bytes, texts, log, array,
    format_timestamp,
  }

  -- An assignment, and whether the code comes to it.
  pub record Assignment : Type 0 where
    pub key : String
    pub value : Json
    pub guard : Bool

  abbrev always : String → Json → Assignment
  always key value = record { key = key; value = value; guard = true }

  unfoldable pub assign : List Assignment → Json → Json
  assign [] j = j
  assign (a ∷ rest) j = assign rest (if a.guard then set a.key a.value j else j)

  abbrev pub file_fields : FileInfo → List Assignment
  file_fields f =
      always "filename" (text.encode f.filename)
      ∷ always "fullPath" (text.encode f.full_path)
      ∷ always "type" (text.encode (file_type_to_string f.file_type))
      ∷ always "sizeBytes" (unsigned.encode f.size_bytes)
      ∷ always "createdAt" (format_timestamp f.created_at)
      ∷ record {
        key = "completedAt";
        value = format_timestamp f.completed_at;
        guard = f.is_complete;
      }
      ∷ always "durationSeconds" (real.encode f.duration_seconds)
      ∷ always "isComplete" (boolean.encode f.is_complete)
      ∷ always "width" (integer.encode f.width)
      ∷ always "height" (integer.encode f.height)
      ∷ always "segmentNumber" (integer.encode f.segment_number)
      ∷ always "isKeyframeAligned" (boolean.encode f.is_keyframe_aligned)
      ∷ always "checksum" (bytes.encode f.checksum)
      ∷ always "integrityVerified" (boolean.encode f.integrity_verified)
      ∷ always "checksumAlgorithm" (text.encode f.checksum_algorithm)
      ∷ always "integrityStatus" (text.encode f.integrity_status)
      ∷ record {
        key = "lastIntegrityCheck";
        value = format_timestamp f.last_integrity_check;
        guard = not (f.last_integrity_check == 0);
      }
      ∷ always "backupPath" (text.encode f.backup_path)
      ∷ always "recoveryInfo" (text.encode f.recovery_info)
      ∷ always "auditLog" (log.encode f.audit_log)
      ∷ []

  -- serializeFileInfo
  unfoldable pub serialize_file_info : FileInfo → Json
  serialize_file_info f = assign (file_fields f) null

  -- if (json.contains(key)) field = json[key];
  unfoldable pub read : {A : Type 0} → Codec Json A → String → A → Json → A
  read c key old j = elim (get key j) [ none ↦ old | some v ↦ c.decode v ]

  -- if (json.contains(key)) field = now(); the text is not parsed.
  unfoldable pub read_time : ℕ → String → ℕ → Json → ℕ
  read_time now key old j = elim (get key j) [ none ↦ old | some v ↦ now ]

  unfoldable pub read_as : {A : Type 0} → (String → A) → String → A → Json → A
  read_as parse key old j = elim (get key j) [ none ↦ old | some v ↦ parse (text.decode v) ]

  -- deserializeFileInfo; `junk` is what an enumeration without initialiser starts as.
  unfoldable pub deserialize_file_info : ℕ → FileType → Json → FileInfo
  deserialize_file_info now junk j = record {
    filename = read text "filename" "" j;
    full_path = read text "fullPath" "" j;
    file_type = read_as string_to_file_type "type" junk j;
    size_bytes = read unsigned "sizeBytes" 0 j;
    created_at = read_time now "createdAt" 0 j;
    completed_at = read_time now "completedAt" 0 j;
    last_integrity_check = read_time now "lastIntegrityCheck" 0 j;
    duration_seconds = read real "durationSeconds" (pos 0) j;
    is_complete = read boolean "isComplete" false j;
    width = read integer "width" (pos 0) j;
    height = read integer "height" (pos 0) j;
    segment_number = read integer "segmentNumber" (pos 0) j;
    is_keyframe_aligned = read boolean "isKeyframeAligned" false j;
    checksum = read bytes "checksum" [] j;
    integrity_verified = read boolean "integrityVerified" false j;
    checksum_algorithm = read text "checksumAlgorithm" "SHA-256" j;
    integrity_status = read text "integrityStatus" "pending" j;
    backup_path = read text "backupPath" "" j;
    recovery_info = read text "recoveryInfo" "" j;
    audit_log = read log "auditLog" [] j;
  }

  abbrev pub session_fields : TaskSession → List Assignment
  session_fields s =
      always "taskId" (text.encode s.task_id)
      ∷ always "description" (text.encode s.description)
      ∷ always "channel" (text.encode s.channel)
      ∷ always "users" (texts.encode s.users)
      ∷ always "compositionMode" (text.encode (composition_mode_to_string s.composition_mode))
      ∷ always "layout" (text.encode (layout_to_string s.layout))
      ∷ always "width" (integer.encode s.width)
      ∷ always "height" (integer.encode s.height)
      ∷ always "fps" (integer.encode s.fps)
      ∷ always "videoCodec" (text.encode s.video_codec)
      ∷ always "audioSampleRate" (integer.encode s.audio_sample_rate)
      ∷ always "audioChannels" (integer.encode s.audio_channels)
      ∷ always "audioCodec" (text.encode s.audio_codec)
      ∷ always "outputFormat" (text.encode s.output_format)
      ∷ always "sessionStartTime" (format_timestamp s.session_start_time)
      ∷ record {
        key = "sessionEndTime";
        value = format_timestamp s.session_end_time;
        guard = s.session_completed;
      }
      ∷ always "durationSeconds" (real.encode s.duration_seconds)
      ∷ always "tsSegmentDuration" (integer.encode s.ts_segment_duration)
      ∷ always "tsGeneratePlaylist" (boolean.encode s.ts_generate_playlist)
      ∷ always "playlistPath" (text.encode s.playlist_path)
      ∷ always "totalFramesProcessed" (integer.encode s.total_frames_processed)
      ∷ always "droppedFrames" (integer.encode s.dropped_frames)
      ∷ always "totalBytesGenerated" (unsigned.encode s.total_bytes_generated)
      ∷ always "averageFrameRate" (rate.encode s.average_frame_rate)
      ∷ always "sessionCompleted" (boolean.encode s.session_completed)
      ∷ always "terminationReason" (text.encode s.termination_reason)
      ∷ always "sessionIntegrityHash" (text.encode s.session_integrity_hash)
      ∷ always "sessionAuditLog" (log.encode s.session_audit_log)
      ∷ always "totalFilesExpected" (integer.encode s.total_files_expected)
      ∷ always "filesWithIntegrityIssues" (integer.encode s.files_with_integrity_issues)
      ∷ always "missingFiles" (integer.encode s.missing_files)
      ∷ always "criticalErrors" (texts.encode s.critical_errors)
      ∷ always "files" (array.encode (map serialize_file_info s.files))
      ∷ []

  -- serializeSession
  unfoldable pub serialize_session : TaskSession → Json
  serialize_session s = assign (session_fields s) null

  -- The files behind those that are there: push_back for each entry.
  unfoldable pub read_files : ℕ → FileType → List FileInfo → Json → List FileInfo
  read_files now junk old j = elim (get "files" j) [
    | none ↦ old
    | some v ↦ old ++ map (deserialize_file_info now junk) (array.decode v)
  ]

  -- deserializeSessionInto
  unfoldable pub deserialize_session_into : ℕ → FileType → TaskSession → Json → TaskSession
  deserialize_session_into now junk s j = record s {
    task_id = read text "taskId" s.task_id j;
    description = read text "description" s.description j;
    channel = read text "channel" s.channel j;
    users = read texts "users" s.users j;
    composition_mode = read_as string_to_composition_mode "compositionMode" s.composition_mode j;
    layout = read_as string_to_layout "layout" s.layout j;
    width = read integer "width" s.width j;
    height = read integer "height" s.height j;
    fps = read integer "fps" s.fps j;
    video_codec = read text "videoCodec" s.video_codec j;
    audio_sample_rate = read integer "audioSampleRate" s.audio_sample_rate j;
    audio_channels = read integer "audioChannels" s.audio_channels j;
    audio_codec = read text "audioCodec" s.audio_codec j;
    output_format = read text "outputFormat" s.output_format j;
    session_start_time = read_time now "sessionStartTime" s.session_start_time j;
    session_end_time = read_time now "sessionEndTime" s.session_end_time j;
    duration_seconds = read real "durationSeconds" s.duration_seconds j;
    ts_segment_duration = read integer "tsSegmentDuration" s.ts_segment_duration j;
    ts_generate_playlist = read boolean "tsGeneratePlaylist" s.ts_generate_playlist j;
    playlist_path = read text "playlistPath" s.playlist_path j;
    total_frames_processed = read integer "totalFramesProcessed" s.total_frames_processed j;
    dropped_frames = read integer "droppedFrames" s.dropped_frames j;
    total_bytes_generated = read unsigned "totalBytesGenerated" s.total_bytes_generated j;
    average_frame_rate = read rate "averageFrameRate" s.average_frame_rate j;
    session_completed = read boolean "sessionCompleted" s.session_completed j;
    termination_reason = read text "terminationReason" s.termination_reason j;
    session_integrity_hash = read text "sessionIntegrityHash" s.session_integrity_hash j;
    session_audit_log = read log "sessionAuditLog" s.session_audit_log j;
    total_files_expected = read integer "totalFilesExpected" s.total_files_expected j;
    files_with_integrity_issues =
        read integer "filesWithIntegrityIssues" s.files_with_integrity_issues j;
    missing_files = read integer "missingFiles" s.missing_files j;
    critical_errors = read texts "criticalErrors" s.critical_errors j;
    files = read_files now junk s.files j;
  }

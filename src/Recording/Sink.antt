-- ===== src/Recording/Sink.antt =====
-- src/recording_sink.cpp: the sink's queues and their workers, its user filter, the duration limit, the
-- rotation of TS segments, thread priorities and the grid of a layout.
--
-- A frame's bytes are its samples here; what VideoFrame makes of its planes is an argument.
use rtc_egress.Prelude.{
  ℕ, ◌+◌, ◌-◌, ◌*◌, ◌/◌, String, List, [], ◌∷◌, ◌++◌, ℤ, pos, ◌-ℤ◌, pos_part, ltb_ℤ, Bool, true,
  false, not, ◌&&◌, ◌||◌, ltb, leb, ◌==◌, if◌then◌else◌, str_eq, length, is_empty,
}
use rtc_egress.Segments.Defs.{
  Manager, should_rotate_segment, finalize_current_segment, rotate_to_new_segment,
}

module _ {ℓ} {A : Type ℓ} where
  -- while (queue.size() >= limit) queue.pop(); for a limit that is not negative. At a limit of 0 the code
  -- goes on to pop from the empty queue.
  unfoldable pub make_room : ℕ → List A → List A
  make_room limit [] = []
  make_room limit (f ∷ fs) =
      let rest = make_room limit fs in if leb limit (length (f ∷ fs)) then rest else f ∷ fs

  unfoldable pub push_frame : ℕ → A → List A → List A
  push_frame limit f queue = make_room limit queue ++ (f ∷ [])

pub record VideoInput : Type 0 where
  pub user : String
  pub timestamp : ℕ
  pub is_valid : Bool

pub record AudioInput : Type 0 where
  pub user : String
  pub timestamp : ℕ
  pub has_buffer : Bool
  pub samples : ℤ
  pub sample_rate : ℤ
  pub channels : ℤ

-- The part of the sink and of its configuration that is used here.
pub record Sink : Type 0 where
  pub is_recording : Bool
  pub stop_requested : Bool
  pub stop_in_progress : Bool
  pub record_video : Bool
  pub record_audio : Bool
  pub video_buffer_size : ℕ
  pub audio_buffer_size : ℕ
  pub target_users : List String
  pub task_id : String
  pub max_duration_seconds : ℤ
  pub audio_priority : ℕ
  pub video_priority : ℕ
  pub is_ts : Bool
  pub ts_pending_segment_rotation : Bool
  pub video_frame_queue : List VideoInput
  pub audio_frame_queue : List AudioInput

-- isRecording
abbrev pub recording : Sink → Bool
recording s = s.is_recording && not s.stop_requested

unfoldable pub is_listed : String → List String → Bool
is_listed user [] = false
is_listed user (u ∷ us) = str_eq u user || is_listed user us

-- shouldRecordUser
unfoldable pub should_record_user : Sink → String → Bool
should_record_user s user = is_empty s.target_users || is_listed user s.target_users

-- initialize: the guards before anything is changed.
unfoldable pub may_initialize : Sink → ℕ → ℕ → Bool
may_initialize s audio_priority video_priority =
    not (s.is_recording || s.stop_in_progress)
    && not (
        ltb audio_priority 1
        || ltb 99 audio_priority
        || ltb video_priority 1
        || ltb 99 video_priority)

-- onVideoFrame; `is_valid` says that the planes are right and could be copied.
unfoldable pub on_video_frame : VideoInput → Sink → Sink
on_video_frame f s =
    if recording s && should_record_user s f.user && f.is_valid && s.record_video
    then record s { video_frame_queue = push_frame s.video_buffer_size f s.video_frame_queue }
    else s

-- The bytes of a frame.
abbrev pub data_size : AudioInput → ℕ
data_size f = pos_part f.samples * pos_part f.channels * 2

-- The guards of onAudioFrame behind the filter.
unfoldable pub is_sound : AudioInput → Bool
is_sound f =
    f.has_buffer
    && not (
        ltb_ℤ f.samples (pos 1)
        || ltb_ℤ f.sample_rate (pos 1)
        || ltb_ℤ f.channels (pos 1)
        || ltb_ℤ (pos 8) f.channels)
    && not (ltb 10485760 (data_size f))

-- onAudioFrame
unfoldable pub on_audio_frame : AudioInput → Sink → Sink
on_audio_frame f s =
    if recording s && should_record_user s f.user && is_sound f && s.record_audio
    then record s { audio_frame_queue = push_frame s.audio_buffer_size f s.audio_frame_queue }
    else s

-- The loop of processVideoFrames: `stops` says at which readings of the flag a stop was requested, three
-- for each frame. The frames that are encoded, and those that stay.
unfoldable pub video_loop : (ℕ → Bool) → ℕ → List VideoInput → List VideoInput × List VideoInput
video_loop stops n [] = ([], [])
video_loop stops n (f ∷ fs) =
    let rest = video_loop stops (n + 3) fs in
    let encoded = if f.is_valid && not (stops (n + 1)) then f ∷ [] else [] in
    if stops n
    then ([], f ∷ fs)
    else if stops (n + 2)
    then (encoded, fs)
    else (encoded ++ rest.0, rest.1)

-- processVideoFrames
unfoldable pub process_video_frames :
    (ℕ → Bool) → List VideoInput → List VideoInput × List VideoInput
process_video_frames stops queue = if stops 0 then ([], queue) else video_loop stops 1 queue

-- setThreadPriority: clamp(20 - priority * 40 / 99, -20, 19)
unfoldable pub nice_priority : ℕ → ℤ
nice_priority priority =
    let wanted = pos 20 -ℤ pos (priority * 40 / 99) in
    if ltb_ℤ wanted (pos 0 -ℤ pos 20)
    then pos 0 -ℤ pos 20
    else if ltb_ℤ (pos 19) wanted
    then pos 19
    else wanted

-- One round of recordingThread: what it reads of the stop flag and of the clock.
pub record Round : Type 0 where
  pub stop_before : Bool
  pub elapsed_seconds : ℤ
  pub stop_locked : Bool
  pub stop_waited : Bool

-- How the thread goes on: another round, the end, or the end by the duration limit.
pub data Ending : Type 0 where
  goes_on : Ending
  stopped : Ending
  expired : Ending

unfoldable pub round : ℤ → Round → Ending
round limit r =
    if r.stop_before
    then Ending.stopped
    else if not (ltb_ℤ r.elapsed_seconds limit)
    then if r.stop_locked then Ending.stopped else Ending.expired
    else if r.stop_waited
    then Ending.stopped
    else Ending.goes_on

-- The completions that recordingThread reports in its rounds: (task, status, message).
unfoldable pub completions : Bool → String → ℤ → List Round → List (String × String × String)
completions has_callback task_id limit [] = []
completions has_callback task_id limit (r ∷ rounds) =
    let rest = completions has_callback task_id limit rounds in
    elim (round limit r) [
      | Ending.goes_on ↦ rest
      | Ending.stopped ↦ []
      | Ending.expired ↦
          if has_callback && not (str_eq task_id "")
          then (task_id, "success", "Recording completed - max duration reached") ∷ []
          else []
    ]

-- checkAndRotateSegmentIfNeeded, in ticks of a second.
unfoldable pub check_and_rotate : ℕ → ℕ → Manager → Sink → Sink
check_and_rotate ticks now m s =
    if s.is_ts && should_rotate_segment ticks now m
    then record s { ts_pending_segment_rotation = true }
    else s

-- switchToNewTSSegment as far as the segments go: the clock and the answers of the file system for each
-- of the two calls, and whether the new file's format could be set up.
pub record Switch : Type 0 where
  pub now : ℕ
  pub later : ℕ
  pub renamed : Bool
  pub opened : Bool
  pub set_up : Bool

unfoldable pub switch_to_new_ts_segment : Switch → Manager → Bool × Manager
switch_to_new_ts_segment w m =
    let finalized = finalize_current_segment w.now w.renamed w.opened m in
    let rotated = rotate_to_new_segment w.now w.later w.renamed w.opened finalized.1 in
    if not finalized.0
    then (false, finalized.1)
    else if not rotated.0
    then (false, rotated.1)
    else (w.set_up, rotated.1)

-- What encodeIndividualFrame does for a video packet of a TS recording before it is written.
unfoldable pub on_packet : Switch → Bool → Manager → Sink → Manager × Sink
on_packet w is_keyframe m s =
    let switched = switch_to_new_ts_segment w m in
    if s.is_ts && is_keyframe && s.ts_pending_segment_rotation
    then (switched.1, if switched.0 then record s { ts_pending_segment_rotation = false } else s)
    else (m, s)

-- calculateOptimalLayout (columns, rows); above 24 users `wide` is the square root rounded up.
unfoldable pub grid : ℕ → ℕ → ℕ × ℕ
grid wide users =
    if users == 1
    then (1, 1)
    else if users == 2
    then (2, 1)
    else if leb 3 users && leb users 4
    then (2, 2)
    else if leb 5 users && leb users 6
    then (3, 2)
    else if leb 7 users && leb users 9
    then (3, 3)
    else if leb 10 users && leb users 12
    then (4, 3)
    else if leb 13 users && leb users 16
    then (4, 4)
    else if leb 17 users && leb users 20
    then (5, 4)
    else if leb 21 users && leb users 24
    then (6, 4)
    else (wide, (users + wide - 1) / wide)

-- ===== src/Pipe/Recording.antt =====
-- src/task_pipe.cpp, TaskPipe::handleRecordingCommand.
use rtc_egress.Prelude.{
  String, List, none, some, Bool, true, false, not, if◌then◌else◌, Dict, lookup, ◌&&◌, ◌||◌, ℤ, pos,
  negsuc, eqb_ℤ, str_eq, erase,
}
use rtc_egress.Uds.{UdsMessage}
use rtc_egress.Pipe.Defs.{
  VideoDecodeMode, Mode, Call, set_decode_mode, recording_set_callback, recording_initialize,
  recording_start, recording_stop, RecordingConfig, ChannelState, M, ◌>>=◌, ◌>>◌, pure, done, gets,
  modify, when, branch, on_some, is_blank, add_task, has_type, channel_of_task, perform,
  send_completion, first_of_type,
}
use rtc_egress.Pipe.Connection.{ensure_connected, release_connection}
use rtc_egress.Pipe.Snapshot.{mode_of, is_zero, task_to_stop}

abbrev pub is_individual : Mode → Bool
is_individual Mode.individual = true
is_individual Mode.composite = false

-- -1 chooses by the mode; every other number stands for itself.
abbrev pub resolve_mode : ℤ → Mode → ℤ
resolve_mode requested mode =
    if eqb_ℤ requested (negsuc 0) then (if is_individual mode then pos 0 else pos 1) else requested

abbrev pub decode_mode_of : ℤ → VideoDecodeMode
decode_mode_of n =
    if eqb_ℤ n (pos 0)
    then VideoDecodeMode.passthrough
    else if eqb_ℤ n (pos 2)
    then VideoDecodeMode.sdk_decode
    else VideoDecodeMode.ffmpeg_decode

abbrev pub is_passthrough : VideoDecodeMode → Bool
is_passthrough VideoDecodeMode.passthrough = true
is_passthrough _ = false

-- The decode mode of the client, and the number that the sink gets.
unfoldable pub decode_choice : ℤ → Mode → VideoDecodeMode × ℤ
decode_choice requested mode =
    let n = resolve_mode requested mode in
    if is_passthrough (decode_mode_of n) && not (is_individual mode)
    then (VideoDecodeMode.ffmpeg_decode, pos 1)
    else (decode_mode_of n, n)

-- The writes to `recording_config_`.
unfoldable pub recording_config_for : UdsMessage → RecordingConfig → RecordingConfig
unfolding decode_choice
recording_config_for msg c = record {
  channel = msg.channel;
  task_id = msg.task_id;
  layout = msg.layout;
  regions = msg.regions;
  video_width = if is_zero msg.width then c.video_width else msg.width;
  video_height = if is_zero msg.height then c.video_height else msg.height;
  target_users = msg.uid;
  mode = mode_of msg;
  video_decode_mode = (decode_choice msg.video_decode_mode (mode_of msg)).1;
}

-- Whether the channel, in the state that `channel_states_[channel]` gives, has a recording.
unfoldable pub is_recording_on : String → Dict ChannelState → Bool
unfolding first_of_type
is_recording_on c m = elim (lookup c m) [ none ↦ false | some s ↦ has_type "record" s.active_tasks ]

-- No other recording task in the channel's entry.
unfoldable pub is_last_recording : String → String → Dict ChannelState → Bool
unfolding first_of_type
is_last_recording c task m = elim (lookup c m) [
  | none ↦ false
  | some s ↦ not (has_type "record" (erase task s.active_tasks))
]

module _ (answer : List Call → Call → Bool) where
  unfoldable pub start_recording : UdsMessage → M (Unit {0})
  start_recording msg = do
    perform answer recording_set_callback
    config ← gets (λ p. p.recording_config)
    ready ← perform answer (recording_initialize config)
    started ← branch ready (perform answer recording_start) (pure false)
    when (not started) do
      release_connection answer msg.channel msg.task_id
      send_completion answer msg.task_id "failed" "Failed to start recording sink" ""

  unfoldable pub recording_start_command : UdsMessage → M (Unit {0})
  recording_start_command msg = branch (is_blank msg.channel) done do
    modify (λ p. record p { recording_config = recording_config_for msg p.recording_config })
    perform answer (set_decode_mode (decode_choice msg.video_decode_mode (mode_of msg)).0)
    ok ← ensure_connected answer msg.channel msg.access_token
    when ok do
      active ← gets (λ p. is_recording_on msg.channel p.channel_states)
      modify (λ p. record p {
        channel_states = add_task msg.channel msg.task_id "record" p.channel_states;
      })
      attached ← gets (λ p. p.attached)
      when (not active && attached) (start_recording msg)

  unfoldable pub recording_stop_command : UdsMessage → M (Unit {0})
  recording_stop_command msg = do
    target ← gets (λ p. task_to_stop "record" msg p.channel_states)
    on_some target λ t. do
      when (not (is_blank t.1 || is_blank t.0)) do
        last ← gets (λ p. is_last_recording t.0 t.1 p.channel_states)
        attached ← gets (λ p. p.attached)
        when (last && attached) (do perform answer recording_stop; done)
        release_connection answer t.0 t.1
        send_completion answer t.1 "success" "" "Recording task completed successfully"

  -- TaskPipe::handleRecordingCommand; `status` and an unknown action write to the log alone.
  unfoldable pub handle_recording : String → UdsMessage → M (Unit {0})
  handle_recording action msg =
      branch (str_eq action "start") (recording_start_command msg)
        (branch (str_eq action "stop") (recording_stop_command msg) done)

  -- The callback that `setCompletionCallback` registers: the sink reports the end of a task.
  unfoldable pub recording_completed : String → String → String → M (Unit {0})
  recording_completed task status message = do
    channel ← gets (λ p. channel_of_task task p.channel_states)
    on_some channel λ c. when (not (is_blank c)) (release_connection answer c task)
    send_completion answer task status "" message

-- ===== src/Pipe/Stream.antt =====
-- src/task_pipe.cpp, TaskPipe::handleStreamingCommand: publishing over RTMP and WHIP.
use rtc_egress.Prelude.{
  String, List, [], ◌∷◌, Option, none, some, Bool, not, if◌then◌else◌, Dict, ◌&&◌, ◌||◌, pos, eqb_ℤ,
  str_eq,
}
use rtc_egress.Uds.{UdsMessage}
use rtc_egress.Streaming.Config.{Protocol, SinkConfig, default_sink}
use rtc_egress.Pipe.Defs.{
  VideoDecodeMode, Call, set_decode_mode, streaming_set_callback, streaming_initialize,
  streaming_start, streaming_stop, has_failed, is_streaming, ChannelState, M, ◌>>=◌, ◌>>◌, done,
  gets, modify, when, branch, on_some, is_blank, add_task, channel_of_task,
  has_active_tasks_of_type, perform, send_completion,
}
use rtc_egress.Pipe.Connection.{ensure_connected, release_connection}
use rtc_egress.Pipe.Snapshot.{is_zero}

abbrev pub protocol_of : UdsMessage → Protocol
protocol_of msg = if str_eq msg.cmd "rtmp" then Protocol.rtmp else Protocol.whip

unfoldable pub sink_config_for : UdsMessage → SinkConfig
sink_config_for msg = record default_sink {
  task_id = msg.task_id;
  output = record {
    protocol = protocol_of msg;
    url = msg.output_url;
    token = msg.output_token;
    timeout_ms = msg.output_timeout_ms;
  };
  reconnect_attempts = msg.output_reconnect_attempts;
  reconnect_delay_ms = msg.output_reconnect_delay_ms;
  target_users = msg.uid;
  layout = msg.layout;
  regions = msg.regions;
  width = if is_zero msg.width then default_sink.width else msg.width;
  height = if is_zero msg.height then default_sink.height else msg.height;
}

-- Publishing never passes encoded frames through.
abbrev pub stream_decode_mode : UdsMessage → VideoDecodeMode
stream_decode_mode msg =
    if eqb_ℤ msg.video_decode_mode (pos 2)
    then VideoDecodeMode.sdk_decode
    else VideoDecodeMode.ffmpeg_decode

abbrev pub has_stream : Dict ChannelState → Bool
has_stream m = has_active_tasks_of_type "rtmp" m || has_active_tasks_of_type "whip" m

abbrev pub stream_matches : UdsMessage → String → String × String → Bool
stream_matches msg channel (task, type) =
    str_eq type msg.cmd
    && (if is_blank msg.task_id then str_eq channel msg.channel else str_eq task msg.task_id)

unfoldable pub stream_in_channel : UdsMessage → String → Dict String → Option String
stream_in_channel msg channel [] = none
stream_in_channel msg channel (t ∷ ts) =
    if stream_matches msg channel t then some t.0 else stream_in_channel msg channel ts

-- The task that a stop command means; the search goes on past a blank id.
unfoldable pub stream_to_stop : UdsMessage → Dict ChannelState → Option (String × String)
unfolding stream_in_channel
stream_to_stop msg [] = none
stream_to_stop msg ((c, s) ∷ m) =
    let others = stream_to_stop msg m in
    elim (stream_in_channel msg c s.active_tasks) [
      | none ↦ others
      | some task ↦ if is_blank task then others else some (c, task)
    ]

module _ (answer : List Call → Call → Bool) where
  unfoldable pub refuse_stream : UdsMessage → String → M (Unit {0})
  refuse_stream msg error = send_completion answer msg.task_id "failed" error ""

  -- From the registration of the task on.
  unfoldable pub publish : UdsMessage → M (Unit {0})
  publish msg = do
    modify (λ p. record p {
      channel_states = add_task msg.channel msg.task_id msg.cmd p.channel_states;
    })
    started ← perform answer streaming_start
    when (not started) do
      release_connection answer msg.channel msg.task_id
      refuse_stream msg "Failed to start streaming publisher"

  unfoldable pub open_stream : UdsMessage → M (Unit {0})
  open_stream msg = do
    ok ← ensure_connected answer msg.channel msg.access_token
    branch ok (publish msg)
        do perform answer streaming_stop; refuse_stream msg "Failed to connect RTC channel"

  unfoldable pub stream_start_command : UdsMessage → M (Unit {0})
  stream_start_command msg = do
    busy ← gets (λ p. has_stream p.channel_states)
    branch (is_blank msg.channel || (is_blank msg.task_id || busy))
        (refuse_stream msg "Streaming requires an idle sink and a channel")
        do
          perform answer streaming_stop
          perform answer streaming_set_callback
          perform answer (set_decode_mode (stream_decode_mode msg))
          valid ← perform answer (streaming_initialize (sink_config_for msg))
          branch valid (open_stream msg)
              do perform answer streaming_stop; refuse_stream msg "Invalid streaming configuration"

  unfoldable pub stream_stop_command : UdsMessage → M (Unit {0})
  stream_stop_command msg = do
    target ← gets (λ p. stream_to_stop msg p.channel_states)
    on_some target λ t. do
      perform answer streaming_stop
      failed ← perform answer has_failed
      release_connection answer t.0 t.1
      branch failed
          (send_completion answer t.1 "failed" "Streaming destination failed" "Streaming stopped")
          (send_completion answer t.1 "success" "" "Streaming stopped")

  -- TaskPipe::handleStreamingCommand, and handleRtmpCommand and handleWhipCommand, which call it.
  unfoldable pub handle_streaming : String → UdsMessage → M (Unit {0})
  handle_streaming action msg = branch (str_eq action "start") (stream_start_command msg) (
      branch (str_eq action "stop") (stream_stop_command msg) (
        branch (str_eq action "status") (do perform answer is_streaming; done)
          (refuse_stream msg "Unsupported streaming action")))

  -- The callback that `setCompletionCallback` registers: the sink reports the end of a task.
  unfoldable pub streaming_completed : String → String → String → M (Unit {0})
  streaming_completed task status message = do
    channel ← gets (λ p. channel_of_task task p.channel_states)
    on_some channel λ c. when (not (is_blank c)) do
      release_connection answer c task
      send_completion answer task status (if str_eq status "failed" then message else "") message

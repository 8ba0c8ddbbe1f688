-- ===== src/Pipe/Events.antt =====
-- src/task_pipe.cpp: the dispatch of one message, SDK errors, and the stop of the pipe.
use Prim.Native.String.{◌++◌ as str_append}
use rtc_egress.Prelude.{String, List, [], ◌∷◌, Bool, false, Dict, ◌&&◌, str_eq, ◌++◌}
use rtc_egress.Uds.{UdsMessage}
use rtc_egress.Pipe.Defs.{
  Call, disconnect, snapshot_stop, recording_stop, streaming_stop, ChannelState, TaskPipe, M, ◌>>=◌,
  ◌>>◌, done, gets, modify, when, branch, has_active_tasks_of_type, perform, send_completion,
}
use rtc_egress.Pipe.Snapshot.{handle_snapshot}
use rtc_egress.Pipe.Recording.{handle_recording, recording_completed}
use rtc_egress.Pipe.Stream.{has_stream, handle_streaming, streaming_completed}

abbrev pub task_ids : Dict String → List String
task_ids [] = []
task_ids ((task, _) ∷ ts) = task ∷ task_ids ts

-- Every active task, in the order of iteration.
unfoldable pub all_tasks : Dict ChannelState → List String
all_tasks [] = []
all_tasks ((_, s) ∷ m) = task_ids s.active_tasks ++ all_tasks m

-- "SDK Error: " + errorType + " - " + errorMessage
abbrev pub sdk_error_text : String → String → String
sdk_error_text kind message = str_append "SDK Error: " (str_append kind (str_append " - " message))

-- What can happen to a pipe: a message from the manager, the end of a task that a sink reports, an
-- error of the SDK, `stop`, and the socket that opens or closes.
pub data Event : Type 0 where
  message : UdsMessage → Event
  recording_ended : String → String → String → Event
  streaming_ended : String → String → String → Event
  sdk_error : String → String → Event
  stopped : Event
  socket : Bool → Event

module _ (answer : List Call → Call → Bool) where
  -- The completion of each task to fail.
  unfoldable pub fail_tasks : String → List String → M (Unit {0})
  fail_tasks error [] = done
  fail_tasks error (t ∷ ts) = do
    send_completion answer t "failed" error "Task failed due to unrecoverable SDK error"
    fail_tasks error ts

  -- TaskPipe::handleSdkError
  unfoldable pub handle_sdk_error : String → String → M (Unit {0})
  handle_sdk_error kind text = do
    recording ← gets (λ p. has_active_tasks_of_type "record" p.channel_states)
    snapshot ← gets (λ p. has_active_tasks_of_type "snapshot" p.channel_states)
    stream ← gets (λ p. has_stream p.channel_states)
    tasks ← gets (λ p. all_tasks p.channel_states)
    fail_tasks (sdk_error_text kind text) tasks
    modify (λ p. record p { channel_states = [] })
    attached ← gets (λ p. p.attached)
    when (recording && attached) (do perform answer recording_stop; done)
    when (snapshot && attached) (do perform answer snapshot_stop; done)
    when stream (do perform answer streaming_stop; done)

  -- TaskPipe::stop, behind the join of the reading thread.
  unfoldable pub stop : M (Unit {0})
  stop = do
    running ← gets (λ p. p.running)
    when running do
      modify (λ p. record p { running = false })
      modify (λ p. record p { channel_states = [] })
      attached ← gets (λ p. p.attached)
      when attached (do perform answer snapshot_stop; done)
      when attached (do perform answer recording_stop; done)
      perform answer streaming_stop
      when attached (do perform answer disconnect; done)

  -- The handler that `command_handlers_` has for the message's command; an unknown command writes
  -- to the log alone.
  unfoldable pub handle_message : UdsMessage → M (Unit {0})
  handle_message msg = branch (str_eq msg.cmd "snapshot") (handle_snapshot answer msg.action msg) (
      branch (str_eq msg.cmd "record") (handle_recording answer msg.action msg) (
        branch (str_eq msg.cmd "rtmp") (handle_streaming answer msg.action msg)
          (branch (str_eq msg.cmd "whip") (handle_streaming answer msg.action msg) done)))

  -- One event.
  unfoldable pub handle : Event → TaskPipe → TaskPipe
  handle (message msg) p = (handle_message msg p).1
  handle (recording_ended task status text) p = (recording_completed answer task status text p).1
  handle (streaming_ended task status text) p = (streaming_completed answer task status text p).1
  handle (sdk_error kind text) p = (handle_sdk_error kind text p).1
  handle stopped p = (stop p).1
  handle (socket connected) p = record p { connected = connected }

  unfoldable pub run : TaskPipe → List Event → TaskPipe
  run p [] = p
  run p (e ∷ es) = run (handle e p) es

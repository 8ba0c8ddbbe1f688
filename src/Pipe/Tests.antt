-- ===== src/Pipe/Tests.antt =====
-- The theorems on src/task_pipe.cpp at concrete messages and pipes.
use mathlib.Core.List.{reverse, flatten}
use rtc_egress.Prelude.{
  total, ℕ, String, List, [], ◌∷◌, ◌≡◌, refl, ◌≤◌, ◌↔◌, ◌⊎◌, none, some, Bool, true, false, pos,
  Dict, str_eq, lookup, length, ◌++◌, map,
}
use rtc_egress.Uds.{UdsMessage, default_message}
use rtc_egress.Pipe.Defs.{
  individual, SnapshotConfig, RecordingConfig, Call, ChannelState, TaskPipe, channel_of_task,
}
use rtc_egress.Pipe.Snapshot.{task_to_stop, snapshot_stop_command}
use rtc_egress.Pipe.Recording.{recording_stop_command}
use rtc_egress.Pipe.Stream.{stream_start_command}
use rtc_egress.Pipe.Events.{
  Event, message, recording_ended, sdk_error, stopped, run, handle_sdk_error,
}
use rtc_egress.Pipe.View.{completions}
use rtc_egress.Pipe.Starts.{failure}
use rtc_egress.Pipe.Stops.{recording_report, snapshot_report}
use rtc_egress.Pipe.Reports.{sdk_failure}
use rtc_egress.Pipe.Tidy.{IsTidy}
use rtc_egress.Pipe.Exclusive.{streams, streams_empty}
use rtc_egress.Pipe.Runs.{run-IsTidy, run-streams}
use rtc_egress.Pipe.Completions.{
  task_type, stream_start_reports, recording_stop_reports, sdk_error_reports,
}
use rtc_egress.Pipe.Faults.{snapshot_stop_takes_any_type}
use rtc_egress.Pipe.Thread.{
  Attempt, not_ready, connect_to_manager, max_retries, gave_up, Sending, wrote, interrupted,
  send_loop, connect_to_manager_waits, send_loop_lem,
}

abbrev yes : List Call → Call → Bool
yes _ _ = true

abbrev snapshot_config : SnapshotConfig
snapshot_config = record {
  channel = "";
  task_id = "";
  target_users = [];
  mode = individual;
  layout = "flat";
  regions = [];
  user_order = [];
  width = pos 1280;
  height = pos 720;
  interval_in_ms = pos 20000;
}

abbrev recording_config : RecordingConfig
recording_config = record {
  channel = "";
  task_id = "";
  layout = "flat";
  regions = [];
  video_width = pos 1280;
  video_height = pos 720;
  target_users = [];
  mode = individual;
  video_decode_mode = pos 1;
}

abbrev pipe_of : Dict ChannelState → TaskPipe
pipe_of m = record {
  channel_states = m;
  connected = true;
  running = true;
  attached = true;
  snapshot_config = snapshot_config;
  recording_config = recording_config;
  calls = [];
}

abbrev idle : TaskPipe
idle = pipe_of []

abbrev with_tasks : Dict String → ChannelState
with_tasks ts = record { is_connected = true; active_tasks = ts }

abbrev room : ChannelState
room = with_tasks (("r1", "record") ∷ ("w1", "whip") ∷ [])

abbrev busy : TaskPipe
busy = pipe_of (("room", room) ∷ [])

abbrev command : String → String → String → UdsMessage
command cmd action task = record default_message {
  cmd = cmd;
  action = action;
  task_id = task;
  channel = "room";
}

-- Two streams, a recording and its end, an error and a stop.
abbrev day : List Event
day =
    message (command "rtmp" "start" "s1")
    ∷ message (command "whip" "start" "s2")
    ∷ message (command "record" "start" "r1")
    ∷ recording_ended "r1" "success" "done"
    ∷ message (command "rtmp" "stop" "s1")
    ∷ message (command "whip" "start" "s2")
    ∷ sdk_error "connection" "lost"
    ∷ stopped
    ∷ []

run-IsTidy_example : IsTidy (run yes idle day).channel_states
run-IsTidy_example =
    run-IsTidy yes day idle
      (
        (λ _. refl),
        ((λ _. refl), ((λ _. refl), (tt, ((λ _. refl), ((λ _. refl), (tt, (tt, tt))))))),
      )
      tt

run-streams_example : streams (run yes idle day).channel_states ≤ 1
run-streams_example = run-streams yes day idle streams_empty

stream_start_reports_example :
    let q = (stream_start_command yes (command "rtmp" "start" "s1") idle).1 in
    ((task_type "room" "s1" q.channel_states ≡ some "rtmp") × (completions q.calls ≡ []))
    ⊎ ((error : String) × (completions q.calls ≡ failure "s1" error ∷ [])
        × ((q.channel_states ≡ []) ⊎ (task_type "room" "s1" q.channel_states ≡ none)))
stream_start_reports_example = stream_start_reports yes (command "rtmp" "start" "s1") idle refl

recording_stop_reports_example :
    let q = (recording_stop_command yes (command "record" "stop" "r1") busy).1 in
    (task_type "room" "r1" q.channel_states ≡ none)
    × (completions q.calls ≡ recording_report ("room", "r1") ∷ [])
    × ((d other : String)
        → (str_eq "room" d ≡ false) ⊎ (str_eq "r1" other ≡ false)
        → task_type d other q.channel_states ≡ task_type d other busy.channel_states)
unfolding task_to_stop channel_of_task lookup
recording_stop_reports_example =
    recording_stop_reports yes (command "record" "stop" "r1") busy ("room", "r1") refl refl refl

abbrev two_rooms : TaskPipe
two_rooms = pipe_of (("room", room) ∷ ("hall", with_tasks (("n1", "snapshot") ∷ [])) ∷ [])

sdk_error_reports_example :
    let q = (handle_sdk_error yes "token" "expired" two_rooms).1 in
    (q.channel_states ≡ [])
    × (completions q.calls
        ≡ reverse (map (sdk_failure "SDK Error: token - expired") ("r1" ∷ "w1" ∷ "n1" ∷ [])) ++ [])
unfolding flatten
sdk_error_reports_example = sdk_error_reports yes "token" "expired" two_rooms refl

abbrev never_ready : ℕ → Attempt
never_ready _ = not_ready

connect_to_manager_waits_example :
    let c = connect_to_manager never_ready (λ _. true) in
    (total c.delays ≤ 15000)
    × (length c.delays ≤ max_retries)
    × (c.result ≡ gave_up → length c.delays ≡ max_retries)
connect_to_manager_waits_example = connect_to_manager_waits never_ready (λ _. true)

abbrev partial_writes : List Sending
partial_writes = wrote 2 ∷ interrupted ∷ wrote 1 ∷ []

send_loop_lem_example :
    let s = send_loop partial_writes (7 ∷ 8 ∷ 9 ∷ []) in
    ((rest : List ℕ) × (s.wire ++ rest ≡ 7 ∷ 8 ∷ 9 ∷ []))
    × ((s.complete ≡ true) ↔ (s.wire ≡ 7 ∷ 8 ∷ 9 ∷ []))
send_loop_lem_example = send_loop_lem partial_writes (7 ∷ 8 ∷ 9 ∷ [])

abbrev anonymous : TaskPipe
anonymous = pipe_of (("room", with_tasks (("", "snapshot") ∷ [])) ∷ [])

snapshot_stop_takes_any_type_example :
    let q = (snapshot_stop_command yes (command "snapshot" "stop" "w1") busy).1 in
    (task_type "room" "w1" q.channel_states ≡ none)
    × (completions q.calls ≡ snapshot_report ("room", "w1") ∷ [])
unfolding channel_of_task lookup
snapshot_stop_takes_any_type_example =
    snapshot_stop_takes_any_type yes (command "snapshot" "stop" "w1") busy "room" refl refl refl
      refl

-- ===== src/Pipe/Snapshot.antt =====
-- src/task_pipe.cpp, TaskPipe::handleSnapshotCommand.
use rtc_egress.Prelude.{
  String, List, [], ◌∷◌, Option, none, some, Bool, true, false, not, if◌then◌else◌, Dict, lookup,
  insert, ◌&&◌, ◌||◌, ℤ, pos, ltb_ℤ, eqb_ℤ, str_eq,
}
use rtc_egress.Uds.{UdsMessage}
use rtc_egress.Pipe.Defs.{
  Mode, Call, set_interval, is_capturing, snapshot_initialize, snapshot_start, snapshot_stop,
  SnapshotConfig, ChannelState, M, ◌>>=◌, ◌>>◌, pure, done, gets, modify, when, branch, on_some,
  is_blank, add_task, channel_of_task, first_of_type, has_active_tasks_of_type, perform,
  send_completion,
}
use rtc_egress.Pipe.Connection.{without_task, ensure_connected, release_connection}

-- msg.uid.size() == 1 && msg.layout != "customized"
abbrev pub is_single : List String → Bool
is_single (u ∷ []) = true
is_single _ = false

abbrev pub mode_of : UdsMessage → Mode
mode_of msg =
    if is_single msg.uid && not (str_eq msg.layout "customized")
    then Mode.individual
    else Mode.composite

abbrev pub is_zero : ℤ → Bool
is_zero n = eqb_ℤ n (pos 0)

-- The writes to `snapshot_config_`.
unfoldable pub snapshot_config_for : UdsMessage → SnapshotConfig → SnapshotConfig
snapshot_config_for msg c = record {
  channel = msg.channel;
  task_id = msg.task_id;
  target_users = msg.uid;
  mode = mode_of msg;
  layout = msg.layout;
  regions = msg.regions;
  user_order = msg.uid;
  width = if is_zero msg.width then c.width else msg.width;
  height = if is_zero msg.height then c.height else msg.height;
  interval_in_ms =
      if ltb_ℤ (pos 0) msg.interval_in_ms then msg.interval_in_ms else c.interval_in_ms;
}

-- The task that a stop command means, with its channel: by its id in any channel, or the first of
-- the type in the command's channel.
unfoldable pub task_to_stop : String → UdsMessage → Dict ChannelState → Option (String × String)
task_to_stop type msg m =
    if is_blank msg.task_id
    then elim (lookup msg.channel m) [
      | none ↦ none
      | some s ↦ elim (first_of_type type s.active_tasks) [
        | none ↦ none
        | some task ↦ some (msg.channel, task)
      ]
    ]
    else elim (channel_of_task msg.task_id m) [ none ↦ none | some c ↦ some (c, msg.task_id) ]

-- active_tasks.erase(task) in the channel's entry
unfoldable pub remove_task : String → String → Dict ChannelState → Dict ChannelState
remove_task c task m = elim (lookup c m) [ none ↦ m | some s ↦ insert c (without_task task s) m ]

module _ (answer : List Call → Call → Bool) where
  unfoldable pub start_capture : UdsMessage → M (Unit {0})
  start_capture msg = do
    config ← gets (λ p. p.snapshot_config)
    ready ← perform answer (snapshot_initialize config)
    started ← branch ready (perform answer snapshot_start) (pure false)
    when (not started) (release_connection answer msg.channel msg.task_id)

  unfoldable pub snapshot_start_command : UdsMessage → M (Unit {0})
  snapshot_start_command msg = do
    ok ← ensure_connected answer msg.channel msg.access_token
    when ok do
      modify (λ p. record p { snapshot_config = snapshot_config_for msg p.snapshot_config })
      modify (λ p. record p {
        channel_states = add_task msg.channel msg.task_id "snapshot" p.channel_states;
      })
      when (ltb_ℤ (pos 0) msg.interval_in_ms)
          (do perform answer (set_interval msg.interval_in_ms); done)
      attached ← gets (λ p. p.attached)
      when attached
          do capturing ← perform answer is_capturing; when (not capturing) (start_capture msg)

  -- The stop of the sink under the lock, when the last snapshot task is gone.
  unfoldable pub stop_capture : M (Unit {0})
  stop_capture = do
    others ← gets (λ p. has_active_tasks_of_type "snapshot" p.channel_states)
    attached ← gets (λ p. p.attached)
    when (not others && attached) do
      capturing ← perform answer is_capturing
      when capturing (do perform answer snapshot_stop; done)

  -- The stop by id, and without one by the channel. The latter reads the task's key after the node that
  -- holds it is erased, which is undefined; the model goes on with the key that was there.
  unfoldable pub snapshot_stop_command : UdsMessage → M (Unit {0})
  snapshot_stop_command msg = do
    target ← gets (λ p. task_to_stop "snapshot" msg p.channel_states)
    on_some target λ t. do
      modify (λ p. record p { channel_states = remove_task t.0 t.1 p.channel_states })
      when (not (is_blank t.1 || is_blank t.0)) do
        stop_capture
        release_connection answer t.0 t.1
        send_completion answer t.1 "success" "" "Snapshot task completed successfully"

  -- TaskPipe::handleSnapshotCommand; `status` and an unknown action write to the log alone.
  unfoldable pub handle_snapshot : String → UdsMessage → M (Unit {0})
  handle_snapshot action msg = branch (is_blank msg.channel) done (
      branch (str_eq action "start") (snapshot_start_command msg)
        (branch (str_eq action "stop") (snapshot_stop_command msg) done))

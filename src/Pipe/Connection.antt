-- ===== src/Pipe/Connection.antt =====
-- src/task_pipe.cpp, connection management: who keeps the channel's RTC connection open.
use rtc_egress.Prelude.{
  String, List, none, some, Bool, true, false, not, Dict, lookup, insert, erase, is_empty, ◌&&◌,
}
use rtc_egress.Pipe.Defs.{
  Call, set_channel, set_access_token, connect, disconnect, snapshot_stop, recording_stop,
  streaming_stop, ChannelState, M, ◌>>=◌, ◌>>◌, pure, done, gets, modify, when, branch, on_some,
  is_blank, channel_or_new, perform,
}

-- it != end() && it->second.is_connected
abbrev pub is_connected_to : String → Dict ChannelState → Bool
is_connected_to c m = elim (lookup c m) [ none ↦ false | some s ↦ s.is_connected ]

-- channel_states_[channel].is_connected = true
abbrev pub mark_connected : String → Dict ChannelState → Dict ChannelState
mark_connected c m = insert c (record (channel_or_new c m) { is_connected = true }) m

-- state.active_tasks.erase(task) in an entry that is there
abbrev pub without_task : String → ChannelState → ChannelState
without_task task s = record s { active_tasks = erase task s.active_tasks }

module _ (answer : List Call → Call → Bool) where
  -- TaskPipe::ensureConnected
  unfoldable pub ensure_connected : String → String → M Bool
  ensure_connected channel token = do
    known ← gets (λ p. is_connected_to channel p.channel_states)
    branch known (pure true) do
      perform answer (set_channel channel)
      when (not (is_blank token)) (do perform answer (set_access_token token); done)
      ok ← perform answer connect
      branch ok
          (do
            modify (λ p. record p { channel_states = mark_connected channel p.channel_states })
            pure true)
          (pure false)

  -- TaskPipe::cleanupConnection behind its lock: the sinks stop, and the client disconnects.
  unfoldable pub stop_all : Bool → M (Unit {0})
  stop_all connected = do
    attached ← gets (λ p. p.attached)
    when attached (do perform answer snapshot_stop; done)
    when attached (do perform answer recording_stop; done)
    perform answer streaming_stop
    when (attached && connected) (do perform answer disconnect; done)

  -- TaskPipe::cleanupConnection
  unfoldable pub cleanup_connection : String → M (Unit {0})
  cleanup_connection channel = do
    entry ← gets (λ p. lookup channel p.channel_states)
    on_some entry λ s. do
      modify (λ p. record p { channel_states = erase channel p.channel_states })
      stop_all s.is_connected

  -- TaskPipe::releaseConnection
  unfoldable pub release_connection : String → String → M (Unit {0})
  release_connection channel task = do
    entry ← gets (λ p. lookup channel p.channel_states)
    on_some entry λ s. do
      modify
          (λ p. record p { channel_states = insert channel (without_task task s) p.channel_states })
      when (is_empty (erase task s.active_tasks)) (cleanup_connection channel)

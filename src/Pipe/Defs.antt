-- ===== src/Pipe/Defs.antt =====
-- src/include/task_pipe.h: the state of a `TaskPipe`, and the calls that its handlers make.
--
-- The other objects (the RTC client, the three sinks, the socket) are reached by calls alone. A
-- call is recorded in `calls`, newest first, and its Boolean result is what the environment
-- answers, given all calls before it.
use rtc_egress.Prelude.{
  String, List, [], ◌∷◌, Option, none, some, Bool, true, false, if◌then◌else◌, ℤ, Dict, str_eq,
  insert, lookup,
}
use rtc_egress.Uds.{LayoutRegion, UdsCompletionMessage}
use rtc_egress.Streaming.Config.{SinkConfig}

-- agora::rtc::VideoDecodeMode
pub data VideoDecodeMode : Type 0 where
  ffmpeg_decode sdk_decode passthrough : VideoDecodeMode

-- VideoCompositor::Mode
pub data Mode : Type 0 where
  individual composite : Mode

-- The fields of SnapshotSink::Config that the pipe writes; the others are passed on as configured.
pub record SnapshotConfig : Type 0 where
  pub channel : String
  pub task_id : String
  pub target_users : List String
  pub mode : Mode
  pub layout : String
  pub regions : List LayoutRegion
  pub user_order : List String
  pub width : ℤ
  pub height : ℤ
  pub interval_in_ms : ℤ

-- The fields of RecordingSink::Config that the pipe writes.
pub record RecordingConfig : Type 0 where
  pub channel : String
  pub task_id : String
  pub layout : String
  pub regions : List LayoutRegion
  pub video_width : ℤ
  pub video_height : ℤ
  pub target_users : List String
  pub mode : Mode
  pub video_decode_mode : ℤ

pub data Call : Type 0 where
  set_channel : String → Call
  set_access_token : String → Call
  set_decode_mode : VideoDecodeMode → Call
  connect : Call
  disconnect : Call
  set_interval : ℤ → Call
  is_capturing : Call
  snapshot_initialize : SnapshotConfig → Call
  snapshot_start : Call
  snapshot_stop : Call
  recording_set_callback : Call
  recording_initialize : RecordingConfig → Call
  recording_start : Call
  recording_stop : Call
  streaming_set_callback : Call
  streaming_initialize : SinkConfig → Call
  streaming_start : Call
  streaming_stop : Call
  has_failed : Call
  is_streaming : Call
  send : UdsCompletionMessage → Call

-- TaskPipe::ChannelState; `active_tasks` maps a task's id to its type.
pub record ChannelState : Type 0 where
  pub is_connected : Bool
  pub active_tasks : Dict String

abbrev pub new_channel : ChannelState
new_channel = record { is_connected = false; active_tasks = [] }

-- `attached` says that `start` has set the three pointers to the client and the sinks, which
-- nothing resets; `connected` is `sockfd_ >= 0`.
pub record TaskPipe : Type 0 where
  pub channel_states : Dict ChannelState
  pub connected : Bool
  pub running : Bool
  pub attached : Bool
  pub snapshot_config : SnapshotConfig
  pub recording_config : RecordingConfig
  pub calls : List Call

-- A handler: it changes the pipe and returns a value.
abbrev pub M {ℓ} : Type ℓ → Type ℓ
M A = TaskPipe → A × TaskPipe

unfoldable pub pure {ℓ} : {A : Type ℓ} → A → M A
pure a p = (a, p)

unfoldable pub done : M (Unit {0})
done p = (tt, p)

unfoldable pub gets {ℓ} : {A : Type ℓ} → (TaskPipe → A) → M A
gets f p = (f p, p)

unfoldable pub modify : (TaskPipe → TaskPipe) → M (Unit {0})
modify f p = (tt, f p)

unfoldable pub when : Bool → M (Unit {0}) → M (Unit {0})
when b m p = if b then m p else (tt, p)

unfoldable pub branch {ℓ} : {A : Type ℓ} → Bool → M A → M A → M A
branch b m k p = if b then m p else k p

-- An iterator that may be the end.
unfoldable pub on_some {ℓ} : {A : Type ℓ} → Option A → (A → M (Unit {0})) → M (Unit {0})
on_some o f p = elim o [ none ↦ (tt, p) | some a ↦ f a p ]

infixl 5 ◌>>=◌ ◌>>◌
unfoldable pub ◌>>◌ {ℓ κ} : {A : Type ℓ} {B : Type κ} → M A → M B → M B
◌>>◌ m k p = let (a, p') = m p in k p'

-- Opening this opens the other actions too.
unfoldable pub ◌>>=◌ {ℓ κ} : {A : Type ℓ} {B : Type κ} → M A → (A → M B) → M B
unfolding pure done gets modify when branch on_some ◌>>◌
◌>>=◌ m f p = let (a, p') = m p in f a p'

abbrev pub is_blank : String → Bool
is_blank s = str_eq s ""

-- channel_states_[channel], as the operation leaves the map: a missing entry is made.
abbrev pub channel_or_new : String → Dict ChannelState → ChannelState
channel_or_new c m = elim (lookup c m) [ none ↦ new_channel | some s ↦ s ]

-- channel_states_[channel].active_tasks[task] = type
unfoldable pub add_task : String → String → String → Dict ChannelState → Dict ChannelState
add_task c task type m =
    let s = channel_or_new c m in
    insert c (record s { active_tasks = insert task type s.active_tasks }) m

-- active_tasks.count(task)
abbrev pub has_task : String → Dict String → Bool
has_task task m = elim (lookup task m) [ none ↦ false | some _ ↦ true ]

-- The first channel, in the order of iteration, that has the task.
unfoldable pub channel_of_task : String → Dict ChannelState → Option String
channel_of_task task [] = none
channel_of_task task ((c, s) ∷ m) =
    if has_task task s.active_tasks then some c else channel_of_task task m

-- The first task of the type.
unfoldable pub first_of_type : String → Dict String → Option String
first_of_type type [] = none
first_of_type type ((task, t) ∷ m) = if str_eq t type then some task else first_of_type type m

abbrev pub has_type : String → Dict String → Bool
has_type type m = elim (first_of_type type m) [ none ↦ false | some _ ↦ true ]

-- TaskPipe::hasActiveTasksOfType
unfoldable pub has_active_tasks_of_type : String → Dict ChannelState → Bool
unfolding first_of_type
has_active_tasks_of_type type [] = false
has_active_tasks_of_type type ((c, s) ∷ m) =
    if has_type type s.active_tasks then true else has_active_tasks_of_type type m

module _ (answer : List Call → Call → Bool) where
  unfoldable pub perform : Call → M Bool
  perform c p = (answer p.calls c, record p { calls = c ∷ p.calls })

  -- TaskPipe::sendCompletionMessage: one message, if the socket is open. That a send fails on the way is
  -- only logged there, so a message counts as sent when its sending begins.
  unfoldable pub send_completion : String → String → String → String → M (Unit {0})
  send_completion task status error message p =
      if p.connected
      then (
        tt,
        record p {
          calls =
              send (record { task_id = task; status = status; error = error; message = message })
              ∷ p.calls;
        },
      )
      else (tt, p)

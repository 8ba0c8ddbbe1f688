-- ===== src/Pipe/Exclusive.antt =====
-- src/task_pipe.cpp has one streaming sink: at most one streaming task is ever active.
use rtc_egress.Prelude.{
  ℕ, ◌+◌, ◌≤◌, String, [], ◌∷◌, ◌≡◌, refl, arith, none, some, Bool, true, false, inl, inr,
  Option-cases, Dict, if◌then◌else◌, lookup, insert, erase, str_eq, ◌||◌,
}
use rtc_egress.Uds.{UdsMessage}
use rtc_egress.Pipe.Defs.{
  ChannelState, add_task, first_of_type, has_active_tasks_of_type, has_type, channel_or_new,
}
use rtc_egress.Pipe.Connection.{mark_connected, without_task}
use rtc_egress.Pipe.Snapshot.{remove_task}
use rtc_egress.Pipe.Stream.{has_stream}
use rtc_egress.Pipe.Entries.{released, reached}
use rtc_egress.Pipe.Starts.{joined}

abbrev pub is_stream_type : String → Bool
is_stream_type t = str_eq t "rtmp" || str_eq t "whip"

abbrev pub type_weight : String → ℕ
type_weight t = if is_stream_type t then 1 else 0

pub streams_in : Dict String → ℕ
streams_in [] = 0
streams_in ((_, t) ∷ ts) = type_weight t + streams_in ts

-- How many streaming tasks are active, in all channels.
pub streams : Dict ChannelState → ℕ
streams [] = 0
streams ((_, s) ∷ m) = streams_in s.active_tasks + streams m

streams_in-insert :
    (k t : String) (ts : Dict String) → streams_in (insert k t ts) ≤ type_weight t + streams_in ts
unfolding streams_in insert
streams_in-insert k t [] = omega arith
streams_in-insert k t ((j, u) ∷ ts) = ground (arith, streams_in-insert k t ts)

streams_in-erase : (k : String) (ts : Dict String) → streams_in (erase k ts) ≤ streams_in ts
unfolding streams_in erase
streams_in-erase k [] = omega arith
streams_in-erase k ((j, u) ∷ ts) = ground (arith, streams_in-erase k ts)

abbrev tasks_at : String → Dict ChannelState → Dict String
tasks_at c m = elim (lookup c m) [ none ↦ [] | some s ↦ s.active_tasks ]

streams-insert :
    (c : String) (s : ChannelState) (m : Dict ChannelState)
    → streams (insert c s m) + streams_in (tasks_at c m) ≡ streams m + streams_in s.active_tasks
unfolding streams insert lookup
streams-insert c s [] = unfold streams_in in omega arith
streams-insert c s ((d, u) ∷ m) = ground (arith, streams-insert c s m)

streams-erase : (c : String) (m : Dict ChannelState) → streams (erase c m) ≤ streams m
unfolding streams erase
streams-erase c [] = omega arith
streams-erase c ((d, u) ∷ m) = ground (arith, streams-erase c m)

pub streams-released :
    (c task : String) (m : Dict ChannelState) → streams (released c task m) ≤ streams m
streams-released c task m = elim (Option-cases (lookup c m)) [
  | inl e ↦ ground arith
  | inr (s, e) ↦ ground (
    arith,
    streams-erase c m,
    streams-insert c (without_task task s) m,
    streams_in-erase task s.active_tasks,
  )
]

pub streams-removed :
    (c task : String) (m : Dict ChannelState) → streams (remove_task c task m) ≤ streams m
unfolding remove_task
streams-removed c task m = elim (Option-cases (lookup c m)) [
  | inl e ↦ ground arith
  | inr (s, e) ↦
      ground (arith, streams-insert c (without_task task s) m, streams_in-erase task s.active_tasks)
]

streams-mark_connected :
    (c : String) (m : Dict ChannelState) → streams (mark_connected c m) ≡ streams m
streams-mark_connected c m =
    ground (arith, streams-insert c (record (channel_or_new c m) { is_connected = true }) m)

streams-reached : (c : String) (m : Dict ChannelState) → streams (reached c m) ≡ streams m
streams-reached c m = ground (arith, streams-mark_connected c m)

streams-add_task :
    (c task t : String) (m : Dict ChannelState)
    → streams (add_task c task t m) ≤ type_weight t + streams m
unfolding add_task
streams-add_task c task t m =
    let s = channel_or_new c m in
    ground (
      arith,
      streams-insert c (record s { active_tasks = insert task t s.active_tasks }) m,
      streams_in-insert task t s.active_tasks,
    )

pub streams-joined :
    (msg : UdsMessage) (t : String) (m : Dict ChannelState)
    → streams (joined msg t m) ≤ type_weight t + streams m
streams-joined msg t m = omega (
  arith,
  streams-add_task msg.channel msg.task_id t (reached msg.channel m),
  streams-reached msg.channel m,
)

-- The guard of a start sees every streaming task.
streams_in_none :
    (ts : Dict String) → (has_type "rtmp" ts || has_type "whip" ts) ≡ false → streams_in ts ≡ 0
unfolding streams_in first_of_type
streams_in_none [] h = refl
streams_in_none ((k, t) ∷ ts) h = ground (arith, streams_in_none ts)

pub streams_none : (m : Dict ChannelState) → has_stream m ≡ false → streams m ≡ 0
unfolding streams has_active_tasks_of_type
streams_none [] h = refl
streams_none ((c, s) ∷ m) h = ground (arith, streams_none m, streams_in_none s.active_tasks)

pub streams_empty : streams [] ≤ 1
unfolding streams
streams_empty = omega arith

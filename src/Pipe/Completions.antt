-- ===== src/Pipe/Completions.antt =====
-- What src/task_pipe.cpp reports to the manager, and what it does to the other tasks meanwhile.
use mathlib.Core.List.{reverse, flatten}
use rtc_egress.Prelude.{
  String, List, [], ◌∷◌, ◌++◌, ◌≡◌, refl, sym, ◌∙◌, ap, subst, arith, Option, none, some, Bool,
  true, false, inl, inr, ◌⊎◌, Option-cases, Dict, if◌then◌else◌, lookup, insert, erase, str_eq,
  eq_iff, lookup-insert, lookup-erase, lookup-insert_self, map, eq_refl, is_empty,
}
use rtc_egress.Uds.{UdsMessage, UdsCompletionMessage}
use rtc_egress.Pipe.Defs.{
  Call, disconnect, snapshot_stop, recording_stop, streaming_stop, ChannelState, TaskPipe, ◌>>=◌,
  perform, add_task, channel_or_new,
}
use rtc_egress.Pipe.Connection.{without_task, stop_all, cleanup_connection, release_connection}
use rtc_egress.Pipe.Recording.{recording_stop_command}
use rtc_egress.Pipe.Snapshot.{task_to_stop}
use rtc_egress.Pipe.Stream.{stream_start_command}
use rtc_egress.Pipe.Events.{task_ids, all_tasks, sdk_error_text, handle_sdk_error}
use rtc_egress.Pipe.Entries.{released, reached}
use rtc_egress.Pipe.View.{View, view, completions, with_completion}
use rtc_egress.Pipe.Starts.{failure, joined, rejoined, stream_start-outcome}
use rtc_egress.Pipe.Stops.{unnamed, recording_report, recording_stop-outcome}
use rtc_egress.Pipe.Reports.{sdk_failure, failed_all, failed_all-open, sdk_error-outcome}

-- The task's entry in a channel.
abbrev pub task_type : String → String → Dict ChannelState → Option String
task_type c task m = elim (lookup c m) [ none ↦ none | some s ↦ lookup task s.active_tasks ]

pub task_type-add_task :
    (c task type : String) (m : Dict ChannelState)
    → task_type c task (add_task c task type m) ≡ some type
unfolding add_task
task_type-add_task c task type m =
    let s = channel_or_new c m in
    ground (
      arith,
      lookup-insert_self c (record s { active_tasks = insert task type s.active_tasks }) m,
      lookup-insert_self task type s.active_tasks,
    )

pub task_type-released :
    (c task : String) (m : Dict ChannelState) → task_type c task (released c task m) ≡ none
task_type-released c task m = elim (Option-cases (lookup c m)) [
  | inl e ↦ ground arith
  | inr (s, e) ↦ ground (
    arith,
    lookup-erase c c m,
    lookup-insert_self c (without_task task s) m,
    lookup-erase task task s.active_tasks,
    eq_refl c,
    eq_refl task,
  )
]

lookup_empty : (k : String) (ts : Dict String) → is_empty ts ≡ true → lookup k ts ≡ none
unfolding lookup
lookup_empty k [] h = refl
lookup_empty k (t ∷ ts) h = cc

-- Releasing a task does nothing to the other channels, nor to the other tasks of its channel.
pub task_type-released_ne :
    (c task d other : String) (m : Dict ChannelState)
    → (str_eq c d ≡ false) ⊎ (str_eq task other ≡ false)
    → task_type d other (released c task m) ≡ task_type d other m
task_type-released_ne c task d other m h = elim (Option-cases (lookup c m)) [
  | inl e ↦ ground arith
  | inr (s, e) ↦ ground (
    arith,
    lookup-erase c d m,
    lookup-insert c d (without_task task s) m,
    lookup-erase task other s.active_tasks,
    lookup_empty other (erase task s.active_tasks),
    eq_iff c d,
    e,
  )
]

pub with_completion-open :
    (m : UdsCompletionMessage) (v : View)
    → v.connected ≡ true
    → with_completion m v ≡ record v { sent = m ∷ v.sent }
with_completion-open m v h = ground arith

pub some_eq : (a b : String × String) → some a ≡ some b → a ≡ b
some_eq a b e = cc

-- The ids of all active tasks of all channels.
abbrev pub every_task : Dict ChannelState → List String
every_task m = flatten (map (λ e. map (λ t. t.0) e.1.active_tasks) m)

task_ids-map : (ts : Dict String) → task_ids ts ≡ map (λ t. t.0) ts
task_ids-map [] = refl
task_ids-map ((id, type) ∷ ts) = ap (λ ids. id ∷ ids) (task_ids-map ts)

all_tasks-every_task : (m : Dict ChannelState) → all_tasks m ≡ every_task m
unfolding all_tasks flatten
all_tasks-every_task [] = refl
all_tasks-every_task ((c, s) ∷ m) =
    ap (λ ids. ids ++ all_tasks m) (task_ids-map s.active_tasks)
    ∙ ap (λ ids. map (λ t. t.0) s.active_tasks ++ ids) (all_tasks-every_task m)

module _ (answer : List Call → Call → Bool) where
  -- A stream's start, with an open socket: the task is registered with the command's type and
  -- nothing is sent, or one failure of the task is sent and the task is not registered: the map is
  -- as before, or the channel has lost the task again.
  pub stream_start_reports :
      (msg : UdsMessage) (p : TaskPipe)
      → p.connected ≡ true
      → let q = (stream_start_command answer msg p).1 in
        ((task_type msg.channel msg.task_id q.channel_states ≡ some msg.cmd)
          × (completions q.calls ≡ completions p.calls))
        ⊎ ((error : String) × (completions q.calls
              ≡ failure msg.task_id error ∷ completions p.calls)
            × ((q.channel_states ≡ p.channel_states)
                ⊎ (task_type msg.channel msg.task_id q.channel_states ≡ none)))
  stream_start_reports msg p h = elim ((stream_start-outcome answer msg (view p)).at p refl) [
    | inl e ↦ inl (
      ap (λ w. task_type msg.channel msg.task_id w.channels) e
          ∙ task_type-add_task msg.channel msg.task_id msg.cmd
              (reached msg.channel p.channel_states),
      ap (λ w. w.sent) e,
    )
    | inr (inl (error, e)) ↦
        let f = e ∙ with_completion-open (failure msg.task_id error) (view p) h in
        inr (error, ap (λ w. w.sent) f, inl (ap (λ w. w.channels) f))
    | inr (inr (error, e)) ↦
        let f =
          e
          ∙ with_completion-open (failure msg.task_id error)
              (record (view p) { channels = rejoined msg msg.cmd p.channel_states }) h in
        inr (
          error,
          ap (λ w. w.sent) f,
          inr (
              ap (λ w. task_type msg.channel msg.task_id w.channels) f
              ∙ task_type-released msg.channel msg.task_id (joined msg msg.cmd p.channel_states)),
        )
  ]

  -- A recording's stop that finds a task, where neither the task nor its channel has a blank name, with
  -- an open socket: the task is gone from its channel, one success is sent, and every other task of
  -- every channel stays.
  pub recording_stop_reports :
      (msg : UdsMessage) (p : TaskPipe) (t : String × String)
      → p.connected ≡ true
      → task_to_stop "record" msg p.channel_states ≡ some t
      → unnamed t ≡ false
      → let q = (recording_stop_command answer msg p).1 in
        (task_type t.0 t.1 q.channel_states ≡ none)
        × (completions q.calls ≡ recording_report t ∷ completions p.calls)
        × ((d other : String)
            → (str_eq t.0 d ≡ false) ⊎ (str_eq t.1 other ≡ false)
            → task_type d other q.channel_states ≡ task_type d other p.channel_states)
  recording_stop_reports msg p t h found named =
      elim ((recording_stop-outcome answer msg (view p)).at p refl) [
        | inl (n, _) ↦ cc
        | inr (inl (u, f, b, _)) ↦ absurd (ground (arith, f, found, named, b))
        | inr (inr (u, f, _, e)) ↦
            let f' =
              subst
                (λ x.
                  view (recording_stop_command answer msg p).1
                  ≡ with_completion (recording_report x)
                      (record (view p) { channels = released x.0 x.1 p.channel_states }))
                (some_eq u t (sym f ∙ found)) e
              ∙ with_completion-open (recording_report t)
                  (record (view p) { channels = released t.0 t.1 p.channel_states }) h in
            (
              ap (λ w. task_type t.0 t.1 w.channels) f'
                  ∙ task_type-released t.0 t.1 p.channel_states,
              ap (λ w. w.sent) f',
              λ d other ne.
                  ap (λ w. task_type d other w.channels) f'
                  ∙ task_type-released_ne t.0 t.1 d other p.channel_states ne,
            )
      ]

  -- An SDK error, with an open socket: every active task of every channel is reported as failed, in
  -- the order in which the map lists them, and no channel is tracked any more.
  pub sdk_error_reports :
      (kind text : String) (p : TaskPipe)
      → p.connected ≡ true
      → let q = (handle_sdk_error answer kind text p).1 in
        (q.channel_states ≡ [])
        × (completions q.calls
            ≡ reverse (map (sdk_failure (sdk_error_text kind text)) (every_task p.channel_states))
              ++ completions p.calls)
  sdk_error_reports kind text p h =
      let e = (sdk_error-outcome answer kind text (view p)).at p refl in
      let f =
        subst
          (λ b.
            (failed_all (sdk_error_text kind text) (all_tasks p.channel_states)
              (record (view p) { connected = b })).sent
            ≡ reverse (map (sdk_failure (sdk_error_text kind text)) (all_tasks p.channel_states))
              ++ completions p.calls)
          (sym h)
          (ap (λ w. w.sent)
            (failed_all-open (sdk_error_text kind text) (all_tasks p.channel_states)
              p.channel_states (completions p.calls))) in
      (
        ap (λ w. w.channels) e,
        ap (λ w. w.sent) e
            ∙ f
            ∙ ap
                (λ ids.
                  reverse (map (sdk_failure (sdk_error_text kind text)) ids) ++ completions p.calls)
                (all_tasks-every_task p.channel_states),
      )

  -- `releaseConnection` of a tracked channel, in a pipe that has started: while another task is left
  -- no call is made; with the last task gone the three sinks stop, and the client disconnects if the
  -- channel was connected.
  pub release_connection-calls :
      (c task : String) (s : ChannelState) (p : TaskPipe)
      → lookup c p.channel_states ≡ some s
      → p.attached ≡ true
      → (release_connection answer c task p).1.calls ≡ (
          if is_empty (erase task s.active_tasks)
          then (if s.is_connected
              then disconnect ∷ streaming_stop ∷ recording_stop ∷ snapshot_stop ∷ p.calls
              else streaming_stop ∷ recording_stop ∷ snapshot_stop ∷ p.calls)
          else p.calls)
  unfolding release_connection cleanup_connection stop_all perform ◌>>=◌
  release_connection-calls c task s p found attached =
      ground (arith, lookup-insert_self c (without_task task s) p.channel_states)

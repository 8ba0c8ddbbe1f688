-- ===== src/Pipe/Runs.antt =====
-- What holds of a pipe of src/task_pipe.cpp after any events.
use rtc_egress.Prelude.{
  ◌≤◌, String, List, [], ◌∷◌, ◌≡◌, refl, sym, subst, arith, Bool, inl, inr, Option-cases, All,
}
use rtc_egress.Pipe.Defs.{Call, TaskPipe, channel_of_task}
use rtc_egress.Pipe.Events.{
  Event, message, recording_ended, streaming_ended, sdk_error, stopped, socket, handle, run,
}
use rtc_egress.Pipe.View.{View, view}
use rtc_egress.Pipe.Reports.{
  sdk_error-outcome, stop-outcome, without_ended, recording_completed-outcome,
  streaming_completed-outcome,
}
use rtc_egress.Pipe.Exclusive.{streams, streams-released, streams_empty}
use rtc_egress.Pipe.SingleStream.{message-AtMostOne}
use rtc_egress.Pipe.Tidy.{IsTidy, released-IsTidy}
use rtc_egress.Pipe.Messages.{HasTaskId, IsTidy-after, with_completion-IsTidy, message-IsTidy}

abbrev pub IsProper : Event → Type 0
IsProper (message msg) = HasTaskId msg
IsProper _ = Unit

streams_after : {w u : View} → w ≡ u → streams u.channels ≤ 1 → streams w.channels ≤ 1
streams_after e t = subst (λ x. streams x.channels ≤ 1) (sym e) t

module _ (answer : List Call → Call → Bool) where
  without_ended-IsTidy :
      (task status text : String) (v : View)
      → IsTidy v.channels
      → IsTidy (without_ended answer task status text v).channels
  without_ended-IsTidy task status text v t =
      elim (Option-cases (channel_of_task task v.channels)) [
        | inl n ↦ ground arith
        | inr (c, e) ↦ ground (arith, released-IsTidy c task v.channels t)
      ]

  pub handle-IsTidy :
      (e : Event) (p : TaskPipe)
      → IsProper e
      → IsTidy p.channel_states
      → IsTidy (handle answer e p).channel_states
  unfolding handle
  handle-IsTidy (message msg) p k t = (message-IsTidy answer msg (view p) t k).at p refl
  handle-IsTidy (recording_ended task status text) p k t =
      IsTidy-after ((recording_completed-outcome answer task status text (view p)).at p refl)
        (with_completion-IsTidy _ _ (without_ended-IsTidy task status text (view p) t))
  handle-IsTidy (streaming_ended task status text) p k t =
      elim ((streaming_completed-outcome answer task status text (view p)).at p refl) [
        | inl (e, _) ↦ IsTidy-after e t
        | inr e ↦
            IsTidy-after e
              (with_completion-IsTidy _ _ (without_ended-IsTidy task status text (view p) t))
      ]
  handle-IsTidy (sdk_error kind text) p k t =
      IsTidy-after ((sdk_error-outcome answer kind text (view p)).at p refl) tt
  handle-IsTidy stopped p k t = elim ((stop-outcome answer (view p)).at p refl) [
    | inl e ↦ IsTidy-after e t
    | inr e ↦ IsTidy-after e tt
  ]
  handle-IsTidy (socket b) p k t = t

  -- Over any events whose start commands name their tasks, and whatever the client, the sinks and the
  -- socket answer: if every tracked channel is connected, has a name, and has at least one task, each
  -- with a name, then it is so afterwards.
  pub run-IsTidy :
      (es : List Event) (p : TaskPipe)
      → All IsProper es
      → IsTidy p.channel_states
      → IsTidy (run answer p es).channel_states
  unfolding run
  run-IsTidy [] p k t = t
  run-IsTidy (e ∷ es) p k t = run-IsTidy es (handle answer e p) k.1 (handle-IsTidy e p k.0 t)

  without_ended-streams :
      (task status text : String) (v : View)
      → streams (without_ended answer task status text v).channels ≤ streams v.channels
  without_ended-streams task status text v = elim (Option-cases (channel_of_task task v.channels)) [
    | inl n ↦ ground arith
    | inr (c, e) ↦ ground (arith, streams-released c task v.channels)
  ]

  handle-streams :
      (e : Event) (p : TaskPipe)
      → streams p.channel_states ≤ 1
      → streams (handle answer e p).channel_states ≤ 1
  unfolding handle
  handle-streams (message msg) p h = (message-AtMostOne answer msg (view p)).at p refl h
  handle-streams (recording_ended task status text) p h =
      streams_after ((recording_completed-outcome answer task status text (view p)).at p refl)
        (ground (arith, without_ended-streams task status text (view p)))
  handle-streams (streaming_ended task status text) p h =
      elim ((streaming_completed-outcome answer task status text (view p)).at p refl) [
        | inl (e, _) ↦ streams_after e h
        | inr e ↦ streams_after e (ground (arith, without_ended-streams task status text (view p)))
      ]
  handle-streams (sdk_error kind text) p h =
      streams_after ((sdk_error-outcome answer kind text (view p)).at p refl) streams_empty
  handle-streams stopped p h = elim ((stop-outcome answer (view p)).at p refl) [
    | inl e ↦ streams_after e h
    | inr e ↦ streams_after e streams_empty
  ]
  handle-streams (socket b) p h = h

  -- Over any events, and whatever the client, the sinks and the socket answer: a pipe with at most one
  -- streaming task, over RTMP or WHIP and in whatever channel, never has a second one.
  pub run-streams :
      (es : List Event) (p : TaskPipe)
      → streams p.channel_states ≤ 1
      → streams (run answer p es).channel_states ≤ 1
  unfolding run
  run-streams [] p h = h
  run-streams (e ∷ es) p h = run-streams es (handle answer e p) (handle-streams e p h)

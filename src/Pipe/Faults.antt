-- ===== src/Pipe/Faults.antt =====
-- A way in which a stop of src/task_pipe.cpp misses what it means to do.
use rtc_egress.Prelude.{
  String, List, ◌∷◌, ◌≡◌, refl, sym, ◌∙◌, ap, subst, arith, none, some, Bool, true, false, inl, inr,
}
use rtc_egress.Uds.{UdsMessage}
use rtc_egress.Pipe.Defs.{Call, TaskPipe, is_blank, channel_of_task}
use rtc_egress.Pipe.Snapshot.{task_to_stop, snapshot_stop_command}
use rtc_egress.Pipe.Entries.{released}
use rtc_egress.Pipe.View.{view, completions, with_completion}
use rtc_egress.Pipe.Stops.{snapshot_report, snapshot_stop-outcome}
use rtc_egress.Pipe.Completions.{task_type, task_type-released, with_completion-open, some_eq}

module _ (answer : List Call → Call → Bool) (msg : UdsMessage) (p : TaskPipe) where
  -- A snapshot's stop by an id that a channel with a name has, with an open socket, takes the task
  -- whatever its type: a recording or a stream of that id is released, and reported as a snapshot that
  -- was completed.
  pub snapshot_stop_takes_any_type :
      (c : String)
      → p.connected ≡ true
      → is_blank msg.task_id ≡ false
      → is_blank c ≡ false
      → channel_of_task msg.task_id p.channel_states ≡ some c
      → let q = (snapshot_stop_command answer msg p).1 in
        (task_type c msg.task_id q.channel_states ≡ none)
        × (completions q.calls ≡ snapshot_report (c, msg.task_id) ∷ completions p.calls)
  snapshot_stop_takes_any_type c h k b found =
      let target : task_to_stop "snapshot" msg p.channel_states ≡ some (c, msg.task_id) =
        unfold task_to_stop in ground arith in
      elim ((snapshot_stop-outcome answer msg (view p)).at p refl) [
        | inl (n, _) ↦ cc target
        | inr (inl (u, f, bad, _)) ↦ absurd (ground (arith, f, target, k, b, bad))
        | inr (inr (u, f, _, e)) ↦
            let e' =
              subst
                (λ x.
                  view (snapshot_stop_command answer msg p).1
                  ≡ with_completion (snapshot_report x)
                      (record (view p) { channels = released x.0 x.1 p.channel_states }))
                (some_eq u (c, msg.task_id) (sym f ∙ target)) e
              ∙ with_completion-open (snapshot_report (c, msg.task_id))
                  (record (view p) { channels = released c msg.task_id p.channel_states }) h in
            (
              ap (λ w. task_type c msg.task_id w.channels) e'
                  ∙ task_type-released c msg.task_id p.channel_states,
              ap (λ w. w.sent) e',
            )
      ]

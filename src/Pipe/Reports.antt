-- ===== src/Pipe/Reports.antt =====
-- How the report of a sink, an SDK error and the stop of the pipe end in src/task_pipe.cpp.
use mathlib.Core.List.{reverse, reverse-cons}
use rtc_egress.Prelude.{
  String, List, [], ◌∷◌, ◌++◌, ◌≡◌, refl, ◌∙◌, arith, none, some, Bool, true, false, not,
  if◌then◌else◌, inl, inr, ◌⊎◌, str_eq, map, Dict, append_assoc, ap,
}
use rtc_egress.Uds.{UdsCompletionMessage}
use rtc_egress.Pipe.Defs.{Call, ChannelState, is_blank, send_completion, channel_of_task}
use rtc_egress.Pipe.Recording.{recording_completed}
use rtc_egress.Pipe.Stream.{streaming_completed}
use rtc_egress.Pipe.Events.{all_tasks, sdk_error_text, fail_tasks, handle_sdk_error, stop}
use rtc_egress.Pipe.Entries.{released}
use rtc_egress.Pipe.View.{
  View, Post, Post-bind, Post-then, Post-gets, Post-gets_channels, Post-done, Post-when, Post-write,
  Post-quiet, Post-on_some, Post-perform, Post-when_call, with_completion, Post-send,
  Post-release_connection,
}
use rtc_egress.Pipe.Starts.{with_channels}

abbrev pub sdk_failure : String → String → UdsCompletionMessage
sdk_failure error task = record {
  task_id = task;
  status = "failed";
  error = error;
  message = "Task failed due to unrecoverable SDK error";
}

abbrev pub failed_all : String → List String → View → View
failed_all error [] v = v
failed_all error (t ∷ ts) v = failed_all error ts (with_completion (sdk_failure error t) v)

-- With an open socket each task gets its failure, in order.
pub failed_all-open :
    (error : String) (ts : List String) (m : Dict ChannelState) (sent : List UdsCompletionMessage)
    → failed_all error ts (record { channels = m; sent = sent; connected = true }) ≡ record {
      channels = m;
      sent = reverse (map (sdk_failure error) ts) ++ sent;
      connected = true;
    }
failed_all-open error [] m sent = refl
failed_all-open error (t ∷ ts) m sent =
    failed_all-open error ts m (sdk_failure error t ∷ sent)
    ∙ rw (reverse-cons (sdk_failure error t) (map (sdk_failure error) ts)) (rw append_assoc)

module _ (answer : List Call → Call → Bool) where
  fail_tasks-outcome :
      {Q : Unit {0} → View → Type 0} (error : String) (ts : List String) {v : View}
      → Q tt (failed_all error ts v)
      → Post Q (fail_tasks answer error ts) v
  unfolding fail_tasks
  fail_tasks-outcome error [] h = Post-done h
  fail_tasks-outcome error (t ∷ ts) h =
      Post-then (Post-send answer _ _ _ _ (fail_tasks-outcome error ts h))

  pub sdk_error-outcome :
      (kind text : String) (v : View)
      → Post
          (λ _ w.
            w ≡ with_channels (failed_all (sdk_error_text kind text) (all_tasks v.channels) v) [])
          (handle_sdk_error answer kind text)
          v
  unfolding handle_sdk_error
  sdk_error-outcome kind text v = Post-bind (
      Post-gets _ λ p _. Post-bind (
        Post-gets _ λ p' _. Post-bind (
          Post-gets _ λ p'' _. Post-bind (
            Post-gets_channels all_tasks (
              Post-then (
                fail_tasks-outcome _ (all_tasks v.channels) (
                  Post-then (
                    Post-write (λ _. [])
                      (Post-bind (
                        Post-gets _ λ q _. Post-then (
                          Post-when_call answer _ _ refl (
                            Post-then (
                              Post-when_call answer _ _ refl
                                (Post-when_call answer _ _ refl refl))))))))))))))

  -- A pipe that is not running stays as it is.
  pub stop-outcome : (v : View) → Post (λ _ w. (w ≡ v) ⊎ (w ≡ with_channels v [])) (stop answer) v
  unfolding stop
  stop-outcome v = Post-bind (
      Post-gets _ λ p _.
        Post-when _
          (λ _. Post-then (
            Post-quiet _ (λ p. refl)
              (Post-then (
                Post-write (λ _. [])
                  (Post-bind (
                    Post-gets _ λ q _. Post-then (
                      Post-when_call answer _ _ refl (
                        Post-then (
                          Post-when_call answer _ _ refl (
                            Post-then (
                              Post-perform answer _ refl
                                λ _. Post-when_call answer _ _ refl (inr refl))))))))))))
          (λ _. inl refl))

module _ (answer : List Call → Call → Bool) (task status text : String) (v : View) where
  abbrev pub report : String → UdsCompletionMessage
  report error = record { task_id = task; status = status; error = error; message = text }

  -- The task's channel loses it, if there is one.
  abbrev pub without_ended : View
  without_ended = elim (channel_of_task task v.channels) [
    | none ↦ v
    | some c ↦ if is_blank c then v else with_channels v (released c task v.channels)
  ]

  ended_none : channel_of_task task v.channels ≡ none → v ≡ without_ended
  ended_none n = ground arith

  ended_unnamed :
      (c : String)
      → channel_of_task task v.channels ≡ some c
      → not (is_blank c) ≡ false
      → v ≡ without_ended
  ended_unnamed c found blank = ground arith

  ended_named :
      (c : String)
      → channel_of_task task v.channels ≡ some c
      → not (is_blank c) ≡ true
      → with_channels v (released c task v.channels) ≡ without_ended
  ended_named c found named = ground arith

  pub recording_completed-outcome :
      Post
        (λ _ w. w ≡ with_completion (report "") without_ended)
        (recording_completed answer task status text)
        v
  unfolding recording_completed
  recording_completed-outcome = Post-bind (
      Post-gets_channels (channel_of_task task) (
        Post-then (
          Post-on_some _ (λ n. sending (ended_none n))
            λ c found.
              Post-when _
                (λ named.
                  Post-release_connection answer c task (sending (ended_named c found named)))
                (λ blank. sending (ended_unnamed c found blank)))))
    where
      sending :
          {u : View}
          → u ≡ without_ended
          → Post
              (λ _ w. w ≡ with_completion (report "") without_ended)
              (send_completion answer task status "" text)
              u
      sending e = Post-send answer _ _ _ _ (ap (with_completion (report "")) e)

  -- A stream's end is reported only for a task that is still active.
  pub streaming_completed-outcome :
      Post
        (λ _ w.
          ((w ≡ v) × (v ≡ without_ended))
          ⊎ (w
              ≡ with_completion
                  (report (if str_eq status "failed" then text else ""))
                  without_ended))
        (streaming_completed answer task status text)
        v
  unfolding streaming_completed
  streaming_completed-outcome = Post-bind (
      Post-gets_channels (channel_of_task task) (
        Post-on_some _ (λ n. inl (refl, ended_none n))
          λ c found.
            Post-when _
              (λ named. Post-then (
                Post-release_connection answer c task (
                  Post-send answer _ _ _ _
                    (inr (ap (with_completion (report _)) (ended_named c found named))))))
              (λ blank. inl (refl, ended_unnamed c found blank))))

-- ===== src/Pipe/Stops.antt =====
-- How each stop command, each report of a sink and an SDK error of src/task_pipe.cpp can end: the
-- channel map and the completions it leaves.
use rtc_egress.Prelude.{
  String, List, ◌≡◌, refl, arith, Option, none, some, Bool, true, false, not, Dict, inl, inr, ◌⊎◌,
  ◌||◌,
}
use rtc_egress.Uds.{UdsMessage, UdsCompletionMessage}
use rtc_egress.Pipe.Defs.{Call, ChannelState, is_blank}
use rtc_egress.Pipe.Snapshot.{task_to_stop, remove_task, snapshot_stop_command, stop_capture}
use rtc_egress.Pipe.Recording.{recording_stop_command}
use rtc_egress.Pipe.Stream.{stream_to_stop, stream_stop_command}
use rtc_egress.Pipe.Entries.{released, released-remove_task}
use rtc_egress.Pipe.View.{
  View, Post, Post-bind, Post-then, Post-branch, Post-gets, Post-gets_channels, Post-when,
  Post-write, Post-on_some, Post-perform, Post-when_call, with_completion, Post-send,
  Post-release_connection,
}
use rtc_egress.Pipe.Starts.{with_channels, success}

abbrev pub unnamed : String × String → Bool
unnamed t = is_blank t.1 || is_blank t.0

-- No task is meant; or one without a name, with the map left to `unnamed_map`; or a task, which is
-- released and reported.
abbrev pub Stopped :
    Option (String × String)
    → (String × String → Dict ChannelState)
    → (String × String → UdsCompletionMessage)
    → View
    → View
    → Type 0
Stopped target unnamed_map report v w =
    ((target ≡ none) × (w ≡ v))
    ⊎ ((t : String × String) × (target ≡ some t)
        × (unnamed t ≡ true)
        × (w ≡ with_channels v (unnamed_map t)))
    ⊎ ((t : String × String) × (target ≡ some t)
        × (unnamed t ≡ false)
        × (w ≡ with_completion (report t) (with_channels v (released t.0 t.1 v.channels))))

not-true : (b : Bool) → not b ≡ true → b ≡ false
not-true b h = ground arith

not-false : (b : Bool) → not b ≡ false → b ≡ true
not-false b h = ground arith

abbrev pub snapshot_report : String × String → UdsCompletionMessage
snapshot_report t = success t.1 "Snapshot task completed successfully"

abbrev pub recording_report : String × String → UdsCompletionMessage
recording_report t = success t.1 "Recording task completed successfully"

module _ (answer : List Call → Call → Bool) (msg : UdsMessage) (v : View) where
  abbrev pub SnapshotStopped : View → Type 0
  SnapshotStopped =
      Stopped (task_to_stop "snapshot" msg v.channels) (λ t. remove_task t.0 t.1 v.channels)
        snapshot_report v

  pub snapshot_stop-outcome : Post (λ _ w. SnapshotStopped w) (snapshot_stop_command answer msg) v
  unfolding snapshot_stop_command stop_capture
  snapshot_stop-outcome = Post-bind (
      Post-gets_channels (task_to_stop "snapshot" msg) (
        Post-on_some _ (λ n. inl (n, refl))
          λ t found. Post-then (
            Post-write (remove_task t.0 t.1) (
              Post-when _
                (λ named.
                  let finished : SnapshotStopped (
                      with_completion (snapshot_report t)
                        (with_channels v (released t.0 t.1 (remove_task t.0 t.1 v.channels)))) =
                    inr (
                      inr (
                        t,
                        found,
                        not-true _ named,
                        rw (released-remove_task t.0 t.1 v.channels),
                      )) in
                  let released_after =
                    Post-then (
                      Post-release_connection answer t.0 t.1 (Post-send answer _ _ _ _ finished)) in
                  Post-then (
                    Post-bind (
                      Post-gets _ λ p _. Post-bind (
                        Post-gets _ λ p' _.
                          Post-when _
                            (λ _. Post-bind (
                              Post-perform answer _ refl
                                λ b. Post-when_call answer _ _ refl released_after))
                            (λ _. released_after)))))
                (λ blank. inr (inl (t, found, not-false _ blank, refl)))))))

  abbrev pub RecordingStopped : View → Type 0
  RecordingStopped =
      Stopped (task_to_stop "record" msg v.channels) (λ _. v.channels) recording_report v

  pub recording_stop-outcome :
      Post (λ _ w. RecordingStopped w) (recording_stop_command answer msg) v
  unfolding recording_stop_command
  recording_stop-outcome = Post-bind (
      Post-gets_channels (task_to_stop "record" msg) (
        Post-on_some _ (λ n. inl (n, refl))
          λ t found.
            Post-when _
              (λ named. Post-bind (
                Post-gets _ λ p _. Post-bind (
                  Post-gets _ λ p' _. Post-then (
                    Post-when_call answer _ _ refl (
                      Post-then (
                        Post-release_connection answer t.0 t.1 (
                          Post-send answer _ _ _ _
                            (inr (inr (t, found, not-true _ named, refl))))))))))
              (λ blank. inr (inl (t, found, not-false _ blank, refl)))))

  -- A stop of a stream reports a success or a failure, as the sink says.
  abbrev pub StreamStopped : View → Type 0
  StreamStopped w =
      ((stream_to_stop msg v.channels ≡ none) × (w ≡ v))
      ⊎ ((t : String × String) × (report : UdsCompletionMessage) × (stream_to_stop msg v.channels
            ≡ some t)
          × (report.task_id ≡ t.1)
          × (w ≡ with_completion report (with_channels v (released t.0 t.1 v.channels))))

  pub stream_stop-outcome : Post (λ _ w. StreamStopped w) (stream_stop_command answer msg) v
  unfolding stream_stop_command
  stream_stop-outcome = Post-bind (
      Post-gets_channels (stream_to_stop msg) (
        Post-on_some _ (λ n. inl (n, refl))
          λ t found. Post-then (
            Post-perform answer _ refl λ _. Post-bind (
              Post-perform answer _ refl λ failed. Post-then (
                Post-release_connection answer t.0 t.1 (
                  Post-branch _ (λ _. Post-send answer _ _ _ _ (inr (t, _, found, refl, refl)))
                    (λ _. Post-send answer _ _ _ _ (inr (t, _, found, refl, refl)))))))))

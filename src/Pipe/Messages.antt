-- ===== src/Pipe/Messages.antt =====
-- Each message of the manager leaves the channel map of src/task_pipe.cpp tidy.
use rtc_egress.Prelude.{
  List, ◌≡◌, refl, sym, arith, Bool, true, false, inl, inr, str_eq, ◌||◌, subst, Bool-cases,
}
use rtc_egress.Uds.{UdsMessage, UdsCompletionMessage}
use rtc_egress.Pipe.Defs.{Call, is_blank}
use rtc_egress.Pipe.Snapshot.{snapshot_start_command, snapshot_stop_command, handle_snapshot}
use rtc_egress.Pipe.Recording.{recording_start_command, recording_stop_command, handle_recording}
use rtc_egress.Pipe.Stream.{
  stream_start_command, stream_stop_command, handle_streaming, has_stream, refuse_stream,
}
use rtc_egress.Pipe.Events.{handle_message}
use rtc_egress.Pipe.View.{
  View, Post, Post-weaken, Post-branch, Post-done, Post-then, Post-perform, Post-send,
  with_completion,
}
use rtc_egress.Pipe.Starts.{
  SnapshotStarted, snapshot_start-outcome, RecordingStarted, recording_start-outcome, StreamStarted,
  stream_start-outcome, recording_start-unnamed, stream_start-refused,
}
use rtc_egress.Pipe.Stops.{
  SnapshotStopped, snapshot_stop-outcome, RecordingStopped, recording_stop-outcome, StreamStopped,
  stream_stop-outcome,
}
use rtc_egress.Pipe.Tidy.{IsTidy, released-IsTidy, joined-IsTidy, task_to_stop-named}

-- A start command names its task.
abbrev pub HasTaskId : UdsMessage → Type 0
HasTaskId msg = str_eq msg.action "start" ≡ true → is_blank msg.task_id ≡ false

pub IsTidy-after : {w u : View} → w ≡ u → IsTidy u.channels → IsTidy w.channels
IsTidy-after e t = subst (λ x. IsTidy x.channels) (sym e) t

pub with_completion-IsTidy :
    (m : UdsCompletionMessage) (v : View)
    → IsTidy v.channels
    → IsTidy (with_completion m v).channels
with_completion-IsTidy m v t = ground arith

module _ (answer : List Call → Call → Bool) (msg : UdsMessage) (v : View)
    (tidy : IsTidy v.channels) where
  snapshot_start-IsTidy :
      is_blank msg.channel ≡ false
      → is_blank msg.task_id ≡ false
      → Post (λ _ w. IsTidy w.channels) (snapshot_start_command answer msg) v
  snapshot_start-IsTidy c k =
      Post-weaken (λ _ w. SnapshotStarted answer msg v w) (λ _ w. outcome w)
        (snapshot_start-outcome answer msg v)
    where
      outcome : (w : View) → SnapshotStarted answer msg v w → IsTidy w.channels
      outcome w (inl e) = IsTidy-after e tidy
      outcome w (inr (inl e)) = IsTidy-after e (joined-IsTidy msg "snapshot" v.channels c k tidy)
      outcome w (inr (inr e)) =
          IsTidy-after e (released-IsTidy _ _ _ (joined-IsTidy msg "snapshot" v.channels c k tidy))

  snapshot_stop-IsTidy : Post (λ _ w. IsTidy w.channels) (snapshot_stop_command answer msg) v
  snapshot_stop-IsTidy =
      Post-weaken (λ _ w. SnapshotStopped answer msg v w) (λ _ w. outcome w)
        (snapshot_stop-outcome answer msg v)
    where
      outcome : (w : View) → SnapshotStopped answer msg v w → IsTidy w.channels
      outcome w (inl (_, e)) = IsTidy-after e tidy
      outcome w (inr (inl (t, found, blank, e))) =
          cc (task_to_stop-named "snapshot" msg v.channels t tidy found)
      outcome w (inr (inr (t, found, named, e))) =
          IsTidy-after e (with_completion-IsTidy _ _ (released-IsTidy t.0 t.1 v.channels tidy))

  recording_start-IsTidy :
      is_blank msg.task_id ≡ false
      → Post (λ _ w. IsTidy w.channels) (recording_start_command answer msg) v
  recording_start-IsTidy k = elim (Bool-cases (is_blank msg.channel)) [
    | inl blank ↦
        Post-weaken (λ _ w. w ≡ v) (λ _ w e. IsTidy-after e tidy)
          (recording_start-unnamed answer msg v blank)
    | inr c ↦
        Post-weaken (λ _ w. RecordingStarted answer msg v w) (λ _ w. outcome c w)
          (recording_start-outcome answer msg v)
  ]
    where
      outcome :
          is_blank msg.channel ≡ false
          → (w : View) → RecordingStarted answer msg v w
          → IsTidy w.channels
      outcome c w (inl e) = IsTidy-after e tidy
      outcome c w (inr (inl e)) = IsTidy-after e (joined-IsTidy msg "record" v.channels c k tidy)
      outcome c w (inr (inr e)) = IsTidy-after e (
          with_completion-IsTidy _ _
            (released-IsTidy _ _ _ (joined-IsTidy msg "record" v.channels c k tidy)))

  recording_stop-IsTidy : Post (λ _ w. IsTidy w.channels) (recording_stop_command answer msg) v
  recording_stop-IsTidy =
      Post-weaken (λ _ w. RecordingStopped answer msg v w) (λ _ w. outcome w)
        (recording_stop-outcome answer msg v)
    where
      outcome : (w : View) → RecordingStopped answer msg v w → IsTidy w.channels
      outcome w (inl (_, e)) = IsTidy-after e tidy
      outcome w (inr (inl (t, found, blank, e))) = IsTidy-after e tidy
      outcome w (inr (inr (t, found, named, e))) =
          IsTidy-after e (with_completion-IsTidy _ _ (released-IsTidy t.0 t.1 v.channels tidy))

  stream_start-IsTidy : Post (λ _ w. IsTidy w.channels) (stream_start_command answer msg) v
  stream_start-IsTidy =
      elim (Bool-cases (is_blank msg.channel || (is_blank msg.task_id || has_stream v.channels))) [
        | inl refused ↦
            Post-weaken _ (λ _ w e. IsTidy-after e (with_completion-IsTidy _ _ tidy))
              (stream_start-refused answer msg v refused)
        | inr accepted ↦
            Post-weaken (λ _ w. StreamStarted answer msg v w)
              (λ _ w. outcome (ground arith) (ground arith) w) (stream_start-outcome answer msg v)
      ]
    where
      outcome :
          is_blank msg.channel ≡ false
          → is_blank msg.task_id ≡ false
          → (w : View) → StreamStarted answer msg v w
          → IsTidy w.channels
      outcome c k w (inl e) = IsTidy-after e (joined-IsTidy msg msg.cmd v.channels c k tidy)
      outcome c k w (inr (inl (_, e))) = IsTidy-after e (with_completion-IsTidy _ _ tidy)
      outcome c k w (inr (inr (_, e))) = IsTidy-after e (
          with_completion-IsTidy _ _
            (released-IsTidy _ _ _ (joined-IsTidy msg msg.cmd v.channels c k tidy)))

  stream_stop-IsTidy : Post (λ _ w. IsTidy w.channels) (stream_stop_command answer msg) v
  stream_stop-IsTidy =
      Post-weaken (λ _ w. StreamStopped answer msg v w) (λ _ w. outcome w)
        (stream_stop-outcome answer msg v)
    where
      outcome : (w : View) → StreamStopped answer msg v w → IsTidy w.channels
      outcome w (inl (_, e)) = IsTidy-after e tidy
      outcome w (inr (t, r, found, _, e)) =
          IsTidy-after e (with_completion-IsTidy r _ (released-IsTidy t.0 t.1 v.channels tidy))

  streaming-IsTidy : Post (λ _ w. IsTidy w.channels) (handle_streaming answer msg.action msg) v
  unfolding handle_streaming refuse_stream
  streaming-IsTidy =
      Post-branch _ (λ _. stream_start-IsTidy)
        λ _.
          Post-branch _ (λ _. stream_stop-IsTidy)
            λ _.
              Post-branch _ (λ _. Post-then (Post-perform answer _ refl λ _. Post-done tidy))
                (λ _. Post-send answer _ _ _ _ (with_completion-IsTidy _ _ tidy))

  pub message-IsTidy : HasTaskId msg → Post (λ _ w. IsTidy w.channels) (handle_message answer msg) v
  unfolding handle_message handle_snapshot handle_recording
  message-IsTidy k =
      Post-branch _
        (λ _.
          Post-branch _ (λ _. Post-done tidy)
            (λ c.
              Post-branch _ (λ s. snapshot_start-IsTidy c (k s))
                (λ _. Post-branch _ (λ _. snapshot_stop-IsTidy) (λ _. Post-done tidy))))
        λ _.
          Post-branch _
            (λ _.
              Post-branch _ (λ s. recording_start-IsTidy (k s))
                (λ _. Post-branch _ (λ _. recording_stop-IsTidy) (λ _. Post-done tidy)))
            λ _.
              Post-branch _ (λ _. streaming-IsTidy)
                λ _. Post-branch _ (λ _. streaming-IsTidy) (λ _. Post-done tidy)

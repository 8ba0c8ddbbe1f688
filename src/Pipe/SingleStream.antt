-- ===== src/Pipe/SingleStream.antt =====
-- Every event keeps the number of streaming tasks of src/task_pipe.cpp at one or none.
use rtc_egress.Prelude.{
  ◌≤◌, String, List, ◌≡◌, refl, sym, arith, Bool, false, inl, inr, Bool-cases, ◌||◌, subst,
}
use rtc_egress.Uds.{UdsMessage, UdsCompletionMessage}
use rtc_egress.Pipe.Defs.{Call, is_blank}
use rtc_egress.Pipe.Snapshot.{handle_snapshot}
use rtc_egress.Pipe.Recording.{handle_recording}
use rtc_egress.Pipe.Stream.{stream_start_command, handle_streaming, has_stream, refuse_stream}
use rtc_egress.Pipe.Events.{handle_message}
use rtc_egress.Pipe.Entries.{released}
use rtc_egress.Pipe.View.{
  View, Post, Post-weaken, Post-branch, Post-done, Post-then, Post-perform, Post-send,
  with_completion,
}
use rtc_egress.Pipe.Starts.{
  SnapshotStarted, snapshot_start-outcome, RecordingStarted, recording_start-outcome, StreamStarted,
  stream_start-outcome, stream_start-refused, joined,
}
use rtc_egress.Pipe.Stops.{
  SnapshotStopped, snapshot_stop-outcome, RecordingStopped, recording_stop-outcome, StreamStopped,
  stream_stop-outcome,
}
use rtc_egress.Pipe.Exclusive.{
  streams, streams-released, streams-joined, streams_none, type_weight, streams-removed,
}

-- No more streaming tasks than in a given view.
abbrev NoMore : View → View → Type 0
NoMore v w = streams w.channels ≤ streams v.channels

no_more : {w u : View} (v : View) → w ≡ u → NoMore v u → NoMore v w
no_more v e h = subst (NoMore v) (sym e) h

sending-NoMore :
    (r : UdsCompletionMessage) (v u : View) → NoMore v u → NoMore v (with_completion r u)
sending-NoMore r v u h = ground arith

module _ (answer : List Call → Call → Bool) (msg : UdsMessage) (v : View) where
  rejoined_no_more :
      (t : String)
      → type_weight t ≡ 0
      → streams (released msg.channel msg.task_id (joined msg t v.channels)) ≤ streams v.channels
  rejoined_no_more t h = omega (
    arith,
    streams-released msg.channel msg.task_id (joined msg t v.channels),
    streams-joined msg t v.channels,
  )

  joined_no_more :
      (t : String) → type_weight t ≡ 0 → streams (joined msg t v.channels) ≤ streams v.channels
  joined_no_more t h = omega (arith, streams-joined msg t v.channels)

  snapshot-NoMore :
      (action : String) → Post (λ _ w. NoMore v w) (handle_snapshot answer action msg) v
  unfolding handle_snapshot
  snapshot-NoMore action =
      Post-branch _ (λ _. Post-done same)
        λ _.
          Post-branch _
            (λ _.
              Post-weaken (λ _ w. SnapshotStarted answer msg v w) (λ _ w. started w)
                (snapshot_start-outcome answer msg v))
            λ _.
              Post-branch _
                (λ _.
                  Post-weaken (λ _ w. SnapshotStopped answer msg v w) (λ _ w. stopped_so w)
                    (snapshot_stop-outcome answer msg v))
                (λ _. Post-done same)
    where
      same : NoMore v v
      same = omega arith

      started : (w : View) → SnapshotStarted answer msg v w → NoMore v w
      started w (inl e) = no_more v e same
      started w (inr (inl e)) = no_more v e (joined_no_more "snapshot" refl)
      started w (inr (inr e)) = no_more v e (rejoined_no_more "snapshot" refl)

      stopped_so : (w : View) → SnapshotStopped answer msg v w → NoMore v w
      stopped_so w (inl (_, e)) = no_more v e same
      stopped_so w (inr (inl (t, _, _, e))) = no_more v e (streams-removed t.0 t.1 v.channels)
      stopped_so w (inr (inr (t, _, _, e))) =
          no_more v e (sending-NoMore _ v _ (streams-released t.0 t.1 v.channels))

  recording-NoMore :
      (action : String) → Post (λ _ w. NoMore v w) (handle_recording answer action msg) v
  unfolding handle_recording
  recording-NoMore action =
      Post-branch _
        (λ _.
          Post-weaken (λ _ w. RecordingStarted answer msg v w) (λ _ w. started w)
            (recording_start-outcome answer msg v))
        λ _.
          Post-branch _
            (λ _.
              Post-weaken (λ _ w. RecordingStopped answer msg v w) (λ _ w. stopped_so w)
                (recording_stop-outcome answer msg v))
            (λ _. Post-done same)
    where
      same : NoMore v v
      same = omega arith

      started : (w : View) → RecordingStarted answer msg v w → NoMore v w
      started w (inl e) = no_more v e same
      started w (inr (inl e)) = no_more v e (joined_no_more "record" refl)
      started w (inr (inr e)) = no_more v e (sending-NoMore _ v _ (rejoined_no_more "record" refl))

      stopped_so : (w : View) → RecordingStopped answer msg v w → NoMore v w
      stopped_so w (inl (_, e)) = no_more v e same
      stopped_so w (inr (inl (t, _, _, e))) = no_more v e same
      stopped_so w (inr (inr (t, _, _, e))) =
          no_more v e (sending-NoMore _ v _ (streams-released t.0 t.1 v.channels))

  -- A stream is added where there was none.
  abbrev pub AtMostOne : View → Type 0
  AtMostOne w = streams v.channels ≤ 1 → streams w.channels ≤ 1

  weight_le_one : (t : String) → type_weight t ≤ 1
  weight_le_one t = ground arith

  streaming-AtMostOne :
      (action : String) → Post (λ _ w. AtMostOne w) (handle_streaming answer action msg) v
  unfolding handle_streaming refuse_stream
  streaming-AtMostOne action =
      Post-branch _ (λ _. start)
        λ _.
          Post-branch _
            (λ _.
              Post-weaken (λ _ w. StreamStopped answer msg v w) (λ _ w. ended w)
                (stream_stop-outcome answer msg v))
            λ _.
              Post-branch _ (λ _. Post-then (Post-perform answer _ refl λ _. Post-done (λ h. h)))
                (λ _. Post-send answer _ _ _ _ (λ h. ground arith))
    where
      ended : (w : View) → StreamStopped answer msg v w → AtMostOne w
      ended w (inl (_, e)) h = subst (λ u. streams u.channels ≤ 1) (sym e) h
      ended w (inr (t, r, _, _, e)) h =
          subst (λ u. streams u.channels ≤ 1) (sym e)
            (ground (arith, streams-released t.0 t.1 v.channels))

      begun :
          has_stream v.channels ≡ false → (w : View) → StreamStarted answer msg v w → AtMostOne w
      begun idle w (inl e) h =
          subst (λ u. streams u.channels ≤ 1) (sym e)
            (omega (
              arith,
              streams-joined msg msg.cmd v.channels,
              weight_le_one msg.cmd,
              streams_none v.channels idle,
            ))
      begun idle w (inr (inl (x, e))) h = subst (λ u. streams u.channels ≤ 1) (sym e) (ground arith)
      begun idle w (inr (inr (x, e))) h =
          subst (λ u. streams u.channels ≤ 1) (sym e)
            (ground (
              arith,
              streams-released msg.channel msg.task_id (joined msg msg.cmd v.channels),
              streams-joined msg msg.cmd v.channels,
              weight_le_one msg.cmd,
              streams_none v.channels idle,
            ))

      start : Post (λ _ w. AtMostOne w) (stream_start_command answer msg) v
      start =
          elim (Bool-cases
            (is_blank msg.channel || (is_blank msg.task_id || has_stream v.channels))) [
              | inl refused ↦
                  Post-weaken _
                    (λ _ w e h. subst (λ u. streams u.channels ≤ 1) (sym e) (ground arith))
                    (stream_start-refused answer msg v refused)
              | inr accepted ↦
                  Post-weaken (λ _ w. StreamStarted answer msg v w) (λ _ w. begun (ground arith) w)
                    (stream_start-outcome answer msg v)
            ]

  pub message-AtMostOne : Post (λ _ w. AtMostOne w) (handle_message answer msg) v
  unfolding handle_message
  message-AtMostOne =
      Post-branch _
        (λ _. Post-weaken (λ _ w. NoMore v w) (λ _ w. at_most w) (snapshot-NoMore msg.action))
        λ _.
          Post-branch _
            (λ _. Post-weaken (λ _ w. NoMore v w) (λ _ w. at_most w) (recording-NoMore msg.action))
            λ _.
              Post-branch _ (λ _. streaming-AtMostOne msg.action)
                λ _. Post-branch _ (λ _. streaming-AtMostOne msg.action) (λ _. Post-done (λ h. h))
    where
      at_most : (w : View) → NoMore v w → AtMostOne w
      at_most w h k = omega arith

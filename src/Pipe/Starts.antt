-- ===== src/Pipe/Starts.antt =====
-- How each start command of src/task_pipe.cpp can end: the channel map and the completions it leaves.
use rtc_egress.Prelude.{String, List, ◌≡◌, refl, Bool, true, false, not, Dict, inl, inr, ◌⊎◌, ◌||◌}
use rtc_egress.Uds.{UdsMessage, UdsCompletionMessage}
use rtc_egress.Pipe.Defs.{Call, ChannelState, add_task, is_blank, when, ◌>>◌, send_completion}
use rtc_egress.Pipe.Connection.{release_connection}
use rtc_egress.Pipe.Snapshot.{snapshot_start_command, start_capture}
use rtc_egress.Pipe.Recording.{recording_start_command, start_recording}
use rtc_egress.Pipe.Stream.{stream_start_command, refuse_stream, publish, open_stream, has_stream}
use rtc_egress.Pipe.Entries.{released, reached}
use rtc_egress.Pipe.View.{
  View, Post, Post-bind, Post-then, Post-pure, Post-branch, Post-gets, Post-gets_channels,
  Post-done, Post-when, Post-write, Post-quiet, Post-perform, Post-when_call, with_completion,
  Post-send, Post-release_connection, Post-ensure_connected,
}

-- The map with a new task, in a channel that was connected before or is now.
abbrev pub joined : UdsMessage → String → Dict ChannelState → Dict ChannelState
joined msg type m = add_task msg.channel msg.task_id type (reached msg.channel m)

abbrev pub with_channels : View → Dict ChannelState → View
with_channels v m = record v { channels = m }

abbrev pub failure : String → String → UdsCompletionMessage
failure task error = record { task_id = task; status = "failed"; error = error; message = "" }

abbrev pub success : String → String → UdsCompletionMessage
success task text = record { task_id = task; status = "success"; error = ""; message = text }

-- The map with the new task taken out again.
abbrev pub rejoined : UdsMessage → String → Dict ChannelState → Dict ChannelState
rejoined msg type m = released msg.channel msg.task_id (joined msg type m)

module _ (answer : List Call → Call → Bool) (msg : UdsMessage) (v : View) where
  abbrev pub SnapshotStarted : View → Type 0
  SnapshotStarted w =
      (w ≡ v)
      ⊎ (w ≡ with_channels v (joined msg "snapshot" v.channels))
      ⊎ (w ≡ with_channels v (rejoined msg "snapshot" v.channels))

  pub snapshot_start-outcome : Post (λ _ w. SnapshotStarted w) (snapshot_start_command answer msg) v
  unfolding snapshot_start_command start_capture
  snapshot_start-outcome = Post-bind (
      Post-ensure_connected answer msg.channel msg.access_token
        (Post-when _
          (λ _. Post-then (
            Post-quiet _ (λ p. refl)
              (Post-then (
                Post-write (add_task msg.channel msg.task_id "snapshot") (
                  Post-then (
                    Post-when_call answer _ _ refl (
                      Post-bind (
                        Post-gets _ λ p _.
                          Post-when _
                            (λ _. Post-bind (
                              Post-perform answer _ refl
                                λ capturing. Post-when _ (λ _. capture) (λ _. inr (inl refl))))
                            (λ _. inr (inl refl))))))))))
          (λ f. cc))
        (Post-when _ (λ t. cc) (λ _. inl refl)))
    where
      capture :
          Post
            (λ _ w. SnapshotStarted w)
            (start_capture answer msg)
            (with_channels v (joined msg "snapshot" v.channels))
      capture = Post-bind (
          Post-gets _ λ p _. Post-bind (
            Post-perform answer _ refl λ ready. Post-bind (
              Post-branch ready (λ _. Post-perform answer _ refl λ started. finished started)
                (λ _. Post-pure false (finished false)))))
        where
          finished :
              (started : Bool)
              → Post
                  (λ _ w. SnapshotStarted w)
                  (when (not started) (release_connection answer msg.channel msg.task_id))
                  (with_channels v (joined msg "snapshot" v.channels))
          finished started =
              Post-when _
                (λ _. Post-release_connection answer msg.channel msg.task_id (inr (inr refl)))
                (λ _. inr (inl refl))

  abbrev pub RecordingStarted : View → Type 0
  RecordingStarted w =
      (w ≡ v)
      ⊎ (w ≡ with_channels v (joined msg "record" v.channels))
      ⊎ (w
          ≡ with_completion (failure msg.task_id "Failed to start recording sink")
              (with_channels v (rejoined msg "record" v.channels)))

  pub recording_start-outcome :
      Post (λ _ w. RecordingStarted w) (recording_start_command answer msg) v
  unfolding recording_start_command start_recording
  recording_start-outcome =
      Post-branch _ (λ _. Post-done (inl refl))
        λ _. Post-then (
          Post-quiet _ (λ p. refl)
            (Post-then (
              Post-perform answer _ refl λ _. Post-bind (
                Post-ensure_connected answer msg.channel msg.access_token
                  (Post-when _
                    (λ _. Post-bind (
                      Post-gets _ λ p _. Post-then (
                        Post-write (add_task msg.channel msg.task_id "record") (
                          Post-bind (
                            Post-gets _
                              λ p _. Post-when _ (λ _. record_sink) (λ _. inr (inl refl)))))))
                    (λ f. cc))
                  (Post-when _ (λ t. cc) (λ _. inl refl))))))
    where
      finished :
          (started : Bool)
          → Post
              (λ _ w. RecordingStarted w)
              (when (not started) (do
                release_connection answer msg.channel msg.task_id
                send_completion answer msg.task_id "failed" "Failed to start recording sink" ""))
              (with_channels v (joined msg "record" v.channels))
      finished started =
          Post-when _
            (λ _. Post-then (
              Post-release_connection answer msg.channel msg.task_id
                (Post-send answer _ _ _ _ (inr (inr refl)))))
            (λ _. inr (inl refl))

      record_sink :
          Post
            (λ _ w. RecordingStarted w)
            (start_recording answer msg)
            (with_channels v (joined msg "record" v.channels))
      record_sink = Post-then (
          Post-perform answer _ refl λ _. Post-bind (
            Post-gets _ λ p _. Post-bind (
              Post-perform answer _ refl λ ready. Post-bind (
                Post-branch ready (λ _. Post-perform answer _ refl λ started. finished started)
                  (λ _. Post-pure false (finished false))))))

  -- A start of a stream registers its task and sends nothing, or sends one failure and leaves the
  -- map as it was, up to the registration taken back.
  abbrev pub StreamStarted : View → Type 0
  StreamStarted w =
      (w ≡ with_channels v (joined msg msg.cmd v.channels))
      ⊎ ((error : String) × (w ≡ with_completion (failure msg.task_id error) v))
      ⊎ ((error : String) × (w
            ≡ with_completion (failure msg.task_id error)
                (with_channels v (rejoined msg msg.cmd v.channels))))

  refuse_stream-outcome :
      (error : String) → Post (λ _ w. StreamStarted w) (refuse_stream answer msg error) v
  unfolding refuse_stream
  refuse_stream-outcome error = Post-send answer _ _ _ _ (inr (inl (error, refl)))

  publish-outcome :
      Post
        (λ _ w. StreamStarted w)
        (publish answer msg)
        (with_channels v (reached msg.channel v.channels))
  unfolding publish refuse_stream
  publish-outcome = Post-then (
      Post-write (add_task msg.channel msg.task_id msg.cmd) (
        Post-bind (
          Post-perform answer _ refl λ started.
            Post-when _
              (λ _. Post-then (
                Post-release_connection answer msg.channel msg.task_id
                  (Post-send answer _ _ _ _ (inr (inr (_, refl))))))
              (λ _. inl refl))))

  pub stream_start-outcome : Post (λ _ w. StreamStarted w) (stream_start_command answer msg) v
  unfolding stream_start_command open_stream
  stream_start-outcome = Post-bind (
      Post-gets _ λ p _.
        Post-branch _ (λ _. refuse_stream-outcome _)
          λ _. Post-then (
            Post-perform answer _ refl λ _. Post-then (
              Post-perform answer _ refl λ _. Post-then (
                Post-perform answer _ refl λ _. Post-bind (
                  Post-perform answer _ refl λ valid.
                    Post-branch valid (λ _. connection)
                      (λ _.
                        Post-then (Post-perform answer _ refl λ _. refuse_stream-outcome _)))))))
    where
      connection : Post (λ _ w. StreamStarted w) (open_stream answer msg) v
      connection = Post-bind (
          Post-ensure_connected answer msg.channel msg.access_token
            (Post-branch _ (λ _. publish-outcome) (λ f. cc))
            (Post-branch _ (λ t. cc)
              (λ _. Post-then (Post-perform answer _ refl λ _. refuse_stream-outcome _))))

  -- The guards at the head.
  pub recording_start-unnamed :
      is_blank msg.channel ≡ true → Post (λ _ w. w ≡ v) (recording_start_command answer msg) v
  unfolding recording_start_command
  recording_start-unnamed h = Post-branch _ (λ _. Post-done refl) (λ f. cc)

  pub stream_start-refused :
      (is_blank msg.channel || (is_blank msg.task_id || has_stream v.channels)) ≡ true
      → Post
          (λ _ w.
            w
            ≡ with_completion
                (failure msg.task_id "Streaming requires an idle sink and a channel")
                v)
          (stream_start_command answer msg)
          v
  unfolding stream_start_command refuse_stream
  stream_start-refused h =
      Post-bind (
        Post-gets_channels has_stream
          (Post-branch _ (λ _. Post-send answer _ _ _ _ refl) (λ f. cc)))

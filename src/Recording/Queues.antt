-- ===== src/Recording/Queues.antt =====
-- What a sink's queue keeps, and the rest of its small promises.
use rtc_egress.Prelude.{
  ℕ, suc, ◌-◌, ◌≤◌, List, [], ◌∷◌, ◌++◌, append_assoc, append-nil, true, false, ◌&&◌, leb,
  if◌then◌else◌, length, length-append, length-drop, drop, ◌≡◌, refl, ◌∙◌, sym, ap, subst, arith,
  Bool-cases, inl, inr,
}
use rtc_egress.Recording.Sink.{
  make_room, push_frame, VideoInput, Sink, recording, should_record_user, on_video_frame,
}

module _ {A : Type 0} where
  -- The last n of a list.
  abbrev pub latest : ℕ → List A → List A
  latest n xs = drop (length xs - n) xs

  latest_cons : (n : ℕ) (x : A) (xs : List A) → n ≤ length xs → latest n (x ∷ xs) ≡ latest n xs
  latest_cons n x xs h =
      let e : suc (length xs) - n ≡ suc (length xs - n) = omega arith in rw e refl

  latest_short : (n : ℕ) (xs : List A) → length xs ≤ n → latest n xs ≡ xs
  latest_short n xs h = let e : length xs - n ≡ 0 = omega arith in rw e refl

  make_room_lem : (limit : ℕ) (queue : List A) → make_room (suc limit) queue ≡ latest limit queue
  unfolding make_room
  make_room_lem limit [] = sym (latest_short limit [] (omega arith))
  make_room_lem limit (f ∷ fs) = elim (Bool-cases (leb (suc limit) (length (f ∷ fs)))) [
    | inl full ↦ rw full (make_room_lem limit fs ∙ sym (latest_cons limit f fs (ground arith)))
    | inr room ↦ rw room (sym (latest_short limit (f ∷ fs) (ground arith)))
  ]

  latest-append : (n : ℕ) (xs ys : List A) → latest n (latest n xs ++ ys) ≡ latest n (xs ++ ys)
  latest-append n [] ys = ap (λ zs. latest n (zs ++ ys)) (latest_short n [] (omega arith))
  latest-append n (x ∷ xs) ys = elim (Bool-cases (leb n (length xs))) [
    | inl long ↦
        ap (λ zs. latest n (zs ++ ys)) (latest_cons n x xs (ground arith))
        ∙ latest-append n xs ys
        ∙ sym (latest_cons n x (xs ++ ys) (ground (arith, length-append xs ys)))
    | inr short ↦ ap (λ zs. latest n (zs ++ ys)) (latest_short n (x ∷ xs) (ground arith))
  ]

  latest-snoc :
      (n : ℕ) (xs : List A) (x : A) → latest n xs ++ (x ∷ []) ≡ latest (suc n) (xs ++ (x ∷ []))
  latest-snoc n [] x =
      ap (λ zs. zs ++ (x ∷ [])) (latest_short n [] (omega arith))
      ∙ sym (latest_short (suc n) (x ∷ []) (omega arith))
  latest-snoc n (y ∷ xs) x = elim (Bool-cases (leb n (length xs))) [
    | inl long ↦
        ap (λ zs. zs ++ (x ∷ [])) (latest_cons n y xs (ground arith))
        ∙ latest-snoc n xs x
        ∙ sym (latest_cons (suc n) y (xs ++ (x ∷ [])) (ground (arith, length-append xs (x ∷ []))))
    | inr short ↦
        ap (λ zs. zs ++ (x ∷ [])) (latest_short n (y ∷ xs) (ground arith))
        ∙ sym (
            latest_short (suc n) (y ∷ (xs ++ (x ∷ []))) (ground (arith, length-append xs (x ∷ []))))
  ]

  push_frame_lem :
      (limit : ℕ) (f : A) (queue : List A)
      → push_frame (suc limit) f queue ≡ latest (suc limit) (queue ++ (f ∷ []))
  unfolding push_frame
  push_frame_lem limit f queue =
      ap (λ q. q ++ (f ∷ [])) (make_room_lem limit queue) ∙ latest-snoc limit queue f

  -- A frame more, and then the rest.
  latest-push_frame :
      (limit : ℕ) (f : A) (queue rest : List A)
      → latest (suc limit) (push_frame (suc limit) f queue ++ rest)
        ≡ latest (suc limit) (queue ++ (f ∷ rest))
  latest-push_frame limit f queue rest =
      ap (λ q. latest (suc limit) (q ++ rest)) (push_frame_lem limit f queue)
      ∙ latest-append (suc limit) (queue ++ (f ∷ [])) rest
      ∙ ap (latest (suc limit)) (append_assoc queue (f ∷ []) rest)

  length-latest : (n : ℕ) (xs : List A) → length (latest n xs) ≤ n
  length-latest n xs = omega (arith, length-drop (length xs - n) xs)

-- Frames that arrive one after the other, before the worker takes any.
unfoldable pub on_video_frames : List VideoInput → Sink → Sink
on_video_frames [] s = s
on_video_frames (f ∷ fs) s = on_video_frames fs (on_video_frame f s)

-- The frames that a sink takes.
unfoldable pub taken_video : Sink → List VideoInput → List VideoInput
taken_video s [] = []
taken_video s (f ∷ fs) =
    if should_record_user s f.user && f.is_valid then f ∷ taken_video s fs else taken_video s fs

-- taken_video reads the users only.
taken_video-queue :
    (s : Sink) (queue : List VideoInput) (fs : List VideoInput)
    → taken_video (record s { video_frame_queue = queue }) fs ≡ taken_video s fs
unfolding taken_video should_record_user
taken_video-queue s queue [] = refl
taken_video-queue s queue (f ∷ fs) = rw (taken_video-queue s queue fs) refl

on_video_frame-takes :
    (f : VideoInput) (s : Sink)
    → recording s ≡ true
    → s.record_video ≡ true
    → (should_record_user s f.user && f.is_valid) ≡ true
    → on_video_frame f s
      ≡ record s { video_frame_queue = push_frame s.video_buffer_size f s.video_frame_queue }
unfolding on_video_frame
on_video_frame-takes f s on video takes =
    let test : (recording s && should_record_user s f.user && f.is_valid && s.record_video) ≡ true =
      ground arith in
    rw test refl

on_video_frame-skips :
    (f : VideoInput) (s : Sink)
    → (should_record_user s f.user && f.is_valid) ≡ false
    → on_video_frame f s ≡ s
unfolding on_video_frame
on_video_frame-skips f s skips =
    let test : (recording s && should_record_user s f.user && f.is_valid && s.record_video)
        ≡ false =
      ground arith in
    rw test refl

-- For a sink that records video, with a buffer size that is not zero and no more frames waiting than it
-- says: frames that arrive one after the other leave the latest of all, those that waited and those that
-- the filter lets pass with planes in order, in the order of arrival, as many as the buffer size.
pub on_video_frames_lem :
    (limit : ℕ) (fs : List VideoInput) (s : Sink)
    → recording s ≡ true
    → s.record_video ≡ true
    → s.video_buffer_size ≡ suc limit
    → length s.video_frame_queue ≤ suc limit
    → (on_video_frames fs s).video_frame_queue
      ≡ latest (suc limit) (s.video_frame_queue ++ taken_video s fs)
unfolding on_video_frames taken_video
on_video_frames_lem limit [] s on video size fits = sym (
    ap (latest (suc limit)) (append-nil s.video_frame_queue)
    ∙ latest_short (suc limit) s.video_frame_queue fits)
on_video_frames_lem limit (f ∷ fs) s on video size fits =
    elim (Bool-cases (should_record_user s f.user && f.is_valid)) [
      | inl takes ↦
          let queue = push_frame s.video_buffer_size f s.video_frame_queue in
          let t : Sink = record s { video_frame_queue = queue } in
          let at_limit : queue ≡ push_frame (suc limit) f s.video_frame_queue =
            ap (λ n. push_frame n f s.video_frame_queue) size in
          let short : length queue ≤ suc limit =
            subst (λ q. length q ≤ suc limit)
              (sym (at_limit ∙ push_frame_lem limit f s.video_frame_queue))
              (length-latest (suc limit) (s.video_frame_queue ++ (f ∷ []))) in
          rw takes (
            ap (λ after. (on_video_frames fs after).video_frame_queue)
              (on_video_frame-takes f s on video takes)
            ∙ on_video_frames_lem limit fs t on video size short
            ∙ ap (λ taken. latest (suc limit) (queue ++ taken)) (taken_video-queue s queue fs)
            ∙ ap (λ q. latest (suc limit) (q ++ taken_video s fs)) at_limit
            ∙ latest-push_frame limit f s.video_frame_queue (taken_video s fs))
      | inr skips ↦ rw skips (
          ap (λ after. (on_video_frames fs after).video_frame_queue)
            (on_video_frame-skips f s skips)
          ∙ on_video_frames_lem limit fs s on video size fits)
    ]

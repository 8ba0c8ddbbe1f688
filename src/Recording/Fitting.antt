-- ===== src/Recording/Fitting.antt =====
-- The time stamps of src/recording_sink.cpp stay in int64_t.
use rtc_egress.Prelude.{
  pos_part, length, ap, ℕ, ◌+◌, ◌-◌, ◌*◌, ◌/◌, ◌≤◌, ◌<◌, List, [], ◌∷◌, Bool, true, false, ℤ, pos,
  ◌+ℤ◌, arith, All,
}
use rtc_egress.Recording.Timing.{
  Timing, Setup, ensure_monotonic_pts, calculate_video_pts, calculate_audio_pts,
  update_stream_state, stamp, stamps,
}
use rtc_egress.Recording.Stamping.{
  relative_lem, video_stamp, audio_stamp, IsSince, Advances, FitsInt64, restart_never, Ready,
  seen-Ready, initialize-begun, GoodVideo, GoodAudio,
}

-- No stamp is above the ticks of 2 ^ 55 ms and a second for each frame so far.
below_bound :
    (rel increment bound : ℕ) (last : ℤ)
    → rel * 90 ≤ bound
    → pos_part last ≤ bound
    → increment ≤ 90000
    → pos_part (ensure_monotonic_pts (pos (rel * 90)) last increment) ≤ bound + 90000
unfolding ensure_monotonic_pts ◌+ℤ◌
below_bound rel increment bound last r h k = ground arith

pub record IsBelow (bound : ℕ) (t : Timing) : Type 0 where
  pub long : 3242591731706757120 ≤ bound
  pub video : pos_part t.last_video_pts ≤ bound
  pub audio : pos_part t.last_audio_pts ≤ bound

module _ (c : Setup) (fast : Advances c) (origin ts bound : ℕ)
    (since : IsSince origin (true, ts)) where
  video_below :
      (t : Timing)
      → Ready origin t
      → IsBelow bound t
      → pos_part (calculate_video_pts c ts t).0 ≤ bound + 90000
  unfolding calculate_video_pts
  video_below t r b =
      rw (initialize-begun ts t r.begun, relative_lem c fast origin ts since t r.first)
        (below_bound (ts - origin) (90000 / c.video_fps) bound t.last_video_pts
          (omega (arith, since.0, since.1, b.long)) b.video fast.2)

  audio_below :
      (t : Timing)
      → Ready origin t
      → IsBelow bound t
      → pos_part (calculate_audio_pts c ts t).0 ≤ bound + 90000
  unfolding calculate_audio_pts
  audio_below t r b =
      rw (initialize-begun ts t r.begun, relative_lem c fast origin ts since t r.first)
        (below_bound (ts - origin) (c.frame_size * 90000 / c.sample_rate) bound t.last_audio_pts
          (omega (arith, since.0, since.1, b.long)) b.audio fast.3)

seen-IsBelow :
    (bound ts : ℕ) (is_video : Bool) (t : Timing)
    → IsBelow bound t
    → IsBelow bound (update_stream_state is_video ts t)
unfolding update_stream_state
seen-IsBelow bound ts true t b = record { long = b.long; video = b.video; audio = b.audio }
seen-IsBelow bound ts false t b = record { long = b.long; video = b.video; audio = b.audio }

pub stamps-FitsInt64 :
    (c : Setup) (origin bound : ℕ) (frames : List (Bool × ℕ)) (t : Timing)
    → Advances c
    → All (IsSince origin) frames
    → bound + 90000 * length frames < 9223372036854775808
    → Ready origin t
    → IsBelow bound t
    → All FitsInt64 (stamps c frames t)
unfolding stamps stamp GoodVideo GoodAudio
stamps-FitsInt64 c origin bound [] t fast since few r b = tt
stamps-FitsInt64 c origin bound ((true, ts) ∷ frames) t fast since few r b =
    let seen = update_stream_state true ts t in
    let ready = seen-Ready origin ts true t r in
    let below = seen-IsBelow bound ts true t b in
    let s = video_stamp c fast origin ts since.0 seen ready in
    let p = video_below c fast origin ts bound since.0 seen ready below in
    let made = calculate_video_pts c ts seen in
    let next : IsBelow (bound + 90000) made.1 = record {
      long = omega (arith, b.long);
      video = omega (arith, p, ap pos_part s.2);
      audio = omega (arith, below.audio, ap pos_part s.3);
    } in
    rw (restart_never true ts t) (
      omega (arith, p, few),
      stamps-FitsInt64 c origin (bound + 90000) frames made.1 fast since.1 (omega (arith, few)) s.1
          next,
    )
stamps-FitsInt64 c origin bound ((false, ts) ∷ frames) t fast since few r b =
    let seen = update_stream_state false ts t in
    let ready = seen-Ready origin ts false t r in
    let below = seen-IsBelow bound ts false t b in
    let s = audio_stamp c fast origin ts since.0 seen ready in
    let p = audio_below c fast origin ts bound since.0 seen ready below in
    let made = calculate_audio_pts c ts seen in
    let next : IsBelow (bound + 90000) made.1 = record {
      long = omega (arith, b.long);
      video = omega (arith, below.video, ap pos_part s.3);
      audio = omega (arith, p, ap pos_part s.2);
    } in
    rw (restart_never false ts t) (
      omega (arith, p, few),
      stamps-FitsInt64 c origin (bound + 90000) frames made.1 fast since.1 (omega (arith, few)) s.1
          next,
    )

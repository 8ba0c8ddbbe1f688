-- ===== src/Recording/Increasing.antt =====
-- The order of a context's time stamps.
use rtc_egress.Prelude.{
  length, ℕ, ◌<◌, List, [], ◌∷◌, Bool, true, false, ℤ, negsuc, ltb_ℤ, ◌≡◌, refl, subst, arith, All,
}
use rtc_egress.Recording.Timing.{
  Timing, Setup, new_timing, initialize_rtc_time_origin, calculate_video_pts, calculate_audio_pts,
  update_stream_state, detect_stream_restart, stamp, stamps,
}
use rtc_egress.Recording.Stamping.{
  video_stamp, audio_stamp, IsSince, Advances, FitsInt64, restart_never, Ready, seen-Ready,
  GoodVideo, GoodAudio,
}
use rtc_egress.Recording.Fitting.{IsBelow, stamps-FitsInt64}

-- Each stamp is above the one before it of its stream.
unfoldable pub AreIncreasing : ℤ → ℤ → List (Bool × ℤ) → Type 0
AreIncreasing video audio [] = Unit
AreIncreasing video audio ((true, p) ∷ rest) = (ltb_ℤ video p ≡ true) × AreIncreasing p audio rest
AreIncreasing video audio ((false, p) ∷ rest) = (ltb_ℤ audio p ≡ true) × AreIncreasing video p rest

stamps-Ready :
    (c : Setup) (origin : ℕ) (frames : List (Bool × ℕ)) (t : Timing)
    → Advances c
    → All (IsSince origin) frames
    → Ready origin t
    → AreIncreasing t.last_video_pts t.last_audio_pts (stamps c frames t)
unfolding stamps stamp AreIncreasing GoodVideo GoodAudio update_stream_state
stamps-Ready c origin [] t fast since r = tt
stamps-Ready c origin ((true, ts) ∷ frames) t fast since r =
    let seen = update_stream_state true ts t in
    let s = video_stamp c fast origin ts since.0 seen (seen-Ready origin ts true t r) in
    let made = calculate_video_pts c ts seen in
    let ih = stamps-Ready c origin frames made.1 fast since.1 s.1 in
    rw (restart_never true ts t) (
      s.0,
      subst (λ a. AreIncreasing made.0 a (stamps c frames made.1)) s.3
          (subst (λ v. AreIncreasing v made.1.last_audio_pts (stamps c frames made.1)) s.2 ih),
    )
stamps-Ready c origin ((false, ts) ∷ frames) t fast since r =
    let seen = update_stream_state false ts t in
    let s = audio_stamp c fast origin ts since.0 seen (seen-Ready origin ts false t r) in
    let made = calculate_audio_pts c ts seen in
    let ih = stamps-Ready c origin frames made.1 fast since.1 s.1 in
    rw (restart_never false ts t) (
      s.0,
      subst (λ v. AreIncreasing v made.0 (stamps c frames made.1)) s.3
          (subst (λ a. AreIncreasing made.1.last_video_pts a (stamps c frames made.1)) s.2 ih),
    )

-- The first frame of all sets the origin.
stamp-first :
    (c : Setup) (is_video : Bool) (ts : ℕ)
    → stamp c is_video ts new_timing
      ≡ stamp c is_video ts (initialize_rtc_time_origin ts new_timing)
unfolding stamp update_stream_state calculate_video_pts calculate_audio_pts
    initialize_rtc_time_origin
stamp-first c true ts =
    rw
      (
        restart_never true ts new_timing,
        restart_never true ts (initialize_rtc_time_origin ts new_timing),
      )
      refl
stamp-first c false ts =
    rw
      (
        restart_never false ts new_timing,
        restart_never false ts (initialize_rtc_time_origin ts new_timing),
      )
      refl

begun-Ready : (ts : ℕ) → Ready ts (initialize_rtc_time_origin ts new_timing)
unfolding initialize_rtc_time_origin
begun-Ready ts = record { begun = refl; first = refl; video = omega arith; audio = omega arith }

begun-IsBelow : (ts : ℕ) → IsBelow 3242591731706757120 (initialize_rtc_time_origin ts new_timing)
unfolding initialize_rtc_time_origin
begun-IsBelow ts = record { long = omega arith; video = omega arith; audio = omega arith }

-- The stamps of a new context's frames, video and audio in any order, less than 2 ^ 40 of them, none older
-- than the first one and each younger by less than 2 ^ 55 ms, where a frame takes a tick at least and a
-- second at most: no stamp, and so no product or sum that it is made of, leaves int64_t; each is
-- above the one before it of its stream, the first above -1. This holds across any jump of the clock,
-- since a restart of the stream is never detected: the detection compares a frame with itself.
pub stamps-AreIncreasing :
    (c : Setup) (first : Bool × ℕ) (frames : List (Bool × ℕ))
    → Advances c
    → All (IsSince first.1) (first ∷ frames)
    → length (first ∷ frames) < 1099511627776
    → AreIncreasing (negsuc 0) (negsuc 0) (stamps c (first ∷ frames) new_timing)
      × All FitsInt64 (stamps c (first ∷ frames) new_timing)
      × ((is_video : Bool) (ts : ℕ) (t : Timing)
          → detect_stream_restart is_video ts (update_stream_state is_video ts t) ≡ false)
unfolding stamps initialize_rtc_time_origin
stamps-AreIncreasing c first frames fast since few =
    let ts = first.1 in
    let begun = initialize_rtc_time_origin ts new_timing in
    (
      rw (stamp-first c first.0 ts)
          (stamps-Ready c ts (first ∷ frames) begun fast since (begun-Ready ts)),
      rw (stamp-first c first.0 ts) (
          stamps-FitsInt64 c ts 3242591731706757120 (first ∷ frames) begun fast since
            (omega (arith, few)) (begun-Ready ts) (begun-IsBelow ts)),
      restart_never,
    )

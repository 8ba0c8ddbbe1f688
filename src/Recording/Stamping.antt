-- ===== src/Recording/Stamping.antt =====
-- What one time stamp of src/recording_sink.cpp leaves in its context.
use rtc_egress.Prelude.{
  pos_part, ℕ, ◌+◌, ◌-◌, ◌*◌, ◌/◌, ◌≤◌, ◌<◌, Bool, true, false, sub64, ℤ, pos, negsuc, ◌+ℤ◌, ◌≤ℤ◌,
  ltb_ℤ, ◌≡◌, refl, arith,
}
use rtc_egress.Recording.Timing.{
  Timing, Setup, to_int64, ticks, initialize_rtc_time_origin, ensure_monotonic_pts,
  calculate_video_pts, calculate_audio_pts, update_stream_state, is_jump, detect_stream_restart,
}

-- A frame is not older than the first, and younger by less than 2 ^ 55 ms.
abbrev pub IsSince : ℕ → Bool × ℕ → Type 0
IsSince origin frame =
    (origin ≤ frame.1) × (frame.1 < origin + 36028797018963968) × (frame.1 < 18446744073709551616)

-- A frame takes a tick at least, and a second at most.
abbrev pub Advances : Setup → Type 0
Advances c =
    (0 < 90000 / c.video_fps)
    × (0 < c.frame_size * 90000 / c.sample_rate)
    × (90000 / c.video_fps ≤ 90000)
    × (c.frame_size * 90000 / c.sample_rate ≤ 90000)

-- A stamp is an int64_t.
abbrev pub FitsInt64 : Bool × ℤ → Type 0
FitsInt64 p = pos_part p.1 < 9223372036854775808

pub restart_never :
    (is_video : Bool) (ts : ℕ) (t : Timing)
    → detect_stream_restart is_video ts (update_stream_state is_video ts t) ≡ false
unfolding detect_stream_restart update_stream_state is_jump to_int64
restart_never true ts t = ground arith
restart_never false ts t = ground arith

above_last :
    (rel increment : ℕ) (last : ℤ)
    → negsuc 0 ≤ℤ last
    → 0 < increment
    → (ltb_ℤ last (ensure_monotonic_pts (pos (rel * 90)) last increment) ≡ true)
      × (negsuc 0 ≤ℤ ensure_monotonic_pts (pos (rel * 90)) last increment)
unfolding ensure_monotonic_pts ◌+ℤ◌
above_last rel increment last h k = ground arith

relative_pos :
    (origin ts : ℕ) → IsSince origin (true, ts) → to_int64 (sub64 ts origin) ≡ pos (ts - origin)
unfolding to_int64
relative_pos origin ts h = ground arith

-- The origin is the first frame's, and no stamp was below -1.
pub record Ready (origin : ℕ) (t : Timing) : Type 0 where
  pub begun : t.has_time_origin ≡ true
  pub first : t.rtc_time_origin ≡ origin
  pub video : negsuc 0 ≤ℤ t.last_video_pts
  pub audio : negsuc 0 ≤ℤ t.last_audio_pts

pub seen-Ready :
    (origin ts : ℕ) (is_video : Bool) (t : Timing)
    → Ready origin t
    → Ready origin (update_stream_state is_video ts t)
unfolding update_stream_state
seen-Ready origin ts true t r = record {
  begun = r.begun;
  first = r.first;
  video = r.video;
  audio = r.audio;
}
seen-Ready origin ts false t r = record {
  begun = r.begun;
  first = r.first;
  video = r.video;
  audio = r.audio;
}

pub initialize-begun :
    (ts : ℕ) (t : Timing) → t.has_time_origin ≡ true → initialize_rtc_time_origin ts t ≡ t
unfolding initialize_rtc_time_origin
initialize-begun ts t h = rw h refl

-- What a stamp leaves, of each stream.
unfoldable pub GoodVideo : ℕ → Timing → ℤ × Timing → Type 0
GoodVideo origin t made =
    (ltb_ℤ t.last_video_pts made.0 ≡ true)
    × Ready origin made.1
    × (made.1.last_video_pts ≡ made.0)
    × (made.1.last_audio_pts ≡ t.last_audio_pts)

unfoldable pub GoodAudio : ℕ → Timing → ℤ × Timing → Type 0
GoodAudio origin t made =
    (ltb_ℤ t.last_audio_pts made.0 ≡ true)
    × Ready origin made.1
    × (made.1.last_audio_pts ≡ made.0)
    × (made.1.last_video_pts ≡ t.last_video_pts)

module _ (c : Setup) (fast : Advances c) (origin ts : ℕ) (since : IsSince origin (true, ts)) where
  pub relative_lem :
      (t : Timing)
      → t.rtc_time_origin ≡ origin
      → ticks (to_int64 (sub64 ts t.rtc_time_origin)) ≡ pos ((ts - origin) * 90)
  unfolding ticks
  relative_lem t e = rw (e, relative_pos origin ts since) refl

  pub video_stamp : (t : Timing) → Ready origin t → GoodVideo origin t (calculate_video_pts c ts t)
  unfolding GoodVideo calculate_video_pts
  video_stamp t r =
      rw (initialize-begun ts t r.begun, relative_lem t r.first)
        (let a = above_last (ts - origin) (90000 / c.video_fps) t.last_video_pts r.video fast.0 in
          (
            a.0,
            record { begun = r.begun; first = r.first; video = a.1; audio = r.audio },
            refl,
            refl,
          ))

  pub audio_stamp : (t : Timing) → Ready origin t → GoodAudio origin t (calculate_audio_pts c ts t)
  unfolding GoodAudio calculate_audio_pts
  audio_stamp t r =
      rw (initialize-begun ts t r.begun, relative_lem t r.first)
        (let a =
            above_last (ts - origin) (c.frame_size * 90000 / c.sample_rate) t.last_audio_pts r.audio
              fast.1 in
          (
            a.0,
            record { begun = r.begun; first = r.first; video = r.video; audio = a.1 },
            refl,
            refl,
          ))

-- ===== src/Recording/Timing.antt =====
-- src/recording_sink.cpp: the time stamps of a context's frames: initializeRtcTimeOrigin,
-- calculateVideoPTS, calculateAudioPTS, ensureMonotonicPTS, updateStreamState and
-- detectStreamRestart, as encodeIndividualFrame and encodeIndividualAudioFrame call them.
--
-- Products and sums are exact here; for streams of less than 2 ^ 55 ms and less than 2 ^ 40 frames none
-- leaves int64_t (Recording/Increasing); beyond that the code overflows.
use rtc_egress.Prelude.{
  ℕ, ◌+◌, ◌-◌, ◌*◌, ◌/◌, List, [], ◌∷◌, Bool, true, false, not, ◌&&◌, ◌||◌, ltb, leb, if◌then◌else◌,
  sub64, ℤ, pos, negsuc, pos_part, neg_part, ◌+ℤ◌, ltb_ℤ,
}

-- The part of UserContext that the stamps use.
pub record Timing : Type 0 where
  pub rtc_time_origin : ℕ
  pub has_time_origin : Bool
  pub last_video_pts : ℤ
  pub last_audio_pts : ℤ
  pub video_stream_active : Bool
  pub audio_stream_active : Bool
  pub last_video_rtc_ts : ℕ
  pub last_audio_rtc_ts : ℕ
  pub last_sync_check_time : ℕ

abbrev pub new_timing : Timing
new_timing = record {
  rtc_time_origin = 0;
  has_time_origin = false;
  last_video_pts = negsuc 0;
  last_audio_pts = negsuc 0;
  video_stream_active = false;
  audio_stream_active = false;
  last_video_rtc_ts = 0;
  last_audio_rtc_ts = 0;
  last_sync_check_time = 0;
}

-- The container's format, the frame rate, and the audio encoder's frame size and rate.
pub record Setup : Type 0 where
  pub is_ts : Bool
  pub video_fps : ℕ
  pub frame_size : ℕ
  pub sample_rate : ℕ

-- The conversion of a uint64_t to int64_t.
unfoldable pub to_int64 : ℕ → ℤ
to_int64 n = if ltb n 9223372036854775808 then pos n else negsuc (18446744073709551616 - n - 1)

-- 1ms = 90 ticks
unfoldable pub ticks : ℤ → ℤ
ticks (pos n) = pos (n * 90)
ticks (negsuc n) = negsuc (n * 90 + 89)

unfoldable pub initialize_rtc_time_origin : ℕ → Timing → Timing
initialize_rtc_time_origin ts t =
    if not t.has_time_origin then record t { rtc_time_origin = ts; has_time_origin = true } else t

-- ensureMonotonicPTS: the value that is returned and stored.
unfoldable pub ensure_monotonic_pts : ℤ → ℤ → ℕ → ℤ
ensure_monotonic_pts new last increment =
    if ltb_ℤ last (pos 0) then new else if ltb_ℤ last new then new else last +ℤ pos increment

unfoldable pub calculate_video_pts : Setup → ℕ → Timing → ℤ × Timing
calculate_video_pts c ts t =
    let begun = initialize_rtc_time_origin ts t in
    let relative = to_int64 (sub64 ts begun.rtc_time_origin) in
    let pts = ensure_monotonic_pts (ticks relative) begun.last_video_pts (90000 / c.video_fps) in
    (pts, record begun { last_video_pts = pts })

unfoldable pub calculate_audio_pts : Setup → ℕ → Timing → ℤ × Timing
calculate_audio_pts c ts t =
    let begun = initialize_rtc_time_origin ts t in
    let relative = to_int64 (sub64 ts begun.rtc_time_origin) in
    let increment = c.frame_size * 90000 / c.sample_rate in
    let pts = ensure_monotonic_pts (ticks relative) begun.last_audio_pts increment in
    (pts, record begun { last_audio_pts = pts })

unfoldable pub update_stream_state : Bool → ℕ → Timing → Timing
update_stream_state true ts t = record t { video_stream_active = true; last_video_rtc_ts = ts }
update_stream_state false ts t = record t { audio_stream_active = true; last_audio_rtc_ts = ts }

-- timeDiff > 5000 || timeDiff < -1000
unfoldable pub is_jump : ℤ → Bool
is_jump diff = ltb_ℤ (pos 5000) diff || ltb_ℤ diff (negsuc 999)

unfoldable pub detect_stream_restart : Bool → ℕ → Timing → Bool
detect_stream_restart is_video ts t =
    let last = if is_video then t.last_video_rtc_ts else t.last_audio_rtc_ts in
    ltb 0 last && is_jump (to_int64 (sub64 ts last))

-- What a detected restart resets.
unfoldable pub restarted : Setup → Bool → Timing → Timing
restarted c true t = record t {
  has_time_origin = false;
  last_video_pts = if c.is_ts then t.last_video_pts else negsuc 0;
}
restarted c false t = record t {
  has_time_origin = false;
  last_audio_pts = if c.is_ts then t.last_audio_pts else negsuc 0;
}

-- The stamp of a frame, between the calls of the scaler or the resampler and of the encoder.
unfoldable pub stamp : Setup → Bool → ℕ → Timing → ℤ × Timing
stamp c is_video ts t =
    let seen = update_stream_state is_video ts t in
    let ready =
      if detect_stream_restart is_video ts seen then restarted c is_video seen else seen in
    if is_video then calculate_video_pts c ts ready else calculate_audio_pts c ts ready

-- The sync check: whether it is due, and whether it finds a drift.
unfoldable pub validate_av_sync : ℕ → Timing → Bool × Timing
validate_av_sync now t =
    let drift =
      max_part (pos_part t.last_audio_pts + neg_part t.last_video_pts)
        (pos_part t.last_video_pts + neg_part t.last_audio_pts) in
    if ltb (sub64 now t.last_sync_check_time) 5000 then (false, t) else (
      t.audio_stream_active && t.video_stream_active && ltb 9000 drift,
      record t { last_sync_check_time = now },
    )
  where
    max_part : ℕ → ℕ → ℕ
    max_part a b = if leb a b then b - a else a - b

-- The stamps of a context's frames, video and audio as they come.
unfoldable pub stamps : Setup → List (Bool × ℕ) → Timing → List (Bool × ℤ)
stamps c [] t = []
stamps c ((is_video, ts) ∷ frames) t =
    let made = stamp c is_video ts t in (is_video, made.0) ∷ stamps c frames made.1

-- ===== src/Streaming/Clock.antt =====
-- The timestamps that src/streaming_sink.cpp gives to the frames it encodes (run and encodeAudio).
--
-- `rescale` is av_rescale_q from milliseconds to the encoder's time base.
use rtc_egress.Prelude.{
  ℕ, List, [], ◌∷◌, ◌≡◌, refl, arith, Option, none, some, ℤ, pos, negsuc, ltb_ℤ, ◌+ℤ◌, ◌≤ℤ◌,
  if◌then◌else◌, sub_ℕ,
}

-- `origin`: originMs_ with hasOrigin_; `last_video`: lastVideoPts_, -1 before the first frame;
-- `next_audio`: nextAudioPts_, with `none` for AV_NOPTS_VALUE.
pub record Timeline : Type 0 where
  pub origin : Option ℕ
  pub last_video : ℤ
  pub next_audio : Option ℤ

-- openSession
abbrev pub new_timeline : Timeline
new_timeline = record { origin = none; last_video = negsuc 0; next_audio = none }

abbrev max_ℤ : ℤ → ℤ → ℤ
max_ℤ a b = if ltb_ℤ a b then b else a

abbrev origin_or : ℕ → Timeline → ℕ
origin_or time_ms t = elim t.origin [ none ↦ time_ms | some o ↦ o ]

module _ (rescale : ℤ → ℤ) where
  -- int64_t difference of the frame's time and the origin, in the time base.
  abbrev pub position : ℕ → Timeline → ℤ
  position time_ms t = rescale (sub_ℕ time_ms (origin_or time_ms t))

  -- A composed frame of the main loop: its pts, and the timeline behind it. Sums are exact here; the
  -- code's int64_t ends after 2 ^ 63 units of the time base.
  unfoldable pub stamp_video : ℕ → Timeline → ℤ × Timeline
  unfolding ◌+ℤ◌
  stamp_video time_ms t =
      let pts =
        max_ℤ (if ltb_ℤ t.last_video (pos 0) then pos 0 else t.last_video +ℤ rescale (pos 1))
          (position time_ms t) in
      (pts, record t { origin = some (origin_or time_ms t); last_video = pts })

  -- The start of an audio frame: where the last one ended, or the mixer's time behind a gap.
  unfoldable pub audio_start : ℤ → Option ℤ → ℤ
  unfolding ◌+ℤ◌
  audio_start at next = elim next [
    | none ↦ max_ℤ (pos 0) at
    | some n ↦ if ltb_ℤ (n +ℤ pos 4800) at then max_ℤ (pos 0) at else n
  ]

  -- encodeAudio, for a frame of `samples` samples.
  unfoldable pub stamp_audio : ℕ → ℕ → Timeline → ℤ × Timeline
  unfolding ◌+ℤ◌
  stamp_audio samples time_ms t =
      let pts = audio_start (position time_ms t) t.next_audio in
      (
        pts,
        record t { origin = some (origin_or time_ms t); next_audio = some (pts +ℤ pos samples) },
      )

-- The media of one session, in the order in which it is encoded.
pub data Frame : Type 0 where
  video_at : ℕ → Frame
  audio_at : ℕ → Frame

pub data Stamp : Type 0 where
  video_stamp : ℤ → Stamp
  audio_stamp : ℤ → Stamp

module _ (rescale : ℤ → ℤ) (rescale_audio : ℤ → ℤ) (samples : ℕ) where
  pub stamps : List Frame → Timeline → List Stamp
  stamps [] t = []
  stamps (video_at ms ∷ fs) t = let r = stamp_video rescale ms t in video_stamp r.0 ∷ stamps fs r.1
  stamps (audio_at ms ∷ fs) t =
      let r = stamp_audio rescale_audio samples ms t in audio_stamp r.0 ∷ stamps fs r.1

-- Each video stamp is at least `v` and `gap` behind the one before, each audio stamp at least `a`
-- and `samples` behind the one before.
abbrev pub Spaced : ℕ → ℕ → ℤ → ℤ → List Stamp → Type 0
Spaced gap samples v a [] = Unit
Spaced gap samples v a (video_stamp p ∷ ps) = (v ≤ℤ p) × Spaced gap samples (p +ℤ pos gap) a ps
Spaced gap samples v a (audio_stamp p ∷ ps) = (a ≤ℤ p) × Spaced gap samples v (p +ℤ pos samples) ps

-- The least stamp of the next video frame, and of the next audio frame.
abbrev pub video_low : ℕ → Timeline → ℤ
unfolding ◌+ℤ◌
video_low gap t = if ltb_ℤ t.last_video (pos 0) then pos 0 else t.last_video +ℤ pos gap

abbrev pub audio_low : Timeline → ℤ
audio_low t = elim t.next_audio [ none ↦ pos 0 | some n ↦ n ]

video_later :
    (rescale : ℤ → ℤ) (gap ms : ℕ) (t : Timeline)
    → rescale (pos 1) ≡ pos gap
    → let r = stamp_video rescale ms t in
      (video_low gap t ≤ℤ r.0)
      × (video_low gap r.1 ≡ r.0 +ℤ pos gap)
      × (audio_low r.1 ≡ audio_low t)
unfolding stamp_video
video_later rescale gap ms t e = (ground arith, ground arith, refl)

audio_later :
    (rescale : ℤ → ℤ) (gap samples ms : ℕ) (t : Timeline)
    → let r = stamp_audio rescale samples ms t in
      (audio_low t ≤ℤ r.0)
      × (audio_low r.1 ≡ r.0 +ℤ pos samples)
      × (video_low gap r.1 ≡ video_low gap t)
unfolding stamp_audio audio_start
audio_later rescale gap samples ms t = (ground arith, refl, refl)

-- Over the frames of a session, whatever their times and their order, with a millisecond that is
-- rescaled to `gap`: each video stamp is at least `gap` behind the one before, each audio stamp at
-- least an audio frame's samples, and the first ones are what the timeline asks for or later, which
-- is 0 in a new one. So neither stream goes back.
pub stamps-Spaced :
    (rescale rescale_audio : ℤ → ℤ) (gap samples : ℕ)
    → rescale (pos 1) ≡ pos gap
    → (fs : List Frame) (t : Timeline)
    → Spaced gap samples (video_low gap t) (audio_low t) (stamps rescale rescale_audio samples fs t)
unfolding stamps
stamps-Spaced rescale rescale_audio gap samples e [] t = tt
stamps-Spaced rescale rescale_audio gap samples e (video_at ms ∷ fs) t =
    let r = stamp_video rescale ms t in
    let (later, v, a) = video_later rescale gap ms t e in
    let ih = stamps-Spaced rescale rescale_audio gap samples e fs r.1 in (later, rw (v, a) at ih)
stamps-Spaced rescale rescale_audio gap samples e (audio_at ms ∷ fs) t =
    let r = stamp_audio rescale_audio samples ms t in
    let (later, a, v) = audio_later rescale_audio gap samples ms t in
    let ih = stamps-Spaced rescale rescale_audio gap samples e fs r.1 in (later, rw (v, a) at ih)

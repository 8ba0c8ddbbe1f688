-- ===== src/Recording/Passthrough.antt =====
-- src/recording_sink.cpp: encodePassthroughAudioFrame and writePassthroughAudioSamples, the sound that
-- is encoded beside a video that is copied.
--
-- A sample is its int16_t; its division by 32768 is left out. FFmpeg is a parameter: what the resampler
-- holds and makes, the rescaling of times, and how the encoder and the muxer take each frame. One step of
-- the loop is one encoder frame.
use rtc_egress.Prelude.{
  ℕ, zero, suc, ◌+◌, ◌-◌, ◌*◌, ◌/◌, min, max, List, ◌∷◌, ◌++◌, ℤ, Option, none, some, Bool, true,
  false, not, ◌&&◌, ◌||◌, ltb, leb, ◌==◌, if◌then◌else◌, length, take, drop, is_empty,
}

-- How a frame is taken: refused before it counts, or taken, or taken and then failed.
pub data Taken : Type 0 where
  refused : Taken
  taken : Taken
  broken : Taken

-- The samples of an encoder frame, the silence put behind them, and its time in ticks of 1 / 90000 s.
pub record Frame : Type 0 where
  pub samples : List ℤ
  pub silence : ℕ
  pub pts : ℕ

-- The part of PassthroughContext that the sound uses. `encoded` is what the encoder was given, the
-- latest first; `next_audio_pts` is none for AV_NOPTS_VALUE.
pub record Sound : Type 0 where
  pub is_ready : Bool  -- the encoder, its frame and the header are there
  pub rtc_time_origin : ℕ
  pub has_time_origin : Bool
  pub next_audio_pts : Option ℕ
  pub audio_sample_buffer : List ℤ
  pub audio_frame_count : ℕ
  pub last_buffered_timestamp : ℕ
  pub input_sample_rate : ℕ
  pub input_channels : ℕ
  pub has_resampler : Bool
  pub encoded : List Frame

-- FFmpeg and the configuration: whether the encoder's format is the planar float one, the samples of a
-- channel in its frame, the ticks of some samples, and how the n-th frame is taken.
pub record Coder : Type 0 where
  pub audio_sample_rate : ℕ
  pub audio_channels : ℕ
  pub is_float : Bool
  pub frame_size : ℕ
  pub ticks_of : ℕ → ℕ
  pub takes : ℕ → Taken

abbrev pub required : Coder → ℕ
required c = c.frame_size * c.audio_channels

-- The frame that the loop fills: zeros behind the last samples.
abbrev pub next_frame : Coder → Sound → Frame
next_frame c s = record {
  samples = take (min (required c) (length s.audio_sample_buffer)) s.audio_sample_buffer;
  silence = required c - min (required c) (length s.audio_sample_buffer);
  pts = elim s.next_audio_pts [ none ↦ 0 | some pts ↦ pts ];
}

abbrev pub advance : ℕ → Option ℕ → Option ℕ
advance n none = none
advance n (some pts) = some (pts + n)

unfoldable pub encode_next : Coder → Sound → Sound
encode_next c s = record s {
  audio_sample_buffer =
      drop (min (required c) (length s.audio_sample_buffer)) s.audio_sample_buffer;
  audio_frame_count = suc s.audio_frame_count;
  next_audio_pts = advance (c.ticks_of c.frame_size) s.next_audio_pts;
  encoded = next_frame c s ∷ s.encoded;
}

-- The loop of writePassthroughAudioSamples.
unfoldable pub write_loop : Coder → Bool → ℕ → Sound → Bool × Sound
write_loop c flush zero s = (false, s)
write_loop c flush (suc fuel) s =
    elim (not (is_empty s.audio_sample_buffer)
      && (leb (required c) (length s.audio_sample_buffer) || flush)) [
        | false ↦ (true, s)
        | true ↦ elim (c.takes s.audio_frame_count) [
          | Taken.refused ↦ (false, s)
          | Taken.broken ↦ (false, encode_next c s)
          | Taken.taken ↦ write_loop c flush fuel (encode_next c s)
        ]
      ]

-- An AudioFrame: `samples` of all channels.
pub record AudioFrame : Type 0 where
  pub samples : List ℤ
  pub sample_rate : ℕ
  pub channels : ℕ
  pub timestamp : ℕ

-- The resampler during one call: what it still gives when it is emptied and whether that ends well, how
-- many samples of a channel it holds, whether a new one is set up, and what it makes of the frame, none
-- when it fails.
pub record Resampler : Type 0 where
  pub tail : List ℤ
  pub drains : Bool
  pub delay : ℕ
  pub starts : Bool
  pub converts : AudioFrame → Option (List ℤ)

-- writePassthroughAudioSamples for an audio frame that is there.
unfoldable pub write_samples : Coder → Resampler → Bool → Sound → Bool × Sound
write_samples c r flush s =
    let filled : Sound =
      if flush && s.has_resampler
      then record s { audio_sample_buffer = s.audio_sample_buffer ++ r.tail }
      else s in
    if not c.is_float
    then (false, s)
    else if flush && s.has_resampler && not r.drains || leb c.frame_size 0
    then (false, filled)
    else write_loop c flush (suc (length filled.audio_sample_buffer)) filled

abbrev pub is_foreign : Coder → AudioFrame → Bool
is_foreign c f = not (f.sample_rate == c.audio_sample_rate) || not (f.channels == c.audio_channels)

-- max(0, elapsed) * 90, of two int64_t times below 2 ^ 63.
abbrev pub rtc_pts : ℕ → ℕ → ℕ
rtc_pts timestamp origin = (timestamp - origin) * 90

unfoldable pub is_gap : Coder → Resampler → ℕ → Sound → Bool
is_gap c r pts s =
    let pending =
      length s.audio_sample_buffer / c.audio_channels + (if s.has_resampler then r.delay else 0) in
    elim s.next_audio_pts [ none ↦ false | some next ↦ ltb (next + c.ticks_of pending + 9000) pts ]

unfoldable pub is_format_changed : AudioFrame → Sound → Bool
is_format_changed f s =
    ltb 0 s.input_sample_rate
    && (not (s.input_sample_rate == f.sample_rate) || not (s.input_channels == f.channels))

-- The frame's samples are appended and written.
unfoldable pub buffer_frame : Coder → Resampler → AudioFrame → List ℤ → Bool → Sound → Bool × Sound
buffer_frame c r f samples has_resampler s = write_samples c r false (record s {
  has_resampler = has_resampler;
  audio_sample_buffer = s.audio_sample_buffer ++ samples;
  input_sample_rate = f.sample_rate;
  input_channels = f.channels;
  last_buffered_timestamp = f.timestamp;
})

-- What remains of encodePassthroughAudioFrame behind the flush and the time.
unfoldable pub take_frame : Coder → Resampler → AudioFrame → Sound → Bool × Sound
take_frame c r f s =
    let plain = buffer_frame c r f f.samples s.has_resampler s in
    let resampled : Bool × Sound = elim (r.converts f) [
      | none ↦ (false, record s { has_resampler = true })
      | some samples ↦ buffer_frame c r f samples true s
    ] in
    if not (is_foreign c f)
    then plain
    else if s.has_resampler || r.starts
    then resampled
    else (false, s)

abbrev pub next_start : Bool → ℕ → Option ℕ → ℕ
next_start gap pts none = pts
next_start gap pts (some next) = if gap then max next pts else next

abbrev pub begun_sound : AudioFrame → Sound → Sound
begun_sound f s =
    if not s.has_time_origin
    then record s { rtc_time_origin = f.timestamp; has_time_origin = true }
    else s

-- encodePassthroughAudioFrame behind its time origin.
unfoldable pub encode_begun : Coder → Resampler → AudioFrame → Sound → Bool × Sound
encode_begun c r f s =
    let pts = rtc_pts f.timestamp s.rtc_time_origin in
    let gap = is_gap c r pts s in
    let flushed = write_samples c r true s in
    if gap || is_format_changed f s
    then if not flushed.0
      then (false, flushed.1)
      else take_frame c r f (record flushed.1 {
        has_resampler = false;
        next_audio_pts = some (next_start gap pts flushed.1.next_audio_pts);
      })
    else take_frame c r f (record s { next_audio_pts = some (next_start gap pts s.next_audio_pts) })

-- encodePassthroughAudioFrame
unfoldable pub encode_audio : Coder → Resampler → AudioFrame → Sound → Bool × Sound
encode_audio c r f s = if not s.is_ready then (false, s) else encode_begun c r f (begun_sound f s)

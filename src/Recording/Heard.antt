-- ===== src/Recording/Heard.antt =====
-- What the encoder is given of a user's sound: all of it, in order, in full frames whose times do not
-- overlap.
use rtc_egress.Prelude.{
  ◌&&◌, ◌==◌, ◌*◌, ◌-◌, ℕ, ◌≤◌, max, List, [], ◌∷◌, ◌++◌, append_assoc, append-nil, ℤ, Option, none,
  some, Bool, true, false, not, ◌||◌, if◌then◌else◌, ◌≡◌, refl, ◌∙◌, sym, subst, arith, Bool-cases,
  ◌⊎◌, inl, inr,
}
use rtc_egress.Recording.Passthrough.{
  Frame, Sound, Coder, AudioFrame, Resampler, write_samples, is_foreign, rtc_pts, is_gap,
  is_format_changed, take_frame, next_start, buffer_frame, encode_audio, begun_sound, encode_begun,
}
use rtc_egress.Recording.Written.{
  sound_of, heard, Paced, PacedTo, IsSound, IsWilling, Paced-none, IsWritten, with_tail,
  write_samples_lem,
}
use rtc_egress.Recording.Flushes.{
  flush_timed, Gap, OtherFormat, Added, change-Flushes, no_change-Flushes,
}

-- The samples that a frame gives.
abbrev pub made_of : Coder → Resampler → AudioFrame → Option (List ℤ)
made_of c r f =
    if f.sample_rate == c.audio_sample_rate && f.channels == c.audio_channels
    then some f.samples
    else r.converts f

-- A resampler that starts, and is emptied, without an error.
pub record IsWorking (r : Resampler) : Type 0 where
  pub drains : r.drains ≡ true
  pub starts : r.starts ≡ true

buffer_frame_lem :
    (c : Coder) (r : Resampler) (f : AudioFrame) (s : Sound) (n : ℕ) (new : List ℤ)
    (has_resampler : Bool)
    → IsWilling c
    → IsWorking r
    → s.next_audio_pts ≡ some n
    → IsSound c s
    → IsWritten c false (heard s ++ new) (buffer_frame c r f new has_resampler s)
unfolding buffer_frame with_tail
buffer_frame_lem c r f s n new has_resampler will works e h =
    let given : Sound = record s {
      has_resampler = has_resampler;
      audio_sample_buffer = s.audio_sample_buffer ++ new;
      input_sample_rate = f.sample_rate;
      input_channels = f.channels;
      last_buffered_timestamp = f.timestamp;
    } in
    subst (λ before. IsWritten c false before (write_samples c r false given))
      (sym (append_assoc (sound_of s.encoded) s.audio_sample_buffer new))
      (write_samples_lem c r false given n will works.drains e
        (record { full = h.full; paced = h.paced; fresh = λ k. cc (k, e) }))

either_true : (b c : Bool) → c ≡ true → (b || c) ≡ true
either_true true c e = refl
either_true false c e = e

take_frame_lem :
    (c : Coder) (r : Resampler) (f : AudioFrame) (s : Sound) (n : ℕ) (new : List ℤ)
    → IsWilling c
    → IsWorking r
    → made_of c r f ≡ some new
    → s.next_audio_pts ≡ some n
    → IsSound c s
    → IsWritten c false (heard s ++ new) (take_frame c r f s)
unfolding take_frame
take_frame_lem c r f s n new will works made e h = elim (Bool-cases (is_foreign c f)) [
  | inl foreign ↦
      let test : (f.sample_rate == c.audio_sample_rate && f.channels == c.audio_channels) ≡ false =
        ground arith in
      let converted : r.converts f ≡ some new = rw test at made in
      rw (foreign, either_true s.has_resampler r.starts works.starts, converted)
        (buffer_frame_lem c r f s n new true will works e h)
  | inr plain ↦
      let test : (f.sample_rate == c.audio_sample_rate && f.channels == c.audio_channels) ≡ true =
        ground arith in
      let same : some f.samples ≡ some new = rw test at made in
      rw plain (
        subst
          (λ samples.
            IsWritten c false (heard s ++ samples) (buffer_frame c r f f.samples s.has_resampler s))
          (cc same) (buffer_frame_lem c r f s n f.samples s.has_resampler will works e h))
]

Paced-later : (step n m : ℕ) (fs : List Frame) → n ≤ m → Paced step n fs → Paced step m fs
Paced-later step n m [] le h = tt
Paced-later step n m (f ∷ fs) le h = (omega arith, h.1)

PacedTo-start :
    (step : ℕ) (gap : Bool) (pts : ℕ) (next : Option ℕ) (fs : List Frame)
    → PacedTo step next fs
    → Paced step (next_start gap pts next) fs
PacedTo-start step gap pts none fs h = Paced-none step fs h pts
PacedTo-start step true pts (some n) fs h = Paced-later step n (max n pts) fs (omega arith) h
PacedTo-start step false pts (some n) fs h = h

-- A sound that gets a time, and its resampler's state anew.
abbrev timed_sound : Bool → Bool → ℕ → Sound → Sound
timed_sound resampler gap pts s = record s {
  has_resampler = resampler;
  next_audio_pts = some (next_start gap pts s.next_audio_pts);
}

timed_sound-IsSound :
    (c : Coder) (resampler gap : Bool) (pts : ℕ) (s : Sound)
    → IsSound c s
    → IsSound c (timed_sound resampler gap pts s)
timed_sound-IsSound c resampler gap pts s h = record {
  full = h.full;
  paced = PacedTo-start (c.ticks_of c.frame_size) gap pts s.next_audio_pts s.encoded h.paced;
  fresh = λ k. cc k;
}

module _ (c : Coder) (r : Resampler) (f : AudioFrame) (s : Sound) (new : List ℤ)
    (will : IsWilling c) (works : IsWorking r) (made : made_of c r f ≡ some new)
    (h : IsSound c s) where
  straight :
      (pts : ℕ) (gap : Bool)
      → IsWritten c false
          ((heard s ++ []) ++ new)
          (take_frame c r f (timed_sound s.has_resampler gap pts s))
  straight pts gap =
      let t = timed_sound s.has_resampler gap pts s in
      subst (λ before. IsWritten c false (before ++ new) (take_frame c r f t))
        (sym (append-nil (heard s)))
        (take_frame_lem c r f t (next_start gap pts s.next_audio_pts) new will works made refl
          (timed_sound-IsSound c s.has_resampler gap pts s h))

  tail_lem :
      (b : Bool)
      → (if b then heard s ++ r.tail else heard s) ≡ heard s ++ (if b then r.tail else [])
  tail_lem true = refl
  tail_lem false = sym (append-nil (heard s))

  flushed_first :
      (pts : ℕ) (gap : Bool) (n : ℕ)
      → s.next_audio_pts ≡ some n
      → ((write_samples c r true s).0 ≡ true)
        × IsWritten c false
            ((heard s ++ (if s.has_resampler then r.tail else [])) ++ new)
            (take_frame c r f (timed_sound false gap pts (write_samples c r true s).1))
  unfolding with_tail
  flushed_first pts gap n e =
      let w = write_samples_lem c r true s n will works.drains e h in
      let flushed = (write_samples c r true s).1 in
      let t = timed_sound false gap pts flushed in
      let g =
        take_frame_lem c r f t (next_start gap pts flushed.next_audio_pts) new will works made refl
          (timed_sound-IsSound c false gap pts flushed w.sound) in
      (
        w.done,
        subst (λ before. IsWritten c false (before ++ new) (take_frame c r f t))
            (w.same ∙ tail_lem s.has_resampler) g,
      )

  tail-Added :
      (pts : ℕ) (there : Bool) (result : Bool × Sound)
      → s.has_resampler ≡ there
      → (Gap c r pts s ⊎ OtherFormat f s)
      → IsWritten c false ((heard s ++ (if there then r.tail else [])) ++ new) result
      → Added c r f pts s (heard s) new result
  tail-Added pts true result e change w = (r.tail, inl ((e, change), refl), w)
  tail-Added pts false result e change w = ([], inr (λ fl. cc (fl.0, e), refl), w)

begun_sound-IsSound :
    (c : Coder) (f : AudioFrame) (s : Sound) → IsSound c s → IsSound c (begun_sound f s)
begun_sound-IsSound c f s h = begun s.has_time_origin
  where
    begun :
        (b : Bool)
        → IsSound c (
            if not b then record s { rtc_time_origin = f.timestamp; has_time_origin = true } else s)
    begun true = h
    begun false = record { full = h.full; paced = h.paced; fresh = h.fresh }

heard-begun_sound : (f : AudioFrame) (s : Sound) → heard (begun_sound f s) ≡ heard s
heard-begun_sound f s = begun s.has_time_origin
  where
    begun :
        (b : Bool)
        → heard (
            if not b then record s { rtc_time_origin = f.timestamp; has_time_origin = true } else s)
          ≡ heard s
    begun true = refl
    begun false = refl

encode_begun_lem :
    (c : Coder) (r : Resampler) (f : AudioFrame) (s : Sound) (new : List ℤ)
    → IsWilling c
    → IsWorking r
    → made_of c r f ≡ some new
    → IsSound c s
    → Added c r f (rtc_pts f.timestamp s.rtc_time_origin) s (heard s) new (encode_begun c r f s)
unfolding encode_begun
encode_begun_lem c r f s new will works made h =
    let pts = rtc_pts f.timestamp s.rtc_time_origin in
    let gap = is_gap c r pts s in
    elim (Bool-cases (gap || is_format_changed f s)) [
      | inr plain ↦ rw plain (
        [],
        inr (no_change-Flushes c r f pts s plain, refl),
        straight c r f s new will works made h pts gap,
      )
      | inl change ↦
          let timed = flush_timed c r f pts s h change in
          let g = flushed_first c r f s new will works made h pts gap timed.0 timed.1 in
          rw (change, g.0)
            (tail-Added c r f s new will works made h pts s.has_resampler _ refl
              (change-Flushes c r f pts s change) g.1)
    ]

ready_lem : {A : Type 0} (b : Bool) (x y : A) → b ≡ true → y ≡ (if not b then x else y)
ready_lem true x y e = refl
ready_lem false x y e = cc

-- The frame's time in ticks, since the context's first frame.
abbrev pub pts_of : AudioFrame → Sound → ℕ
pts_of f s = if s.has_time_origin then (f.timestamp - s.rtc_time_origin) * 90 else 0

begun_Added :
    (c : Coder) (r : Resampler) (f : AudioFrame) (s : Sound) (before new : List ℤ)
    (result : Bool × Sound)
    → let t = begun_sound f s in
      Added c r f (rtc_pts f.timestamp t.rtc_time_origin) t before new result
      → Added c r f (pts_of f s) s before new result
begun_Added c r f s before new result = begun s.has_time_origin
  where
    begun :
        (b : Bool)
        → let t : Sound =
            if not b
            then record s { rtc_time_origin = f.timestamp; has_time_origin = true }
            else s in
          Added c r f (rtc_pts f.timestamp t.rtc_time_origin) t before new result
          → Added c r f
              (if b then (f.timestamp - s.rtc_time_origin) * 90 else 0)
              s
              before
              new
              result
    begun true h = h
    begun false h =
        let now : (f.timestamp - f.timestamp) * 90 ≡ 0 = omega arith in
        subst (λ pts. Added c r f pts s before new result) now h

-- A frame of sound for a recording whose header is written, where the encoder takes every frame, has
-- frames of the planar float format, and the resampler does not fail: the call succeeds; what was encoded
-- so far followed by what waits is what it was, then what the resampler still held if there is one and
-- the frame is more than a tenth of a second behind all that was given or of another format than the
-- frame before, then the frame's samples, so none is lost or changes its place; less than an encoder frame
-- waits; every encoded frame is full, with silence behind its samples, and is over when the next begins.
pub encode_audio_lem :
    (c : Coder) (r : Resampler) (f : AudioFrame) (s : Sound) (new : List ℤ)
    → IsWilling c
    → IsWorking r
    → made_of c r f ≡ some new
    → IsSound c s
    → s.is_ready ≡ true
    → Added c r f (pts_of f s) s (heard s) new (encode_audio c r f s)
unfolding encode_audio
encode_audio_lem c r f s new will works made h ready =
    let result = encode_begun c r f (begun_sound f s) in
    subst (Added c r f (pts_of f s) s (heard s) new) (ready_lem s.is_ready (false, s) result ready)
      (begun_Added c r f s (heard s) new result (
        subst
          (λ before.
            Added c r f (rtc_pts f.timestamp (begun_sound f s).rtc_time_origin) (begun_sound f s)
              before new result)
          (heard-begun_sound f s)
          (encode_begun_lem c r f (begun_sound f s) new will works made
            (begun_sound-IsSound c f s h))))

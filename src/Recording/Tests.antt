-- ===== src/Recording/Tests.antt =====
-- A recording's parts at concrete inputs.
use rtc_egress.Prelude.{
  All, ℕ, ◌+◌, ◌*◌, ◌/◌, String, List, [], ◌∷◌, ◌++◌, pos, negsuc, ◌+ℤ◌, Bool, true, false, some,
  length, ◌≡◌, refl, arith,
}
use rtc_egress.Recording.NalUnits.{
  annex_b_to_avcc, h264_extradata, to_avcc, start_code, split_nal, written, is_param_set, nal_type,
  length_prefix, parse_units, find_unit, avc_extradata, byte_at, trim_zeros,
}
use rtc_egress.Recording.Avcc.{Coded, annex_b, read_avcc-annex_b_to_avcc, read_avcc, video_units}
use rtc_egress.Recording.Passthrough.{
  Taken, Sound, Coder, AudioFrame, Resampler, encode_audio, encode_begun, is_gap, is_format_changed,
  write_samples, write_loop, encode_next, take_frame, buffer_frame,
}
use rtc_egress.Recording.Written.{IsSound, heard}
use rtc_egress.Recording.Flushes.{Added}
use rtc_egress.Recording.Heard.{encode_audio_lem}
use rtc_egress.Recording.Timing.{
  stamp, calculate_video_pts, calculate_audio_pts, initialize_rtc_time_origin, to_int64, ticks,
  ensure_monotonic_pts, is_jump, Setup, stamps, new_timing, detect_stream_restart,
  update_stream_state, Timing,
}
use rtc_egress.Recording.Stamping.{FitsInt64}
use rtc_egress.Recording.Increasing.{AreIncreasing, stamps-AreIncreasing}
use rtc_egress.Recording.Sink.{
  VideoInput, Sink, on_video_frame, should_record_user, is_listed, push_frame, make_room,
}
use rtc_egress.Recording.Queues.{on_video_frames, on_video_frames_lem, latest, taken_video}

-- An SPS, a PPS and a slice.
abbrev stream : List Coded
stream =
    record { is_long = true; first = 103; more = 66 ∷ 0 ∷ 30 ∷ 200 ∷ [] }
    ∷ record { is_long = true; first = 104; more = 206 ∷ 60 ∷ [] }
    ∷ record { is_long = false; first = 101; more = 136 ∷ 0 ∷ 0 ∷ 3 ∷ 1 ∷ [] }
    ∷ []

stream_avcc :
    annex_b_to_avcc (annex_b stream) false ≡ 0 ∷ 0 ∷ 0 ∷ 6 ∷ 101 ∷ 136 ∷ 0 ∷ 0 ∷ 3 ∷ 1 ∷ []
unfolding to_avcc annex_b start_code split_nal written is_param_set nal_type length_prefix
stream_avcc = refl

stream_extradata :
    h264_extradata (annex_b stream)
    ≡ some (
        1 ∷ 66 ∷ 0 ∷ 30 ∷ 255 ∷ 225 ∷ 0 ∷ 5 ∷ 103 ∷ 66 ∷ 0 ∷ 30 ∷ 200 ∷ 1 ∷ 0 ∷ 3 ∷ 104 ∷ 206 ∷ 60
        ∷ [])
unfolding h264_extradata parse_units annex_b start_code split_nal nal_type find_unit avc_extradata
    byte_at trim_zeros
stream_extradata = refl

read_avcc-annex_b_to_avcc_example :
    read_avcc (length stream + 1) (annex_b_to_avcc (annex_b stream) false)
    ≡ some (video_units false stream)
read_avcc-annex_b_to_avcc_example =
    read_avcc-annex_b_to_avcc false stream
      ((refl, (refl, (refl, refl))), ((refl, refl), ((refl, (refl, (refl, (refl, refl)))), tt)))
      (omega arith, (omega arith, (omega arith, tt)))

abbrev setup : Setup
setup = record { is_ts = false; video_fps = 30; frame_size = 1024; sample_rate = 48000 }

-- The second video frame is a restart of the stream: a minute later.
abbrev frames : List (Bool × ℕ)
frames = (false, 1010) ∷ (true, 1033) ∷ (true, 61033) ∷ (true, 61033) ∷ (false, 1000) ∷ []

frames_stamped :
    stamps setup ((true, 1000) ∷ frames) new_timing
    ≡ (true, pos 0)
      ∷ (false, pos 900)
      ∷ (true, pos 2970)
      ∷ (true, pos 5402970)
      ∷ (true, pos 5405970)
      ∷ (false, pos 2820)
      ∷ []
unfolding stamps stamp calculate_video_pts calculate_audio_pts initialize_rtc_time_origin to_int64
    ticks ensure_monotonic_pts update_stream_state detect_stream_restart is_jump ◌+ℤ◌
frames_stamped = refl

stamps-AreIncreasing_example :
    AreIncreasing (negsuc 0) (negsuc 0) (stamps setup ((true, 1000) ∷ frames) new_timing)
    × All FitsInt64 (stamps setup ((true, 1000) ∷ frames) new_timing)
    × ((is_video : Bool) (ts : ℕ) (t : Timing)
        → detect_stream_restart is_video ts (update_stream_state is_video ts t) ≡ false)
stamps-AreIncreasing_example =
    stamps-AreIncreasing setup (true, 1000) frames
      (omega arith, omega arith, omega arith, omega arith)
      (
        (omega arith, omega arith, omega arith),
        (
          (omega arith, omega arith, omega arith),
          (
            (omega arith, omega arith, omega arith),
            (
              (omega arith, omega arith, omega arith),
              (
                (omega arith, omega arith, omega arith),
                ((omega arith, omega arith, omega arith), tt),
              ),
            ),
          ),
        ),
      )
      (omega arith)

abbrev coder : Coder
coder = record {
  audio_sample_rate = 48000;
  audio_channels = 1;
  is_float = true;
  frame_size = 2;
  ticks_of = λ n. n * 90000 / 48000;
  takes = λ n. Taken.taken;
}

-- It holds a sample, which a flush brings out.
abbrev resampler : Resampler
resampler = record {
  tail = pos 9 ∷ [];
  drains = true;
  delay = 1;
  starts = true;
  converts = λ f. some f.samples;
}

-- Three samples, ten seconds on: what waits is flushed, a frame is encoded, and one sample waits.
abbrev sound : AudioFrame
sound = record {
  samples = pos 1 ∷ pos 2 ∷ pos 3 ∷ [];
  sample_rate = 48000;
  channels = 1;
  timestamp = 11000;
}

abbrev waiting : Sound
waiting = record {
  is_ready = true;
  rtc_time_origin = 1000;
  has_time_origin = true;
  next_audio_pts = some 0;
  audio_sample_buffer = pos 7 ∷ pos 8 ∷ [];
  audio_frame_count = 0;
  last_buffered_timestamp = 1000;
  input_sample_rate = 48000;
  input_channels = 1;
  has_resampler = true;
  encoded = [];
}

-- Silence is put behind the flushed sample.
waiting_flushed :
    (encode_audio coder resampler sound waiting).1.encoded
    ≡ record { samples = pos 1 ∷ pos 2 ∷ []; silence = 0; pts = 900000 }
      ∷ record { samples = pos 9 ∷ []; silence = 1; pts = 3 }
      ∷ record { samples = pos 7 ∷ pos 8 ∷ []; silence = 0; pts = 0 }
      ∷ []
unfolding encode_audio encode_begun is_gap is_format_changed write_samples write_loop encode_next
    take_frame buffer_frame
waiting_flushed = refl

waiting-IsSound : IsSound coder waiting
waiting-IsSound = record { full = tt; paced = tt; fresh = λ e. cc e }

encode_audio_lem_example :
    Added coder resampler sound 900000 waiting
      (heard waiting)
      sound.samples
      (encode_audio coder resampler sound waiting)
encode_audio_lem_example =
    encode_audio_lem coder resampler sound waiting sound.samples
      (record { float = refl; size = omega arith; positive = omega arith; takes = λ n. refl })
      (record { drains = refl; starts = refl }) refl waiting-IsSound refl

abbrev sink : Sink
sink = record {
  is_recording = true;
  stop_requested = false;
  stop_in_progress = false;
  record_video = true;
  record_audio = true;
  video_buffer_size = 2;
  audio_buffer_size = 2;
  target_users = "7" ∷ [];
  task_id = "t";
  max_duration_seconds = pos 3600;
  audio_priority = 50;
  video_priority = 50;
  is_ts = false;
  ts_pending_segment_rotation = false;
  video_frame_queue = [];
  audio_frame_queue = [];
}

abbrev seen : String → ℕ → VideoInput
seen user timestamp = record { user = user; timestamp = timestamp; is_valid = true }

abbrev arrivals : List VideoInput
arrivals = seen "7" 1 ∷ seen "8" 2 ∷ seen "7" 3 ∷ seen "7" 4 ∷ []

sink_queue : (on_video_frames arrivals sink).video_frame_queue ≡ seen "7" 3 ∷ seen "7" 4 ∷ []
unfolding on_video_frames on_video_frame should_record_user is_listed push_frame make_room
sink_queue = refl

on_video_frames_lem_example :
    (on_video_frames arrivals sink).video_frame_queue
    ≡ latest 2 (sink.video_frame_queue ++ taken_video sink arrivals)
on_video_frames_lem_example = on_video_frames_lem 1 arrivals sink refl refl refl (omega arith)

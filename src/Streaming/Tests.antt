-- ===== src/Streaming/Tests.antt =====
-- The theorems on src/streaming_sink.cpp and src/streaming_output.cpp at concrete worlds.
use rtc_egress.Prelude.{
  ℕ, ◌≤◌, List, [], ◌∷◌, ◌++◌, ◌≡◌, refl, arith, some, Bool, true, false, leb, length, total, ℤ,
  pos, pos_part, ◌*◌, if◌then◌else◌, ◌&&◌,
}
use rtc_egress.Streaming.Config.{Protocol, OutputConfig, SinkConfig, default_output, default_sink}
use rtc_egress.Streaming.Url.{
  ascii, validate, is_rtmp, behind, until_path, has_scheme, strip_prefix, has_authority,
}
use rtc_egress.Streaming.Hosts.{IsScheme, begins_host, validate-IsScheme}
use rtc_egress.Streaming.Sink.{
  World, written, output_lost, Sink, processing_failed, is_failed, reconnect, Report,
  failure_report, duration_report, run,
}
use rtc_egress.Streaming.Ends.{IsLasting, run_reports}
use rtc_egress.Streaming.Output.{Output, Answers}
use rtc_egress.Streaming.Calls.{IsOrdered}
use rtc_egress.Streaming.Sessions.{
  Operation, opening, writing, polling, cancelling, closing, operate_all, operate_all-IsOrdered,
}
use rtc_egress.Streaming.Lifecycle.{
  Lifecycle, accepts, initialize, start, stop, initialize-reconnect, start-initialize,
}
use rtc_egress.Streaming.Clock.{
  new_timeline, video_low, audio_low, video_at, audio_at, stamps, Spaced, stamps-Spaced,
}

abbrev ffmpeg : Protocol → Bool
ffmpeg _ = true

abbrev output_config : OutputConfig
output_config = record default_output { url = ascii "rtmp://cdn.example/live" }

abbrev sink_config : SinkConfig
sink_config = record default_sink { output = output_config }

validate-IsScheme_example :
    ((p : List ℕ) × (h : ℕ) × (rest : List ℕ) × IsScheme Protocol.rtmp p
      × (ascii "rtmp://cdn.example/live" ≡ p ++ h ∷ rest)
      × (begins_host h ≡ true))
    × (is_rtmp Protocol.rtmp ≡ true → output_config.token ≡ [])
unfolding validate has_scheme strip_prefix has_authority behind until_path
validate-IsScheme_example = validate-IsScheme ffmpeg output_config refl

-- A destination that is lost at the start and never comes back; the duration ends at reading 90.
abbrev offline : World
offline = record {
  stops = λ _. false;
  overdue = leb 90;
  faults = λ _. false;
  encoders = λ _. true;
  reachable = λ _. false;
  has_frame = λ _. true;
  video = λ _. written;
  audio = λ _. output_lost;
  polls = λ _. true;
}

abbrev idle_sink : Sink
idle_sink = record {
  time = 0;
  failed = false;
  reconnecting = false;
  output_failed = false;
  is_open = false;
  failure = processing_failed;
  waits = [];
}

offline-IsLasting : IsLasting offline
offline-IsLasting = record {
  stops_last = λ a b le h. h;
  overdue_lasts = λ a b le h. ground arith;
  faults_last = λ a b le h. h;
}

run_reports_example :
    (u : Sink) × (reports : List Report) × (run 92 offline sink_config true idle_sink
      ≡ some (u, reports))
    × (u.is_open ≡ false)
    × (false ≡ true → reports ≡ [])
    × (false ≡ false
        → true ≡ true
        → reports
          ≡ (if is_failed offline u then failure_report u.failure else duration_report) ∷ [])
run_reports_example =
    run_reports offline sink_config offline-IsLasting (omega arith) 90 92 idle_sink true refl
      (omega arith) (omega arith)

abbrev answers : Answers
answers = record {
  context_made = true;
  streams_made = true;
  needs_io = true;
  io_opened = true;
  header_accepted = true;
}

abbrev idle_output : Output
idle_output = record {
  config = default_output;
  context = false;
  io = false;
  header_written = false;
  cancelled = false;
  deadline_us = 0;
  task_deadline_us = 0;
  next_poll_us = 0;
  closing = false;
  calls = [];
}

abbrev broadcast : List Operation
broadcast =
    opening output_config true false 9000000 1000 2000 answers
    ∷ writing 3000 false true
    ∷ polling 4000 false true
    ∷ cancelling
    ∷ writing 5000 false true
    ∷ closing 6000
    ∷ []

operate_all-IsOrdered_example : IsOrdered (operate_all ffmpeg broadcast idle_output)
operate_all-IsOrdered_example = operate_all-IsOrdered ffmpeg broadcast idle_output (record {
  in_session = refl;
  with_context = λ _. (refl, refl);
  settled = refl;
  in_time = λ h. cc;
})

abbrev idle_lifecycle : Lifecycle
idle_lifecycle = record {
  config = default_sink;
  active = false;
  joinable = false;
  initialized = true;
  stopping = false;
  failed = false;
  reconnecting = false;
}

initialize-reconnect_example :
    let r = reconnect offline sink_config idle_sink in
    (length r.1.waits ≤ 20)
    × (total r.1.waits ≤ 200000)
    × (r.1.reconnecting ≡ false)
    × (r.1.is_open ≡ r.0)
unfolding initialize accepts validate has_scheme strip_prefix has_authority behind until_path
initialize-reconnect_example =
    initialize-reconnect ffmpeg true sink_config idle_lifecycle refl offline idle_sink

start-initialize_example :
    let u = (start true idle_lifecycle).1 in
    (initialize ffmpeg true sink_config u ≡ (false, u))
    × (start true u ≡ (false, u))
    × ((initialize ffmpeg true sink_config (stop false u)).0 ≡ (accepts ffmpeg sink_config && true))
unfolding start
start-initialize_example = start-initialize ffmpeg true true true sink_config idle_lifecycle refl

-- The time base of 1/1000 for the video; the audio's is 48 samples to a millisecond.
abbrev same : ℤ → ℤ
same n = n

abbrev by_48 : ℤ → ℤ
by_48 n = pos (48 * pos_part n)

stamps-Spaced_example : Spaced 1 1024 (video_low 1 new_timeline) (audio_low new_timeline) (
    stamps same by_48 1024
      (video_at 40 ∷ audio_at 41 ∷ video_at 40 ∷ audio_at 60 ∷ [])
      new_timeline)
stamps-Spaced_example =
    stamps-Spaced same by_48 1 1024 refl
      (video_at 40 ∷ audio_at 41 ∷ video_at 40 ∷ audio_at 60 ∷ []) new_timeline

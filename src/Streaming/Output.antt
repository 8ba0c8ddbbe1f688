-- ===== src/Streaming/Output.antt =====
-- src/streaming_output.cpp: the transport of one destination, with its deadlines.
--
-- The calls of FFmpeg are recorded, newest first, a header where it is accepted; what they return is
-- an argument. Times are
-- av_gettime_relative(), in microseconds.
use rtc_egress.Prelude.{
  ℕ, ◌+◌, ◌*◌, min, List, ◌∷◌, Bool, true, false, not, ◌&&◌, ◌||◌, leb, ltb, ◌==◌, if◌then◌else◌,
  pos_part,
}
use rtc_egress.Streaming.Config.{Protocol, OutputConfig}
use rtc_egress.Streaming.Url.{is_rtmp, validate}

pub data OutputCall : Type 0 where
  alloc_context open_io write_header write_packet flush_packets write_trailer close_io : OutputCall

-- `context`: there is a context; `io`: it has an open AVIOContext.
pub record Output : Type 0 where
  pub config : OutputConfig
  pub context : Bool
  pub io : Bool
  pub header_written : Bool
  pub cancelled : Bool
  pub deadline_us : ℕ
  pub task_deadline_us : ℕ
  pub next_poll_us : ℕ
  pub closing : Bool
  pub calls : List OutputCall

abbrev pub called : OutputCall → Output → Output
called k o = record o { calls = k ∷ o.calls }

-- StreamingOutput::setDeadline
unfoldable pub set_deadline : ℕ → ℕ → Output → Output
set_deadline now timeout_ms o = record o {
  deadline_us =
      if not o.closing && not (o.task_deadline_us == 0)
      then min (now + timeout_ms * 1000) o.task_deadline_us
      else now + timeout_ms * 1000;
}

-- StreamingOutput::interrupt
unfoldable pub interrupt : ℕ → Bool → Output → Bool
interrupt now stopping o = (not o.closing && (o.cancelled || stopping)) || leb o.deadline_us now

-- The call of av_write_trailer, and of avio_closep, of `close`.
abbrev pub end_session : Output → Output
end_session o = if o.header_written then called write_trailer o else o

abbrev pub end_io : Output → Output
end_io o = if o.io then called close_io o else o

-- StreamingOutput::close
unfoldable pub close : ℕ → Output → Output
unfolding set_deadline
close now o =
    if not o.context
    then o
    else record (end_io (end_session (set_deadline now 1000 (record o { closing = true })))) {
      context = false;
      io = false;
      header_written = false;
      closing = false;
    }

-- What FFmpeg answers to `open`: the context, the two streams with their parameters, whether the
-- muxer needs an AVIOContext, whether that opens, and the header.
pub record Answers : Type 0 where
  pub context_made : Bool
  pub streams_made : Bool
  pub needs_io : Bool
  pub io_opened : Bool
  pub header_accepted : Bool

-- The steps of `open` behind the first deadline.
unfoldable pub open_transport : ℕ → Answers → Output → Bool × Output
open_transport now a o =
    let made = record (called alloc_context o) { context = true } in
    let connected = if a.needs_io then record (called open_io made) { io = true } else made in
    let begun = called write_header (set_deadline now (pos_part o.config.timeout_ms) connected) in
    if not a.context_made
    then (false, called alloc_context o)
    else if not a.streams_made
    then (false, close now made)
    else if a.needs_io && not a.io_opened
    then (false, close now (called open_io made))
    else if not a.header_accepted
    then (false, close now (set_deadline now (pos_part o.config.timeout_ms) connected))
    else (true, record begun { header_written = true; next_poll_us = 0 })

-- StreamingOutput::open; `now` and `later` are the clock at its two deadlines, `stopping` is the flag.
unfoldable pub open_output :
    (Protocol → Bool) → OutputConfig → Bool → Bool → ℕ → ℕ → ℕ → Answers → Output → Bool × Output
open_output backend c has_codecs stopping task_deadline now later a o =
    let d = close now o in
    let e =
      set_deadline now (pos_part c.timeout_ms)
        (record d { config = c; task_deadline_us = task_deadline; cancelled = false }) in
    if not (validate backend c) || not has_codecs
    then (false, d)
    else if interrupt now stopping e
    then (false, e)
    else open_transport later a e

-- The guard of write and poll.
abbrev pub is_ready : Bool → Output → Bool
is_ready stopping o = o.header_written && not (o.cancelled || stopping)

-- StreamingOutput::write
unfoldable pub write : ℕ → Bool → Bool → Output → Bool × Output
write now stopping accepted o =
    if is_ready stopping o
    then (accepted, called write_packet (set_deadline now (pos_part o.config.timeout_ms) o))
    else (false, o)

-- StreamingOutput::poll
unfoldable pub poll : ℕ → Bool → Bool → Output → Bool × Output
poll now stopping accepted o =
    if not (is_ready stopping o)
    then (false, o)
    else if is_rtmp o.config.protocol || ltb now o.next_poll_us
    then (true, o)
    else (
      accepted,
      called flush_packets (
          set_deadline now (pos_part o.config.timeout_ms)
            (record o { next_poll_us = now + 100000 })),
    )

-- StreamingOutput::cancel
abbrev pub cancel : Output → Output
cancel o = record o { cancelled = true }

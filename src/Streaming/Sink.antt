-- ===== src/Streaming/Sink.antt =====
-- src/streaming_sink.cpp: the publishing thread of the streaming sink, with its sessions, its retries
-- and its report.
--
-- The other threads, the clock, the encoders and the destination are a `World`, read at a time that
-- counts the readings.
use rtc_egress.Prelude.{
  ℕ, zero, suc, ◌*◌, min, List, [], ◌∷◌, Option, none, some, Bool, true, false, not, ◌&&◌, ◌||◌,
  if◌then◌else◌, pos_part,
}
use rtc_egress.Streaming.Config.{SinkConfig}

-- What became of the media of one turn: written, refused by the destination, or not encoded.
pub data Media : Type 0 where
  written output_lost not_encoded : Media

-- `stops`: `stopping_`; `overdue`: durationReached(); `faults`: `failed_` set by another thread;
-- `encoders`: both encoders open; `reachable`: the output opens; `has_frame`: a composed frame is
-- pending; `video`, `audio`: what becomes of them; `polls`: the result of poll().
pub record World : Type 0 where
  pub stops : ℕ → Bool
  pub overdue : ℕ → Bool
  pub faults : ℕ → Bool
  pub encoders : ℕ → Bool
  pub reachable : ℕ → Bool
  pub has_frame : ℕ → Bool
  pub video : ℕ → Media
  pub audio : ℕ → Media
  pub polls : ℕ → Bool

-- The texts of `failureMessage_`: "Streaming media processing failed", "Streaming destination
-- reconnect exhausted after N attempts", and "Streaming media encoder restart failed".
pub data Failure : Type 0 where
  processing_failed : Failure
  exhausted : ℕ → Failure
  restart_failed : Failure

-- `is_open`: the output is open; `waits`: the waits between retries, newest first.
pub record Sink : Type 0 where
  pub time : ℕ
  pub failed : Bool
  pub reconnecting : Bool
  pub output_failed : Bool
  pub is_open : Bool
  pub failure : Failure
  pub waits : List ℕ

abbrev pub tick : Sink → Sink
tick s = record s { time = suc s.time }

abbrev pub close : Sink → Sink
close s = record s { is_open = false }

abbrev pub fail : Sink → Sink
fail s = record s { failed = true }

abbrev pub is_failed : World → Sink → Bool
is_failed w s = s.failed || w.faults s.time

-- stopping_ || durationReached()
abbrev pub is_over : World → Sink → Bool
is_over w s = w.stops s.time || w.overdue s.time

-- StreamingSink::openSession
unfoldable pub open_session : World → Sink → Bool × Sink
open_session w s =
    let u = tick (record s { output_failed = false }) in
    if is_over w s || not (w.encoders s.time)
    then (false, u)
    else if w.reachable s.time
    then (true, record u { is_open = true })
    else (false, record u { output_failed = true })

abbrev pub wait : ℕ → Sink → Sink
wait delay_ms s = tick (record s { waits = delay_ms ∷ s.waits })

-- The `for` loop of reconnect, with `left` of the attempts left.
unfoldable pub retry : World → ℕ → ℕ → Sink → Bool × Sink
retry w zero delay_ms s = (false, s)
retry w (suc left) delay_ms s =
    let v = wait delay_ms s in
    let o = open_session w (tick v) in
    let others = retry w left (min (delay_ms * 2) 10000) (close o.1) in
    if is_over w v || is_failed w v
    then (false, v)
    else if o.0
    then (true, record o.1 { reconnecting = false })
    else if o.1.output_failed
    then others
    else (false, close o.1)

-- The end of reconnect, behind the loop.
unfoldable pub give_up : World → SinkConfig → Sink → Sink
give_up w c s = if is_over w s || is_failed w s then tick s else record s {
  time = suc s.time;
  failed = true;
  failure = if s.output_failed then exhausted (pos_part c.reconnect_attempts) else restart_failed;
}

-- StreamingSink::reconnect
unfoldable pub reconnect : World → SinkConfig → Sink → Bool × Sink
reconnect w c s =
    let r =
      retry w (pos_part c.reconnect_attempts) (pos_part c.reconnect_delay_ms)
        (close (record s { reconnecting = true })) in
    if r.0 then r else (false, give_up w c (record r.1 { reconnecting = false }))

abbrev pub after_media : Media → Sink → Bool × Sink
after_media m s = elim m [
  | written ↦ (true, tick s)
  | output_lost ↦ (false, tick (record s { output_failed = true }))
  | not_encoded ↦ (false, tick s)
]

abbrev pub goes_on : World → Bool × Sink → Bool
goes_on w r = r.0 && (not (is_failed w r.1) && not (w.stops r.1.time))

-- The media of one turn of the main loop: a composed frame, the mixed audio, and the poll.
unfoldable pub publish_media : World → Sink → Bool × Sink
publish_media w s =
    let v = if w.has_frame s.time then after_media (w.video s.time) s else (true, tick s) in
    let a = if goes_on w v then after_media (w.audio v.1.time) v.1 else v in
    if goes_on w a && not (w.polls a.1.time)
    then (false, tick (record a.1 { output_failed = true }))
    else a

-- One turn of the main loop: the loop ends with a sink, or goes on with one.
pub data Turn : Type 0 where
  ended again : Sink → Turn

unfoldable pub turn : World → SinkConfig → Sink → Turn
turn w c s =
    let v = tick s in
    let m = publish_media w (tick v) in
    let r = reconnect w c m.1 in
    if is_over w s || is_failed w s
    then ended s
    else if w.stops v.time || is_failed w v
    then ended v
    else if m.0 || is_over w m.1
    then again m.1
    else if m.1.output_failed
    then (if r.0 then again r.1 else ended r.1)
    else again (fail m.1)

-- The main loop; `none` means that the fuel ran out.
unfoldable pub publish_loop : ℕ → World → SinkConfig → Sink → Option Sink
publish_loop zero w c s = none
publish_loop (suc fuel) w c s = elim (turn w c s) [
  | ended u ↦ some u
  | again u ↦ publish_loop fuel w c u
]

-- The first session, with its retries.
unfoldable pub connect_first : World → SinkConfig → Sink → Bool × Sink
connect_first w c s =
    let o = open_session w s in
    let r =
      if not o.0 && (o.1.output_failed && not (is_over w o.1)) then reconnect w c o.1 else o in
    (r.0, if r.0 || is_over w r.1 then r.1 else fail r.1)

-- The report of the thread's end: "failed" with the failure, or "success" with "Streaming duration
-- reached".
pub data Report : Type 0 where
  failure_report : Failure → Report
  duration_report : Report

unfoldable pub report : World → Bool → Sink → List Report
report w has_callback s =
    if not (w.stops s.time) && (has_callback && (is_failed w s || w.overdue s.time))
    then (if is_failed w s then failure_report s.failure else duration_report) ∷ []
    else []

-- StreamingSink::run
unfoldable pub run : ℕ → World → SinkConfig → Bool → Sink → Option (Sink × List Report)
run fuel w c has_callback s =
    let o = connect_first w c s in
    let ended = if o.0 then publish_loop fuel w c o.1 else some o.1 in
    elim ended [ none ↦ none | some u ↦ some (close u, report w has_callback u) ]

-- ===== src/Streaming/Calls.antt =====
-- The order of the calls that src/streaming_output.cpp makes: sessions, and what its state says of
-- them.
use rtc_egress.Prelude.{◌≤◌, List, [], ◌∷◌, ◌≡◌, Option, none, some, Bool, true, false, ◌==◌}
use rtc_egress.Streaming.Output.{
  OutputCall, alloc_context, open_io, write_header, write_packet, flush_packets, write_trailer,
  close_io, Output,
}

-- One more call: whether a session is open afterwards; `none` is a call out of order, which is a
-- header inside a session, or a packet, a flush or a trailer outside of one.
abbrev pub next_session : OutputCall → Bool → Option Bool
next_session write_header false = some true
next_session write_header true = none
next_session write_packet true = some true
next_session write_packet false = none
next_session flush_packets true = some true
next_session flush_packets false = none
next_session write_trailer true = some false
next_session write_trailer false = none
next_session alloc_context b = some b
next_session open_io b = some b
next_session close_io b = some b

-- All calls, the first one last.
abbrev pub session : List OutputCall → Option Bool
session [] = some false
session (k ∷ ks) = elim (session ks) [ none ↦ none | some b ↦ next_session k b ]

pub record IsOrdered (o : Output) : Type 0 where
  pub in_session : session o.calls ≡ some o.header_written
  pub with_context : o.context ≡ false → (o.header_written ≡ false) × (o.io ≡ false)
  pub settled : o.closing ≡ false
  pub in_time :
      o.header_written ≡ true
      → (o.task_deadline_us == 0) ≡ false
      → o.deadline_us ≤ o.task_deadline_us

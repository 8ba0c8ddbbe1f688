-- ===== src/Streaming/Opening.antt =====
-- Opening and closing a transport of src/streaming_output.cpp keeps the order of its calls.
use rtc_egress.Prelude.{
  ℕ, ◌≡◌, refl, ◌∙◌, arith, Bool, true, false, not, inl, inr, Bool-cases, pos_part, ◌&&◌, ◌||◌,
  if◌then◌else◌,
}
use rtc_egress.Streaming.Config.{Protocol, OutputConfig}
use rtc_egress.Streaming.Url.{validate}
use rtc_egress.Streaming.Output.{
  interrupt, called, alloc_context, open_io, write_header, Output, set_deadline, close, Answers,
  open_transport, open_output,
}
use rtc_egress.Streaming.Calls.{IsOrdered}

pub close-IsOrdered : (now : ℕ) (o : Output) → IsOrdered o → IsOrdered (close now o)
unfolding close
close-IsOrdered now o s = record {
  in_session = ground (arith, s.in_session);
  with_context = ground (arith, s.with_context);
  settled = ground (arith, s.settled);
  in_time = ground (arith, s.with_context);
}

close-header_written : (now : ℕ) (o : Output) → IsOrdered o → (close now o).header_written ≡ false
unfolding close
close-header_written now o s = ground (arith, s.with_context)

-- A transport whose context was made, with or without an AVIOContext.
abbrev connected : Bool → Output → Output
connected io o =
    if io
    then record (called open_io (record (called alloc_context o) { context = true })) { io = true }
    else record (called alloc_context o) { context = true }

alloc-IsOrdered : (o : Output) → IsOrdered o → IsOrdered (called alloc_context o)
alloc-IsOrdered o s = record {
  in_session = rw s.in_session;
  with_context = s.with_context;
  settled = s.settled;
  in_time = s.in_time;
}

made-IsOrdered :
    (o : Output) → IsOrdered o → IsOrdered (record (called alloc_context o) { context = true })
made-IsOrdered o s = record {
  in_session = rw s.in_session;
  with_context = λ h. cc;
  settled = s.settled;
  in_time = s.in_time;
}

asked-IsOrdered :
    (o : Output)
    → IsOrdered o
    → o.context ≡ true
    → (io : Bool) → IsOrdered (record (called open_io o) { io = io })
asked-IsOrdered o s k io = record {
  in_session = rw s.in_session;
  with_context = λ h. cc (k, h);
  settled = s.settled;
  in_time = s.in_time;
}

connected-IsOrdered : (io : Bool) (o : Output) → IsOrdered o → IsOrdered (connected io o)
connected-IsOrdered true o s =
    asked-IsOrdered (record (called alloc_context o) { context = true }) (made-IsOrdered o s) refl
      true
connected-IsOrdered false o s = made-IsOrdered o s

-- A new deadline, outside a session.
later-IsOrdered :
    (now timeout : ℕ) (o : Output)
    → IsOrdered o
    → o.header_written ≡ false
    → IsOrdered (set_deadline now timeout o)
unfolding set_deadline
later-IsOrdered now timeout o s h = record {
  in_session = s.in_session;
  with_context = s.with_context;
  settled = s.settled;
  in_time = λ k. cc (h, k);
}

begun-IsOrdered :
    (now timeout : ℕ) (o : Output)
    → IsOrdered o
    → o.header_written ≡ false
    → o.context ≡ true
    → IsOrdered (record (called write_header (set_deadline now timeout o)) {
      header_written = true;
      next_poll_us = 0;
    })
unfolding set_deadline
begun-IsOrdered now timeout o s h k = record {
  in_session = ground (arith, s.in_session, h);
  with_context = λ n. cc (k, n);
  settled = s.settled;
  in_time = ground (arith, s.settled);
}

connected-context : (io : Bool) (o : Output) → (connected io o).context ≡ true
connected-context true o = refl
connected-context false o = refl

connected-header_written :
    (io : Bool) (o : Output) → (connected io o).header_written ≡ o.header_written
connected-header_written true o = refl
connected-header_written false o = refl

open_transport-IsOrdered :
    (now : ℕ) (a : Answers) (o : Output)
    → IsOrdered o
    → o.header_written ≡ false
    → IsOrdered (open_transport now a o).1
unfolding open_transport
open_transport-IsOrdered now a o s h =
    let made = record (called alloc_context o) { context = true } in
    let c = connected a.needs_io o in
    let timeout = pos_part o.config.timeout_ms in
    let k = connected-IsOrdered a.needs_io o s in
    let n : c.header_written ≡ false = connected-header_written a.needs_io o ∙ h in
    elim (Bool-cases a.context_made) [
      | inr e ↦ rw e (alloc-IsOrdered o s)
      | inl e ↦ elim (Bool-cases a.streams_made) [
        | inr f ↦ rw (e, f) (close-IsOrdered now made (made-IsOrdered o s))
        | inl f ↦ elim (Bool-cases (a.needs_io && not a.io_opened)) [
          | inl g ↦
              rw (e, f, g)
                (close-IsOrdered now (called open_io made)
                  (asked-IsOrdered made (made-IsOrdered o s) refl made.io))
          | inr g ↦ elim (Bool-cases a.header_accepted) [
            | inr x ↦
                rw (e, f, g, x)
                  (close-IsOrdered now (set_deadline now timeout c)
                    (later-IsOrdered now timeout c k n))
            | inl x ↦
                rw (e, f, g, x) (begun-IsOrdered now timeout c k n (connected-context a.needs_io o))
          ]
        ]
      ]
    ]

close-context : (now : ℕ) (o : Output) → IsOrdered o → (close now o).context ≡ false
unfolding close
close-context now o s = ground arith

module _ (backend : Protocol → Bool) where
  pub open_output-IsOrdered :
      (c : OutputConfig) (codecs stopping : Bool) (task now later : ℕ) (a : Answers) (o : Output)
      → IsOrdered o
      → IsOrdered (open_output backend c codecs stopping task now later a o).1
  unfolding open_output set_deadline
  open_output-IsOrdered c codecs stopping task now later a o s =
      let d = close-IsOrdered now o s in
      let shut = d.with_context (close-context now o s) in
      let e =
        set_deadline now (pos_part c.timeout_ms)
          (record (close now o) { config = c; task_deadline_us = task; cancelled = false }) in
      let ready : IsOrdered e = record {
        in_session = d.in_session;
        with_context = d.with_context;
        settled = d.settled;
        in_time = λ h. cc (shut.0);
      } in
      elim (Bool-cases (not (validate backend c) || not codecs)) [
        | inl refused ↦ rw refused d
        | inr valid ↦ elim (Bool-cases (interrupt now stopping e)) [
          | inl late ↦ rw valid (rw late ready)
          | inr early ↦ rw valid (rw early (open_transport-IsOrdered later a e ready shut.0))
        ]
      ]

-- ===== src/Streaming/Retries.antt =====
-- The retries of src/streaming_sink.cpp: how long they take, and what they leave behind.
use rtc_egress.Prelude.{
  ℕ, zero, suc, ◌+◌, ◌*◌, ◌≤◌, min, ◌≡◌, refl, ◌∙◌, arith, Bool, true, false, inl, inr, Bool-cases,
  length, total, pos_part, ◌||◌,
}
use rtc_egress.Streaming.Config.{SinkConfig}
use rtc_egress.Streaming.Sink.{
  World, Sink, tick, close, open_session, wait, retry, give_up, reconnect,
}

pub open_session-time : (w : World) (s : Sink) → (open_session w s).1.time ≡ suc s.time
unfolding open_session
open_session-time w s = ground arith

-- What the retries keep.
pub record Retried (left : ℕ) (s : Sink) (r : Bool × Sink) : Type 0 where
  pub later : s.time ≤ r.1.time
  pub count : length r.1.waits ≤ length s.waits + left
  pub waited : total r.1.waits ≤ total s.waits + left * 10000
  pub kept : r.1.failed ≡ s.failed
  pub opened : r.1.is_open ≡ r.0

pub retry-Retried :
    (w : World) (left d : ℕ) (s : Sink)
    → d ≤ 10000
    → s.is_open ≡ false
    → Retried left s (retry w left d s)
unfolding retry open_session
retry-Retried w zero d s h k = record {
  later = omega arith;
  count = omega arith;
  waited = omega arith;
  kept = refl;
  opened = k;
}
retry-Retried w (suc left) d s h k =
    let o = open_session w (tick (wait d s)) in
    let ih = retry-Retried w left (min (d * 2) 10000) (close o.1) (omega arith) refl in
    record {
      later = ground (arith, ih.later);
      count = ground (arith, ih.count);
      waited = ground (arith, ih.waited);
      kept = ground (arith, ih.kept);
      opened = ground (arith, ih.opened);
    }

-- What holds after `reconnect`.
pub record Reconnected (w : World) (c : SinkConfig) (s : Sink) (r : Bool × Sink) : Type 0 where
  pub later : s.time ≤ r.1.time
  pub count : length r.1.waits ≤ length s.waits + pos_part c.reconnect_attempts
  pub waited : total r.1.waits ≤ total s.waits + pos_part c.reconnect_attempts * 10000
  pub opened : r.1.is_open ≡ r.0
  pub over : r.1.reconnecting ≡ false
  pub cause :
      r.0 ≡ false
      → (t : ℕ) × (t ≤ r.1.time)
        × ((r.1.failed || (w.stops t || (w.overdue t || w.faults t))) ≡ true)

retry_reconnecting :
    (w : World) (left d : ℕ) (s : Sink)
    → (retry w left d s).0 ≡ true
    → (retry w left d s).1.reconnecting ≡ false
unfolding retry
retry_reconnecting w zero d s h = cc
retry_reconnecting w (suc left) d s h =
    let o = open_session w (tick (wait d s)) in
    ground (arith, retry_reconnecting w left (min (d * 2) 10000) (close o.1))

abbrev tried : World → SinkConfig → Sink → Bool × Sink
tried w c s =
    retry w (pos_part c.reconnect_attempts) (pos_part c.reconnect_delay_ms)
      (close (record s { reconnecting = true }))

-- With a delay of at most ten seconds, as `initialize` asks: `reconnect` waits at most as often as
-- the configuration allows, at most ten seconds each time, and is not reconnecting any more; it
-- succeeds exactly when the output is open, and fails only where the sink is failed, stopped, or
-- past its duration.
pub reconnect-Reconnected :
    (w : World) (c : SinkConfig) (s : Sink)
    → pos_part c.reconnect_delay_ms ≤ 10000
    → Reconnected w c s (reconnect w c s)
unfolding reconnect give_up
reconnect-Reconnected w c s h =
    let t =
      retry-Retried w (pos_part c.reconnect_attempts) (pos_part c.reconnect_delay_ms)
        (close (record s { reconnecting = true })) h refl in
    elim (Bool-cases (tried w c s).0) [
      | inl ok ↦
          let q =
            retry_reconnecting w (pos_part c.reconnect_attempts) (pos_part c.reconnect_delay_ms)
              (close (record s { reconnecting = true })) ok in
          rw ok (record {
            later = t.later;
            count = t.count;
            waited = t.waited;
            opened = t.opened ∙ ok;
            over = q;
            cause = λ n. cc;
          })
      | inr bad ↦ rw bad (record {
        later = ground (arith, t.later);
        count = ground (arith, t.count);
        waited = ground (arith, t.waited);
        opened = ground (arith, t.opened);
        over = ground arith;
        cause = λ _. ((tried w c s).1.time, ground arith, ground arith);
      })
    ]

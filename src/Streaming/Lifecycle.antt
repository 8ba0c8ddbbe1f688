-- ===== src/Streaming/Lifecycle.antt =====
-- src/streaming_sink.cpp: what a streaming sink accepts, and when it may be started and stopped.
use rtc_egress.Prelude.{
  ◌+◌, ◌%◌, ◌≤◌, String, List, [], ◌∷◌, ◌≡◌, arith, Bool, true, false, not, ◌&&◌, ◌||◌,
  if◌then◌else◌, ◌==◌, ℤ, pos, pos_part, ltb_ℤ, is_empty, length, total, str_eq,
}
use rtc_egress.Streaming.Config.{Protocol, SinkConfig}
use rtc_egress.Streaming.Url.{validate}
use rtc_egress.Streaming.Sink.{World, Sink, reconnect}
use rtc_egress.Streaming.Retries.{reconnect-Reconnected}

-- `joinable`: there is a thread that was not joined.
pub record Lifecycle : Type 0 where
  pub config : SinkConfig
  pub active : Bool
  pub joinable : Bool
  pub initialized : Bool
  pub stopping : Bool
  pub failed : Bool
  pub reconnecting : Bool

abbrev outside : ℤ → ℤ → ℤ → Bool
outside low high n = ltb_ℤ n low || ltb_ℤ high n

-- config.width % 2, behind the test that it is at least 2.
abbrev is_odd : ℤ → Bool
is_odd n = not (pos_part n % 2 == 0)

-- The guard of initialize.
unfoldable pub accepts : (Protocol → Bool) → SinkConfig → Bool
accepts backend c =
    validate backend c.output
    && (not (outside (pos 2) (pos 8192) c.width || outside (pos 2) (pos 8192) c.height)
        && (not (is_odd c.width || is_odd c.height)
            && (not (outside (pos 1) (pos 60) c.fps)
                && (not (ltb_ℤ c.max_duration_seconds (pos 1))
                    && (not (outside (pos 0) (pos 20) c.reconnect_attempts)
                        && not (outside (pos 100) (pos 10000) c.reconnect_delay_ms))))))

-- StreamingSink::initialize; `compositor_ready` is what the compositor's initialize answers.
unfoldable pub initialize : (Protocol → Bool) → Bool → SinkConfig → Lifecycle → Bool × Lifecycle
initialize backend compositor_ready c l =
    let u = record l { initialized = false } in
    if l.active || l.joinable
    then (false, l)
    else if not (accepts backend c)
    then (false, u)
    else if not compositor_ready
    then (false, record u { config = c })
    else (true, record u { config = c; failed = false; initialized = true })

-- StreamingSink::start; `thread_made` is false where std::thread throws.
unfoldable pub start : Bool → Lifecycle → Bool × Lifecycle
start thread_made l =
    let u = record l { stopping = false; failed = false; reconnecting = false } in
    if not l.initialized || (l.active || l.joinable)
    then (false, l)
    else if thread_made
    then (true, record u { active = true; joinable = true })
    else (false, record u { active = false; failed = true })

-- StreamingSink::stop, from another thread or from the publishing thread itself.
unfoldable pub stop : Bool → Lifecycle → Lifecycle
stop on_worker l =
    let u = record l { stopping = true } in
    if on_worker then u else record u { active = false; joinable = false; initialized = false }

-- StreamingSink::selected
abbrev is_among : String → List String → Bool
is_among id [] = false
is_among id (u ∷ us) = str_eq u id || is_among id us

unfoldable pub selected : List String → String → Bool
selected target_users id = is_empty target_users || is_among id target_users

-- The guards of onAudioFrame, with a callback's buffer.
unfoldable pub takes_audio : Lifecycle → String → Bool → ℤ → ℤ → ℤ → Bool
unfolding selected
takes_audio l id has_data samples rate channels =
    (l.active && not l.stopping)
    && (selected l.config.target_users id
        && (has_data
            && (not (outside (pos 1) (pos 48000) samples)
                && (not (outside (pos 8000) (pos 192000) rate)
                    && not (outside (pos 1) (pos 8) channels)))))

attempts_fit :
    (backend : Protocol → Bool) (c : SinkConfig)
    → accepts backend c ≡ true
    → pos_part c.reconnect_attempts ≤ 20
unfolding accepts
attempts_fit backend c h = ground arith

delay_fits :
    (backend : Protocol → Bool) (c : SinkConfig)
    → accepts backend c ≡ true
    → pos_part c.reconnect_delay_ms ≤ 10000
unfolding accepts
delay_fits backend c h = ground arith

accepted :
    (backend : Protocol → Bool) (ready : Bool) (c : SinkConfig) (l : Lifecycle)
    → (initialize backend ready c l).0 ≡ true
    → accepts backend c ≡ true
unfolding initialize
accepted backend ready c l h = ground arith

-- With a configuration that `initialize` has accepted, a reconnect of the publishing thread waits at
-- most twenty times, and at most 200 seconds in all, whatever the destination does; it is then over,
-- and it has succeeded exactly when the output is open.
pub initialize-reconnect :
    (backend : Protocol → Bool) (ready : Bool) (c : SinkConfig) (l : Lifecycle)
    → (initialize backend ready c l).0 ≡ true
    → (w : World) (s : Sink)
    → let r = reconnect w c s in
      (length r.1.waits ≤ length s.waits + 20)
      × (total r.1.waits ≤ total s.waits + 200000)
      × (r.1.reconnecting ≡ false)
      × (r.1.is_open ≡ r.0)
initialize-reconnect backend ready c l h w s =
    let a = accepted backend ready c l h in
    let k = attempts_fit backend c a in
    let r = reconnect-Reconnected w c s (delay_fits backend c a) in
    (omega (arith, r.count, k), omega (arith, r.waited, k), r.over, r.opened)

-- A sink that has started refuses `initialize` and `start`, and stays as it is; once another thread
-- has stopped it, `initialize` takes each configuration that it accepts, if the compositor does.
pub start-initialize :
    (backend : Protocol → Bool) (made made' ready : Bool) (c : SinkConfig) (l : Lifecycle)
    → (start made l).0 ≡ true
    → let u = (start made l).1 in
      (initialize backend ready c u ≡ (false, u))
      × (start made' u ≡ (false, u))
      × ((initialize backend ready c (stop false u)).0 ≡ (accepts backend c && ready))
unfolding initialize start stop
start-initialize backend made made' ready c l h = (ground arith, ground arith, ground arith)

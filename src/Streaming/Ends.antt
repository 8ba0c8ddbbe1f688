-- ===== src/Streaming/Ends.antt =====
-- The end of the publishing thread of src/streaming_sink.cpp, and its report.
use rtc_egress.Prelude.{
  ℕ, zero, suc, ◌+◌, ◌≤◌, ◌<◌, List, [], ◌∷◌, ◌≡◌, refl, arith, some, Bool, true, false,
  if◌then◌else◌, ◌⊎◌, inl, inr, Bool-cases, pos_part, ◌||◌,
}
use rtc_egress.Streaming.Config.{SinkConfig}
use rtc_egress.Streaming.Sink.{
  World, Sink, tick, close, fail, is_failed, is_over, open_session, reconnect, publish_media, ended,
  again, turn, publish_loop, connect_first, Report, failure_report, duration_report, report, run,
}
use rtc_egress.Streaming.Retries.{reconnect-Reconnected}

-- `stopping_`, the deadline, and a failure that another thread set stay as they are once they hold.
pub record IsLasting (w : World) : Type 0 where
  pub stops_last : (a b : ℕ) → a ≤ b → w.stops a ≡ true → w.stops b ≡ true
  pub overdue_lasts : (a b : ℕ) → a ≤ b → w.overdue a ≡ true → w.overdue b ≡ true
  pub faults_last : (a b : ℕ) → a ≤ b → w.faults a ≡ true → w.faults b ≡ true

-- The sink has a reason to end.
abbrev pub IsEnding : World → Sink → Type 0
IsEnding w s = (is_over w s || is_failed w s) ≡ true

publish_media-time : (w : World) (s : Sink) → s.time < (publish_media w s).1.time
unfolding publish_media
publish_media-time w s = ground arith

module _ (w : World) (c : SinkConfig) (lasting : IsLasting w) where
  lasts :
      (t : ℕ) (s : Sink)
      → t ≤ s.time
      → (s.failed || (w.stops t || (w.overdue t || w.faults t))) ≡ true
      → IsEnding w s
  lasts t s le h = ground (
    arith,
    lasting.stops_last t s.time le,
    lasting.overdue_lasts t s.time le,
    lasting.faults_last t s.time le,
  )

  module _ (delay_fits : pos_part c.reconnect_delay_ms ≤ 10000) where
    reconnect-IsEnding : (s : Sink) → (reconnect w c s).0 ≡ false → IsEnding w (reconnect w c s).1
    reconnect-IsEnding s h =
        let (t, le, e) = (reconnect-Reconnected w c s delay_fits).cause h in
        lasts t (reconnect w c s).1 le e

    turn_cases :
        (s : Sink)
        → ((u : Sink) × (turn w c s ≡ ended u) × IsEnding w u)
          ⊎ ((u : Sink) × (turn w c s ≡ again u) × (s.time < u.time) × (w.overdue s.time ≡ false))
    unfolding turn
    turn_cases s =
        let m = publish_media w (tick (tick s)) in
        let k = publish_media-time w (tick (tick s)) in
        let r = reconnect-Reconnected w c m.1 delay_fits in
        elim (Bool-cases (is_over w s || is_failed w s)) [
          | inl over ↦ inl (s, rw over, over)
          | inr on ↦ elim (Bool-cases (w.stops (suc s.time) || is_failed w (tick s))) [
            | inl stopping ↦ inl (tick s, rw on (rw stopping), ground arith)
            | inr live ↦ elim (Bool-cases (m.0 || is_over w m.1)) [
              | inl fine ↦ inr (m.1, rw on (rw live (rw fine)), omega arith, ground arith)
              | inr bad ↦ elim (Bool-cases m.1.output_failed) [
                | inr broken ↦
                    inr (fail m.1, rw on (rw live (rw bad (rw broken))), omega arith, ground arith)
                | inl lost ↦ elim (Bool-cases (reconnect w c m.1).0) [
                  | inl back ↦ inr (
                    (reconnect w c m.1).1,
                    rw on (rw live (rw bad (rw lost (rw back)))),
                    omega (arith, r.later),
                    ground arith,
                  )
                  | inr gone ↦ inl (
                    (reconnect w c m.1).1,
                    rw on (rw live (rw bad (rw lost (rw gone)))),
                    reconnect-IsEnding m.1 gone,
                  )
                ]
              ]
            ]
          ]
        ]

    -- With a deadline at `d`, the loop ends within the turns up to it.
    publish_loop_ends :
        (d fuel : ℕ) (s : Sink)
        → w.overdue d ≡ true
        → d + 2 ≤ s.time + fuel
        → 1 ≤ fuel
        → (u : Sink) × (publish_loop fuel w c s ≡ some u) × IsEnding w u
    unfolding publish_loop
    publish_loop_ends d zero s o le one = absurd (omega arith)
    publish_loop_ends d (suc fuel) s o le one = elim (turn_cases s) [
      | inl (u, e, end) ↦ (u, rw (e, publish_loop), end)
      | inr (u, e, later, early) ↦
          let before : s.time < d = ground (arith, lasting.overdue_lasts d s.time) in
          let (v, f, end) = publish_loop_ends d fuel u o (omega arith) (omega arith) in
          (v, rw (e, publish_loop) f, end)
    ]

    connect_first_later : (s : Sink) → s.time ≤ (connect_first w c s).1.time
    unfolding connect_first open_session
    connect_first_later s =
        let r = reconnect-Reconnected w c (open_session w s).1 delay_fits in ground (arith, r.later)

    connect_first-IsEnding :
        (s : Sink) → (connect_first w c s).0 ≡ false → IsEnding w (connect_first w c s).1
    unfolding connect_first
    connect_first-IsEnding s h = ground arith

    -- The thread ends: with a task's deadline at reading `d` it needs no more than the turns up to
    -- that, given a retry delay of at most ten seconds and flags that stay set. It leaves the output
    -- closed. If it was stopped it reports nothing; else it reports once, if there is a callback:
    -- the failure if it has failed, and the end of the duration if not.
    pub run_reports :
        (d fuel : ℕ) (s : Sink) (has_callback : Bool)
        → w.overdue d ≡ true
        → d + 2 ≤ s.time + fuel
        → 1 ≤ fuel
        → (u : Sink) × (reports : List Report) × (run fuel w c has_callback s ≡ some (u, reports))
          × (u.is_open ≡ false)
          × (w.stops u.time ≡ true → reports ≡ [])
          × (w.stops u.time ≡ false
              → has_callback ≡ true
              → reports
                ≡ (if is_failed w u then failure_report u.failure else duration_report) ∷ [])
    unfolding run report
    run_reports d fuel s has_callback o le one = elim (Bool-cases (connect_first w c s).0) [
      | inl up ↦
          let (u, e, end) =
            publish_loop_ends d fuel (connect_first w c s).1 o
              (omega (arith, connect_first_later s)) one in
          (
            close u,
            report w has_callback u,
            rw (up, run) (rw (e, run)),
            refl,
            (λ h. ground arith),
            (λ h k. ground arith),
          )
      | inr down ↦
          let u = (connect_first w c s).1 in
          let end = connect_first-IsEnding s down in
          (
            close u,
            report w has_callback u,
            rw (down, run),
            refl,
            (λ h. ground arith),
            (λ h k. ground arith),
          )
    ]

-- ===== src/Layout/Stability.antt =====
-- How often src/layout_detector.cpp changes the layout, and what the callback gets.
use rtc_egress.Prelude.{
  ℕ, ◌+◌, ◌*◌, ◌≤◌, ◌<◌, String, List, [], ◌∷◌, ◌≡◌, refl, arith, true, false, inl, inr, ◌⊎◌, not,
  length, Bool-cases, sub64, ltb, if◌then◌else◌, ◌||◌,
}
use rtc_egress.Layout.Order.{contains, contains-sort_texts}
use rtc_egress.Layout.Defs.{LayoutDetector}
use rtc_egress.Layout.Detect.{
  update_user_states, check_layout_change, change_layout, new_layout, same_texts, included, detect,
}

-- With clocks that do not run backwards: a change waits for the stability time since the last one.
pub record IsSteady (now : ℕ) (d : LayoutDetector) : Type 0 where
  pub rate : d.layout_changes * d.config.layout_stability_ms ≤ d.last_layout_change_ms
  pub past : d.last_layout_change_ms ≤ now
  pub called : d.has_callback ≡ true → length d.notified ≡ d.layout_changes

update_user_states-IsSteady :
    (now : ℕ) (later : String → ℕ) (k : ℕ) (d : LayoutDetector)
    → IsSteady k d
    → IsSteady k (update_user_states now later d)
unfolding update_user_states
update_user_states-IsSteady now later k d s = ground arith

waited :
    (now last wait : ℕ)
    → last ≤ now
    → now < 18446744073709551616
    → ltb (sub64 now last) wait ≡ false
    → last + wait ≤ now
waited now last wait le lt h = ground arith

change_layout-IsSteady :
    (now : ℕ) (layout : List String) (before : ℕ) (d : LayoutDetector)
    → d.last_layout_change_ms + d.config.layout_stability_ms ≤ now
    → IsSteady before d
    → IsSteady now (change_layout now layout d)
unfolding change_layout
change_layout-IsSteady now layout before d w s = record {
  rate = omega (arith, s.rate);
  past = omega arith;
  called = λ h. ground (arith, s.called h);
}

later-IsSteady :
    (now before : ℕ) (d : LayoutDetector) → before ≤ now → IsSteady before d → IsSteady now d
later-IsSteady now before d le s = record {
  rate = s.rate;
  past = omega (arith, s.past);
  called = s.called;
}

check_layout_change-IsSteady :
    (now : ℕ) (later : String → ℕ) (before : ℕ) (d : LayoutDetector)
    → before ≤ now
    → now < 18446744073709551616
    → IsSteady before d
    → IsSteady now (check_layout_change now later d)
unfolding check_layout_change
check_layout_change-IsSteady now later before d le lt s =
    elim (Bool-cases
      (not d.running || ltb (sub64 now d.last_layout_change_ms) d.config.layout_stability_ms)) [
        | inl early ↦ rw early (later-IsSteady now before d le s)
        | inr due ↦ rw due (elim (Bool-cases (same_texts (new_layout later d) d.current_layout)) [
          | inl same ↦ rw same (later-IsSteady now before d le s)
          | inr new ↦ rw new (
              change_layout-IsSteady now (new_layout later d) before d
                (waited now d.last_layout_change_ms d.config.layout_stability_ms
                  (omega (arith, s.past)) lt (ground arith))
                s)
        ])
      ]

-- One call of `checkLayoutChange` leaves the detector as it is, or the time since the last change is
-- at least the stability time and the new layout, which differs from the old one, holds exactly the
-- users to include; the callback, if there is one, gets that layout.
pub check_layout_change_lem :
    (now : ℕ) (later : String → ℕ) (d : LayoutDetector)
    → let e = check_layout_change now later d in
      (e ≡ d)
      ⊎ ((d.running ≡ true)
          × (d.config.layout_stability_ms ≤ sub64 now d.last_layout_change_ms)
          × (same_texts e.current_layout d.current_layout ≡ false)
          × ((id : String)
              → contains id e.current_layout ≡ contains id (included d.config later d.users))
          × (e.last_layout_change_ms ≡ now)
          × (e.notified ≡ (if d.has_callback then e.current_layout ∷ d.notified else d.notified)))
unfolding check_layout_change
check_layout_change_lem now later d =
    elim (Bool-cases
      (not d.running || ltb (sub64 now d.last_layout_change_ms) d.config.layout_stability_ms)) [
        | inl early ↦ inl (rw early)
        | inr due ↦ elim (Bool-cases (same_texts (new_layout later d) d.current_layout)) [
          | inl same ↦ inl (rw due (rw same))
          | inr new ↦ rw due (
              rw new (
                unfold change_layout in
                inr (
                  ground arith,
                  ground arith,
                  new,
                  (λ id. contains-sort_texts id (included d.config later d.users)),
                  refl,
                  refl,
                )))
        ]
      ]

-- A round of the detection thread: the two clock readings of its two steps.
pub rounds : List (ℕ × (String → ℕ) × ℕ × (String → ℕ)) → LayoutDetector → LayoutDetector
rounds [] d = d
rounds ((now, later, now', later') ∷ rs) d = rounds rs (detect now later now' later' d)

-- The clocks of the layout checks do not run backwards, and stay below 2 ^ 64.
abbrev pub Ordered : ℕ → List (ℕ × (String → ℕ) × ℕ × (String → ℕ)) → ℕ → Type 0
Ordered before [] end = before ≤ end
Ordered before ((now, later, now', later') ∷ rs) end =
    (before ≤ now') × (now' < 18446744073709551616) × Ordered now' rs end

detect-IsSteady :
    (now : ℕ) (later : String → ℕ) (now' : ℕ) (later' : String → ℕ) (before : ℕ)
    (d : LayoutDetector)
    → before ≤ now'
    → now' < 18446744073709551616
    → IsSteady before d
    → IsSteady now' (detect now later now' later' d)
unfolding detect
detect-IsSteady now later now' later' before d le lt s =
    check_layout_change-IsSteady now' later' before (update_user_states now later d) le lt
      (update_user_states-IsSteady now later before d s)

-- Over any rounds of the thread whose layout checks read a clock that does not run backwards and is
-- below 2 ^ 64, a detector stays steady: the number of layout changes times the stability time is at
-- most the time of the last change, that time is not behind the clock, and a callback that is set has
-- got as many layouts as there were changes.
pub rounds-IsSteady :
    (rs : List (ℕ × (String → ℕ) × ℕ × (String → ℕ))) (before end : ℕ) (d : LayoutDetector)
    → Ordered before rs end
    → IsSteady before d
    → IsSteady end (rounds rs d)
unfolding rounds
rounds-IsSteady [] before end d o s = later-IsSteady end before d o s
rounds-IsSteady ((now, later, now', later') ∷ rs) before end d o s =
    rounds-IsSteady rs now' end (detect now later now' later' d) o.2
      (detect-IsSteady now later now' later' before d o.0 o.1 s)

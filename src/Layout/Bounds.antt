-- ===== src/Layout/Bounds.antt =====
-- How many users src/layout_detector.cpp tracks, and which.
use rtc_egress.Prelude.{
  ℕ, ◌≤◌, String, List, [], ◌∷◌, ◌≡◌, sym, subst, arith, true, false, some, none, inl, inr, lookup,
  insert, Dict, length, All, All-insert, All-lookup, is_empty, Option-cases, Bool-cases,
}
use rtc_egress.Layout.Order.{insert_sorted, length-insert_sorted_le, contains}
use rtc_egress.Layout.Defs.{
  UserInfo, new_user, Config, LayoutDetector, admits, seen_again, on_user_frame,
}
use rtc_egress.Layout.Detect.{
  update_users, drop_gone, update_user_states, check_layout_change, change_layout, detect,
  update_user, is_gone,
}

-- The users that a detector may track, by its configuration.
pub record Tracks (c : Config) (m : Dict UserInfo) : Type 0 where
  pub few : is_empty c.expected_users ≡ true → length m ≤ c.max_users
  pub expected :
      is_empty c.expected_users ≡ false → All (λ e. contains e.0 c.expected_users ≡ true) m

length-insert_known :
    (k : String) (v u : UserInfo) (m : Dict UserInfo)
    → lookup k m ≡ some u
    → length (insert k v m) ≡ length m
unfolding insert lookup
length-insert_known k v u [] e = cc
length-insert_known k v u ((j, w) ∷ m) e = ground (arith, length-insert_known k v u m)

All-insert_sorted :
    (P : String × UserInfo → Type 0) (k : String) (v : UserInfo) (m : Dict UserInfo)
    → P (k, v)
    → All P m
    → All P (insert_sorted k v m)
unfolding insert_sorted
All-insert_sorted P k v [] p h = (p, tt)
All-insert_sorted P k v ((j, w) ∷ m) p h = ground (arith, All-insert_sorted P k v m p h.1)

abbrev IsExpected : Config → String × UserInfo → Type 0
IsExpected c e = contains e.0 c.expected_users ≡ true

-- A frame keeps what holds of every entry, if a new entry has it and the user's own entry keeps it.
on_user_frame-All :
    (P : String × UserInfo → Type 0) (id : String) (timestamp : ℕ) (d : LayoutDetector)
    → (lookup id d.users ≡ none
        → admits d.config (length d.users) id ≡ true
        → P (id, new_user id timestamp))
    → ((u : UserInfo) → lookup id d.users ≡ some u → P (id, seen_again id timestamp u))
    → All P d.users
    → All P (on_user_frame id timestamp d).0.users
unfolding on_user_frame
on_user_frame-All P id timestamp d new old h = elim (Option-cases (lookup id d.users)) [
  | inl n ↦ elim (Bool-cases (admits d.config (length d.users) id)) [
    | inl a ↦ ground (arith, All-insert_sorted P id (new_user id timestamp) d.users (new n a) h)
    | inr r ↦ ground arith
  ]
  | inr (u, k) ↦ ground (arith, All-insert P id (seen_again id timestamp u) d.users (old u k) h)
]

on_user_frame-few :
    (id : String) (timestamp : ℕ) (d : LayoutDetector)
    → is_empty d.config.expected_users ≡ true
    → length d.users ≤ d.config.max_users
    → length (on_user_frame id timestamp d).0.users ≤ d.config.max_users
unfolding on_user_frame
on_user_frame-few id timestamp d h few = elim (Option-cases (lookup id d.users)) [
  | inl n ↦ ground (arith, length-insert_sorted_le id (new_user id timestamp) d.users)
  | inr (u, k) ↦ ground (arith, length-insert_known id (seen_again id timestamp u) u d.users k)
]

on_user_frame-config :
    (id : String) (timestamp : ℕ) (d : LayoutDetector)
    → (on_user_frame id timestamp d).0.config ≡ d.config
unfolding on_user_frame
on_user_frame-config id timestamp d = ground arith

admits-expected :
    (c : Config) (n : ℕ) (id : String)
    → is_empty c.expected_users ≡ false
    → admits c n id ≡ true
    → contains id c.expected_users ≡ true
admits-expected c n id h a = ground arith

pub on_user_frame-Tracks :
    (id : String) (timestamp : ℕ) (d : LayoutDetector)
    → Tracks d.config d.users
    → Tracks d.config (on_user_frame id timestamp d).0.users
on_user_frame-Tracks id timestamp d t = record {
  few = λ h. on_user_frame-few id timestamp d h (t.few h);
  expected = λ h.
      on_user_frame-All (IsExpected d.config) id timestamp d
        (λ _ a. admits-expected d.config (length d.users) id h a)
        (λ u k. All-lookup (IsExpected d.config) id d.users (t.expected h) k) (t.expected h);
}

module _ (c : Config) (now : ℕ) (later : String → ℕ) where
  kept-length :
      (m : Dict UserInfo) → length (drop_gone c now (update_users c now later m)) ≤ length m
  unfolding update_users drop_gone
  kept-length [] = omega arith
  kept-length ((k, u) ∷ m) = elim (Bool-cases (is_gone c now (update_user c now (later k) u))) [
    | inl gone ↦ rw gone (omega (arith, kept-length m))
    | inr kept ↦ rw kept (omega (arith, kept-length m))
  ]

  kept-All :
      (e : Config) (m : Dict UserInfo)
      → All (IsExpected e) m
      → All (IsExpected e) (drop_gone c now (update_users c now later m))
  unfolding update_users drop_gone
  kept-All e [] h = tt
  kept-All e ((k, u) ∷ m) h = elim (Bool-cases (is_gone c now (update_user c now (later k) u))) [
    | inl gone ↦ rw gone (kept-All e m h.1)
    | inr kept ↦ rw kept (h.0, kept-All e m h.1)
  ]

update_user_states-Tracks :
    (now : ℕ) (later : String → ℕ) (d : LayoutDetector)
    → Tracks d.config d.users
    → Tracks d.config (update_user_states now later d).users
unfolding update_user_states
update_user_states-Tracks now later d t = elim (Bool-cases d.running) [
  | inl r ↦
      rw (r, update_user_states)
        (record {
          few = λ h. omega (arith, t.few h, kept-length d.config now later d.users);
          expected = λ h. kept-All d.config now later d.config d.users (t.expected h);
        })
  | inr r ↦ rw (r, update_user_states) t
]

check_layout_change-users :
    (now : ℕ) (later : String → ℕ) (d : LayoutDetector)
    → (check_layout_change now later d).users ≡ d.users
unfolding check_layout_change change_layout
check_layout_change-users now later d = ground arith

-- One round of the detection thread.
pub detect-Tracks :
    (now : ℕ) (later : String → ℕ) (now' : ℕ) (later' : String → ℕ) (d : LayoutDetector)
    → Tracks d.config d.users
    → Tracks d.config (detect now later now' later' d).users
unfolding detect
detect-Tracks now later now' later' d t =
    subst (Tracks d.config)
      (sym (check_layout_change-users now' later' (update_user_states now later d)))
      (update_user_states-Tracks now later d t)

pub detect-config :
    (now : ℕ) (later : String → ℕ) (now' : ℕ) (later' : String → ℕ) (d : LayoutDetector)
    → (detect now later now' later' d).config ≡ d.config
unfolding detect update_user_states check_layout_change change_layout
detect-config now later now' later' d = ground arith

-- What the detector meets: a frame, or a round of its thread with its clocks.
pub data Event : Type 0 where
  frame : String → ℕ → Event
  round : ℕ → (String → ℕ) → ℕ → (String → ℕ) → Event

pub step : Event → LayoutDetector → LayoutDetector
step (frame id timestamp) d = (on_user_frame id timestamp d).0
step (round now later now' later') d = detect now later now' later' d

pub run : LayoutDetector → List Event → LayoutDetector
run d [] = d
run d (e ∷ es) = run (step e d) es

step-config : (e : Event) (d : LayoutDetector) → (step e d).config ≡ d.config
unfolding step
step-config (frame id timestamp) d = on_user_frame-config id timestamp d
step-config (round now later now' later') d = detect-config now later now' later' d

step-Tracks :
    (e : Event) (d : LayoutDetector) → Tracks d.config d.users → Tracks d.config (step e d).users
unfolding step
step-Tracks (frame id timestamp) d t = on_user_frame-Tracks id timestamp d t
step-Tracks (round now later now' later') d t = detect-Tracks now later now' later' d t

-- Over any frames and rounds of the thread, whatever the clocks, a detector keeps tracking, with no
-- expected users, at most `max_users` users, and with expected users, only those.
pub run-Tracks :
    (es : List Event) (d : LayoutDetector)
    → Tracks d.config d.users
    → Tracks d.config (run d es).users
unfolding run
run-Tracks [] d t = t
run-Tracks (e ∷ es) d t =
    let c = step-config e d in
    subst (λ k. Tracks k (run (step e d) es).users) c
      (run-Tracks es (step e d)
        (subst (λ k. Tracks k (step e d).users) (sym c) (step-Tracks e d t)))

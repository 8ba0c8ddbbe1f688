-- ===== src/Layout/Detect.antt =====
-- The detection thread of src/layout_detector.cpp: updateUserStates and checkLayoutChange.
use rtc_egress.Prelude.{
  ℕ, suc, ◌*◌, ◌/◌, ◌%◌, String, List, [], ◌∷◌, Bool, true, false, not, Dict, if◌then◌else◌, str_eq,
  ◌||◌, ◌&&◌, ltb, leb, sub64,
}
use rtc_egress.Layout.Order.{sort_texts}
use rtc_egress.Layout.Defs.{
  UserState, joining, active, leaving, left, UserInfo, Config, LayoutDetector, is_left,
}

-- (currentTime - user.lastFrameMs) < config_.framePresenceTimeoutMs
abbrev pub is_recent : Config → ℕ → UserInfo → Bool
is_recent c now u = ltb (sub64 now u.last_frame_ms) c.frame_presence_timeout_ms

-- LayoutDetector::isUserStable, which reads the clock itself.
unfoldable pub is_user_stable : Config → ℕ → UserInfo → Bool
is_user_stable c now u =
    leb (c.layout_stability_ms / 3) (sub64 now u.first_seen_ms)
    && (leb 5 u.frame_count && is_recent c now u)

-- The `switch` of updateUserStates; `now` is its clock, `later` the one that isUserStable reads.
unfoldable pub next_state : Config → ℕ → ℕ → UserInfo → UserState
unfolding is_user_stable
next_state c now later u = elim u.state [
  | joining ↦
      if is_recent c now u && is_user_stable c later u
      then active
      else if not (is_recent c now u) && ltb c.user_timeout_ms (sub64 now u.first_seen_ms)
      then left
      else joining
  | active ↦ if is_recent c now u then active else leaving
  | leaving ↦
      if is_recent c now u
      then active
      else if ltb c.user_timeout_ms (sub64 now u.last_frame_ms)
      then left
      else leaving
  | left ↦ left
]

unfoldable pub update_user : Config → ℕ → ℕ → UserInfo → UserInfo
unfolding next_state
update_user c now later u = record u { state = next_state c now later u; has_recent_frames = false }

-- LEFT for too long; `userTimeoutMs * 2` wraps around.
abbrev pub is_gone : Config → ℕ → UserInfo → Bool
is_gone c now u =
    is_left u.state
    && ltb ((c.user_timeout_ms * 2) % 18446744073709551616) (sub64 now u.last_frame_ms)

unfoldable pub update_users : Config → ℕ → (String → ℕ) → Dict UserInfo → Dict UserInfo
unfolding update_user
update_users c now later [] = []
update_users c now later ((k, u) ∷ m) =
    (k, update_user c now (later k) u) ∷ update_users c now later m

unfoldable pub drop_gone : Config → ℕ → Dict UserInfo → Dict UserInfo
drop_gone c now [] = []
drop_gone c now ((k, u) ∷ m) =
    if is_gone c now u then drop_gone c now m else (k, u) ∷ drop_gone c now m

-- LayoutDetector::updateUserStates; `later` gives the clock that isUserStable reads for a user.
unfoldable pub update_user_states : ℕ → (String → ℕ) → LayoutDetector → LayoutDetector
update_user_states now later d =
    if d.running
    then record d { users = drop_gone d.config now (update_users d.config now later d.users) }
    else d

-- LayoutDetector::shouldIncludeInLayout
unfoldable pub should_include : Config → ℕ → UserInfo → Bool
unfolding is_user_stable
should_include c now u = elim u.state [
  | active ↦ true
  | joining ↦ is_user_stable c now u
  | leaving ↦ false
  | left ↦ false
]

unfoldable pub included : Config → (String → ℕ) → Dict UserInfo → List String
unfolding should_include
included c later [] = []
included c later ((k, u) ∷ m) =
    if should_include c (later k) u then k ∷ included c later m else included c later m

unfoldable pub same_texts : List String → List String → Bool
same_texts [] [] = true
same_texts [] (_ ∷ _) = false
same_texts (_ ∷ _) [] = false
same_texts (a ∷ l) (b ∷ bs) = str_eq a b && same_texts l bs

-- The layout that checkLayoutChange computes.
abbrev pub new_layout : (String → ℕ) → LayoutDetector → List String
new_layout later d = sort_texts (included d.config later d.users)

-- The write of a new layout, with the call of the callback.
unfoldable pub change_layout : ℕ → List String → LayoutDetector → LayoutDetector
change_layout now layout d = record d {
  current_layout = layout;
  last_layout_change_ms = now;
  layout_changes = suc d.layout_changes;
  notified = if d.has_callback then layout ∷ d.notified else d.notified;
}

-- LayoutDetector::checkLayoutChange
unfoldable pub check_layout_change : ℕ → (String → ℕ) → LayoutDetector → LayoutDetector
check_layout_change now later d =
    if not d.running || ltb (sub64 now d.last_layout_change_ms) d.config.layout_stability_ms
    then d
    else if same_texts (new_layout later d) d.current_layout
    then d
    else change_layout now (new_layout later d) d

-- One round of LayoutDetector::detectionThread.
unfoldable pub detect : ℕ → (String → ℕ) → ℕ → (String → ℕ) → LayoutDetector → LayoutDetector
detect now later now' later' d = check_layout_change now' later' (update_user_states now later d)

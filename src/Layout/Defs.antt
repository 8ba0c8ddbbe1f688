-- ===== src/Layout/Defs.antt =====
-- src/include/layout_detector.h: users, configuration, and the calls that the detector answers.
-- Times are uint64_t, whose subtraction wraps around.
use rtc_egress.Prelude.{
  ℕ, suc, String, List, [], ◌∷◌, ◌++◌, none, some, Bool, true, false, not, Dict, if◌then◌else◌,
  lookup, insert, str_eq, length, ◌||◌, ltb, leb, sub64, is_empty,
}
use rtc_egress.Layout.Order.{insert_sorted, contains}

pub data UserState : Type 0 where
  joining active leaving left : UserState

pub record UserInfo : Type 0 where
  pub user_id : String
  pub state : UserState
  pub first_seen_ms : ℕ
  pub last_frame_ms : ℕ
  pub frame_count : ℕ
  pub has_recent_frames : Bool

-- UserInfo(id, timestamp)
abbrev pub new_user : String → ℕ → UserInfo
new_user id timestamp = record {
  user_id = id;
  state = joining;
  first_seen_ms = timestamp;
  last_frame_ms = timestamp;
  frame_count = 0;
  has_recent_frames = false;
}

pub record Config : Type 0 where
  pub user_timeout_ms : ℕ
  pub layout_stability_ms : ℕ
  pub frame_presence_timeout_ms : ℕ
  pub expected_users : List String
  pub max_users : ℕ

-- `notified` holds the layouts that the callback got, newest first.
pub record LayoutDetector : Type 0 where
  pub config : Config
  pub running : Bool
  pub users : Dict UserInfo
  pub current_layout : List String
  pub last_layout_change_ms : ℕ
  pub has_callback : Bool
  pub notified : List (List String)
  pub total_frames_processed : ℕ
  pub layout_changes : ℕ

-- LayoutDetector::initialize; `now` is the clock.
expect_all : ℕ → List String → Dict UserInfo → Dict UserInfo
expect_all now [] m = m
expect_all now (u ∷ us) m = expect_all now us (insert_sorted u (new_user u now) m)

pub initialize : Config → ℕ → LayoutDetector → LayoutDetector × Bool
unfolding expect_all
initialize c now d =
    if d.running
    then (d, false)
    else (record d { config = c; users = expect_all now c.expected_users d.users }, true)

is_shown : UserState → Bool
is_shown active = true
is_shown joining = true
is_shown _ = false

-- LayoutDetector::getActiveUsersWithoutLock
unfoldable pub active_users : Dict UserInfo → List String
unfolding is_shown
active_users [] = []
active_users ((k, u) ∷ m) = if is_shown u.state then k ∷ active_users m else active_users m

-- The `else` branch of onUserFrame: a frame of a user that is tracked.
unfoldable pub seen_again : String → ℕ → UserInfo → UserInfo
seen_again id timestamp u =
    let v = record u {
      last_frame_ms = timestamp;
      frame_count = suc u.frame_count;
      has_recent_frames = true;
    } in
    elim u.state [
      | leaving ↦ record v { state = active }
      | left ↦ new_user id timestamp
      | joining ↦ v
      | active ↦ v
    ]

-- Whether a user that is not tracked yet is taken in.
abbrev pub admits : Config → ℕ → String → Bool
admits c tracked id =
    if is_empty c.expected_users then ltb tracked c.max_users else contains id c.expected_users

-- LayoutDetector::onUserFrame
unfoldable pub on_user_frame : String → ℕ → LayoutDetector → LayoutDetector × List String
on_user_frame id timestamp d =
    if not d.running || str_eq id ""
    then (d, [])
    else let e = record d { total_frames_processed = suc d.total_frames_processed } in
      elim (lookup id d.users) [
        | none ↦
            if admits d.config (length d.users) id
            then (let f = record e { users = insert_sorted id (new_user id timestamp) d.users } in
                (f, active_users f.users))
            else (e, [])
        | some u ↦
            let f = record e { users = insert id (seen_again id timestamp u) d.users } in
            (f, active_users f.users)
      ]

-- LayoutDetector::getUserState
pub get_user_state : String → LayoutDetector → UserState
get_user_state id d = elim (lookup id d.users) [ none ↦ left | some u ↦ u.state ]

abbrev pub is_left : UserState → Bool
is_left left = true
is_left _ = false

-- LayoutDetector::getUserCount
pub get_user_count : Dict UserInfo → ℕ
get_user_count [] = 0
get_user_count ((_, u) ∷ m) = if is_left u.state then get_user_count m else suc (get_user_count m)

-- LayoutDetector::shouldUpdateLayout
pub should_update_layout : ℕ → LayoutDetector → Bool
should_update_layout now d = leb d.config.layout_stability_ms (sub64 now d.last_layout_change_ms)

-- A user that is expected and not tracked is taken in.
abbrev expect : ℕ → String → Dict UserInfo → Dict UserInfo
expect now u m = elim (lookup u m) [ none ↦ insert_sorted u (new_user u now) m | some _ ↦ m ]

-- LayoutDetector::setExpectedUsers
expect_new : ℕ → List String → Dict UserInfo → Dict UserInfo
expect_new now [] m = m
expect_new now (u ∷ us) m = expect_new now us (expect now u m)

pub set_expected_users : ℕ → List String → LayoutDetector → LayoutDetector
unfolding expect_new
set_expected_users now us d = record d {
  config = record d.config { expected_users = us };
  users = expect_new now us d.users;
}

-- LayoutDetector::addExpectedUser
pub add_expected_user : ℕ → String → LayoutDetector → LayoutDetector
add_expected_user now u d = if contains u d.config.expected_users then d else record d {
  config = record d.config { expected_users = d.config.expected_users ++ u ∷ [] };
  users = expect now u d.users;
}

-- expectedUsers.erase(it): the first of that name.
unfoldable pub remove_first : String → List String → List String
remove_first a [] = []
remove_first a (b ∷ bs) = if str_eq b a then bs else b ∷ remove_first a bs

-- LayoutDetector::removeExpectedUser
unfoldable pub remove_expected_user : String → LayoutDetector → LayoutDetector
unfolding remove_first
remove_expected_user id d = record d {
  config = record d.config { expected_users = remove_first id d.config.expected_users };
  users = elim (lookup id d.users) [
    | none ↦ d.users
    | some u ↦ if is_left u.state then d.users else insert id (record u { state = leaving }) d.users
  ];
}

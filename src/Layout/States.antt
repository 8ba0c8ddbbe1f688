-- ===== src/Layout/States.antt =====
-- How the state of a user moves in src/layout_detector.cpp.
use rtc_egress.Prelude.{
  ℕ, suc, ◌+◌, ◌≤◌, ◌<◌, String, ◌≡◌, refl, arith, true, false, some, lookup, insert,
  lookup-insert_self, str_eq,
}
use rtc_egress.Layout.Defs.{
  active, leaving, left, UserInfo, Config, LayoutDetector, seen_again, on_user_frame,
  remove_expected_user, is_left,
}
use rtc_egress.Layout.Detect.{update_user}

-- A user that sends no frame has left after two looks, the first no sooner than the presence timeout
-- after its last frame, the second no sooner than the first and later than the user timeout after that
-- frame, with a first frame that is not after the last one and clocks below 2 ^ 64.
pub silent_user_leaves :
    (c : Config) (now later now' later' : ℕ) (u : UserInfo)
    → u.first_seen_ms ≤ u.last_frame_ms
    → u.last_frame_ms + c.frame_presence_timeout_ms ≤ now
    → now ≤ now'
    → now' < 18446744073709551616
    → u.last_frame_ms + c.user_timeout_ms < now'
    → (update_user c now' later' (update_user c now later u)).state ≡ left
unfolding update_user
silent_user_leaves c now later now' later' u a b d e f = ground arith

-- In a detector that runs, a user that is tracked and has not left, and whose id is not empty, is
-- active again with its next frame after it was removed from the expected users.
pub removed_user_returns :
    (d : LayoutDetector) (id : String) (u : UserInfo) (timestamp : ℕ)
    → d.running ≡ true
    → str_eq id "" ≡ false
    → lookup id d.users ≡ some u
    → is_left u.state ≡ false
    → let e = (on_user_frame id timestamp (remove_expected_user id d)).0 in
      (v : UserInfo) × (lookup id e.users ≡ some v) × (v.state ≡ active)
unfolding on_user_frame remove_expected_user seen_again
removed_user_returns d id u timestamp r n found here = (
  record u {
    state = active;
    last_frame_ms = timestamp;
    frame_count = suc u.frame_count;
    has_recent_frames = true;
  },
  ground (
    arith,
    lookup-insert_self id (record u { state = leaving }) d.users,
    lookup-insert_self id
        (record u {
          state = active;
          last_frame_ms = timestamp;
          frame_count = suc u.frame_count;
          has_recent_frames = true;
        })
        (insert id (record u { state = leaving }) d.users),
  ),
  refl,
)

-- ===== src/Segments/Runs.antt =====
-- A whole session of src/ts_segment_manager.cpp.
use rtc_egress.Prelude.{ℕ, List, [], ◌∷◌, ◌≡◌, refl, arith, some, Bool, true, false, All, is_empty}
use rtc_egress.Segments.Defs.{
  SegmentInfo, Manager, complete_segments, generate_hls_playlist, is_begun, update_playlist,
  finalize_current_segment, finalize_begun, rotate_to_new_segment, start_new_session,
  end_current_session, cleanup,
}
use rtc_egress.Segments.Numbering.{
  IsFinished, InOrder, finalize_current_segment-InOrder, finalize_begun-InOrder,
  rotate_to_new_segment-InOrder, end_current_session-InOrder,
}

-- The calls within a session, with the clock and what the file system answers.
pub data Operation : Type 0 where
  rotating : ℕ → ℕ → Bool → Bool → Operation
  finalizing : ℕ → Bool → Bool → Operation
  ending : ℕ → Bool → Bool → Operation
  cleaning : ℕ → Bool → Bool → Operation

pub operate : Operation → Manager → Manager
operate (rotating now later renamed opened) m = (rotate_to_new_segment now later renamed opened m).1
operate (finalizing now renamed opened) m = (finalize_current_segment now renamed opened m).1
operate (ending now renamed opened) m = end_current_session now renamed opened m
operate (cleaning now renamed opened) m = cleanup now renamed opened m

pub operate_all : List Operation → Manager → Manager
operate_all [] m = m
operate_all (k ∷ ks) m = operate_all ks (operate k m)

operate-InOrder : (k : Operation) (m : Manager) → InOrder m → InOrder (operate k m)
unfolding operate cleanup
operate-InOrder (rotating now later renamed opened) m s =
    rotate_to_new_segment-InOrder now later renamed opened m s
operate-InOrder (finalizing now renamed opened) m s =
    finalize_current_segment-InOrder now renamed opened m s
operate-InOrder (ending now renamed opened) m s = end_current_session-InOrder now renamed opened m s
operate-InOrder (cleaning now renamed opened) m s = finalize_begun-InOrder now renamed opened m s

operate_all-InOrder : (ks : List Operation) (m : Manager) → InOrder m → InOrder (operate_all ks m)
unfolding operate_all
operate_all-InOrder [] m s = s
operate_all-InOrder (k ∷ ks) m s = operate_all-InOrder ks (operate k m) (operate-InOrder k m s)

-- A session that begins while no segment is unfinished, over any calls and whatever the file system
-- answers: its segments are complete, their numbers rise, each has the file name of its number, the
-- unfinished one has a higher number than all of them, the next one a higher one still, and the total
-- duration is the sum of theirs.
pub start_new_session-InOrder :
    (id : List ℕ) (now : ℕ) (made : Bool) (m : Manager) (ks : List Operation)
    → is_begun m ≡ false
    → InOrder (operate_all ks (start_new_session id now made m).1)
unfolding start_new_session
start_new_session-InOrder id now made m ks idle =
    operate_all-InOrder ks (start_new_session id now made m).1
      (record { finished = tt; rising = tt; summed = refl; newest = λ b. cc })

complete_segments-All :
    (bound : ℕ) (ss : List SegmentInfo) → All (IsFinished bound) ss → complete_segments ss ≡ ss
unfolding complete_segments
complete_segments-All bound [] f = refl
complete_segments-All bound (s ∷ ss) f =
    ground (arith, f.0.complete, complete_segments-All bound ss f.1)

-- At the end of a session in order, with playlists asked for and a file that opens, the playlist
-- lists all segments of the session, if there is one.
pub end_current_session-playlist :
    (now : ℕ) (renamed : Bool) (m : Manager)
    → InOrder m
    → m.generate_playlist ≡ true
    → is_empty (end_current_session now renamed true m).session.segments ≡ false
    → (end_current_session now renamed true m).playlist
      ≡ some (end_current_session now renamed true m).session.segments
unfolding end_current_session generate_hls_playlist finalize_current_segment update_playlist
end_current_session-playlist now renamed m s g h =
    let k = finalize_begun-InOrder now renamed true m s in
    let f = (finalize_begun now renamed true m).1 in
    ground
      (arith, complete_segments-All f.session.current_segment_number f.session.segments k.finished)

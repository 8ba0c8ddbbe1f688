-- ===== src/Segments/Defs.antt =====
-- src/ts_segment_manager.cpp and src/include/ts_segment_manager.h: the state, and the operations.
--
-- A duration is a number of clock ticks; the rounding of its double is left out. What the file
-- system answers is an argument.
use rtc_egress.Prelude.{
  ℕ, suc, ◌+◌, ◌-◌, List, [], ◌∷◌, ◌++◌, Option, none, some, Bool, true, false, not, ◌&&◌, ◌||◌,
  ◌/◌, leb, is_empty, if◌then◌else◌,
}
use rtc_egress.Segments.Names.{segment_filename}

-- An empty `filename` is a segment that was never begun; `temp_filename` is it with ".tmp" behind.
pub record SegmentInfo : Type 0 where
  pub filename : List ℕ
  pub start_time : ℕ
  pub duration : ℕ
  pub segment_number : ℕ
  pub is_complete : Bool

pub record SessionInfo : Type 0 where
  pub session_id : List ℕ
  pub segments : List SegmentInfo
  pub session_start_time : ℕ
  pub current_segment_number : ℕ
  pub total_duration : ℕ

-- `playlist`: what the session's playlist file lists, if it was written.
pub record Manager : Type 0 where
  pub segment_duration : ℕ
  pub generate_playlist : Bool
  pub session : SessionInfo
  pub current : SegmentInfo
  pub playlist : Option (List SegmentInfo)

abbrev pub no_segment : SegmentInfo
no_segment = record {
  filename = [];
  start_time = 0;
  duration = 0;
  segment_number = 0;
  is_complete = false;
}

-- The entries that generateHLSPlaylist writes.
unfoldable pub complete_segments : List SegmentInfo → List SegmentInfo
complete_segments [] = []
complete_segments (s ∷ ss) =
    if s.is_complete then s ∷ complete_segments ss else complete_segments ss

-- generateHLSPlaylist; `opened` says whether the file opens.
unfoldable pub generate_hls_playlist : Bool → Manager → Manager
generate_hls_playlist opened m =
    if opened then record m { playlist = some (complete_segments m.session.segments) } else m

-- updatePlaylistWithNewSegment
unfoldable pub update_playlist : Bool → SegmentInfo → Manager → Manager
unfolding generate_hls_playlist
update_playlist opened segment m =
    if not m.generate_playlist || not segment.is_complete then m else generate_hls_playlist opened m

-- !currentSegment_.filename.empty() && !currentSegment_.isComplete
abbrev pub is_unfinished : SegmentInfo → Bool
is_unfinished s = not (is_empty s.filename) && not s.is_complete

abbrev pub is_begun : Manager → Bool
is_begun m = is_unfinished m.current

-- finalizeCurrentSegment at `now`; `renamed` is false where safeRename throws.
unfoldable pub finalize_current_segment : ℕ → Bool → Bool → Manager → Bool × Manager
unfolding update_playlist
finalize_current_segment now renamed opened m =
    let segment = record m.current { is_complete = true; duration = now - m.current.start_time } in
    let session = record m.session {
      segments = m.session.segments ++ segment ∷ [];
      total_duration = m.session.total_duration + segment.duration;
    } in
    if not (is_begun m)
    then (true, m)
    else if renamed
    then (true, update_playlist opened segment (record m { session = session; current = segment }))
    else (false, m)

abbrev pub finalize_begun : ℕ → Bool → Bool → Manager → Bool × Manager
finalize_begun now renamed opened m =
    if is_begun m then finalize_current_segment now renamed opened m else (true, m)

-- rotateToNewSegment; `later` is the clock at the new segment's start.
unfoldable pub rotate_to_new_segment : ℕ → ℕ → Bool → Bool → Manager → Bool × Manager
unfolding finalize_current_segment
rotate_to_new_segment now later renamed opened m =
    let (ok, f) = finalize_begun now renamed opened m in
    let number = f.session.current_segment_number in
    if ok
    then (
      true,
      record f {
        session = record f.session { current_segment_number = suc number };
        current = record no_segment {
          segment_number = number;
          filename = segment_filename number;
          start_time = later;
        };
      },
    )
    else (false, f)

-- startNewSession; `made` says whether the session's directory could be made.
unfoldable pub start_new_session : List ℕ → ℕ → Bool → Manager → Bool × Manager
start_new_session id now made m =
    let s : SessionInfo = record {
      session_id = id;
      segments = [];
      session_start_time = now;
      current_segment_number = 1;
      total_duration = 0;
    } in
    (made, record m { session = s; playlist = if made then none else m.playlist })

-- endCurrentSession
unfoldable pub end_current_session : ℕ → Bool → Bool → Manager → Manager
unfolding finalize_current_segment generate_hls_playlist
end_current_session now renamed opened m =
    let f = (finalize_begun now renamed opened m).1 in
    if f.generate_playlist && not (is_empty f.session.segments)
    then generate_hls_playlist opened f
    else f

-- cleanup
unfoldable pub cleanup : ℕ → Bool → Bool → Manager → Manager
unfolding finalize_current_segment
cleanup now renamed opened m = (finalize_begun now renamed opened m).1

-- shouldRotateSegment, in ticks of a second.
unfoldable pub should_rotate_segment : ℕ → ℕ → Manager → Bool
should_rotate_segment ticks_per_second now m =
    not (is_empty m.current.filename)
    && leb m.segment_duration ((now - m.current.start_time) / ticks_per_second)

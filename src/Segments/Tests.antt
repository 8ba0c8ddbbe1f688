-- ===== src/Segments/Tests.antt =====
-- The theorems on src/ts_segment_manager.cpp at a short session.
use rtc_egress.Prelude.{List, [], ◌∷◌, ◌≡◌, refl, some, none, true, false, arith}
use rtc_egress.Segments.Names.{segment_filename}
use rtc_egress.Segments.Defs.{
  SegmentInfo, SessionInfo, Manager, no_segment, start_new_session, end_current_session,
}
use rtc_egress.Segments.Numbering.{InOrder}
use rtc_egress.Segments.Runs.{
  Operation, rotating, ending, operate_all, start_new_session-InOrder, end_current_session-playlist,
}

abbrev idle : Manager
idle = record {
  segment_duration = 10;
  generate_playlist = true;
  session = record {
    session_id = [];
    segments = [];
    session_start_time = 0;
    current_segment_number = 1;
    total_duration = 0;
  };
  current = no_segment;
  playlist = none;
}

-- Two segments, a rename that fails once, and the end.
abbrev hour : List Operation
hour =
    rotating 1 2 true true
    ∷ rotating 12 13 false true
    ∷ rotating 14 15 true true
    ∷ ending 20 true true
    ∷ []

start_new_session-InOrder_example :
    InOrder (operate_all hour (start_new_session (b'a' ∷ []) 0 true idle).1)
start_new_session-InOrder_example = start_new_session-InOrder (b'a' ∷ []) 0 true idle hour refl

abbrev first : SegmentInfo
first = record {
  filename = segment_filename 1;
  start_time = 2;
  duration = 12;
  segment_number = 1;
  is_complete = true;
}

-- One finished segment, and none begun.
abbrev recorded : Manager
recorded = record idle {
  session = record idle.session {
    segments = first ∷ [];
    current_segment_number = 2;
    total_duration = 12;
  };
}

recorded-InOrder : InOrder recorded
recorded-InOrder = record {
  finished = (record { below = omega arith; complete = refl; named = refl }, tt);
  rising = (omega arith, tt);
  summed = refl;
  newest = λ b. cc;
}

end_current_session-playlist_example :
    (end_current_session 20 true true recorded).playlist
    ≡ some (end_current_session 20 true true recorded).session.segments
unfolding end_current_session rtc_egress.Segments.Defs.generate_hls_playlist
end_current_session-playlist_example =
    end_current_session-playlist 20 true recorded recorded-InOrder refl refl

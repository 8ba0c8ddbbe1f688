-- ===== src/Segments/Numbering.antt =====
-- The segments of one session of src/ts_segment_manager.cpp, over any operations.
use rtc_egress.Prelude.{
  ℕ, suc, ◌+◌, ◌-◌, ◌≤◌, ◌<◌, List, [], ◌∷◌, ◌++◌, ◌≡◌, refl, sym, subst, arith, Bool, true, not,
  inl, inr, Bool-cases, All, All-append, total, is_empty, map, ◌&&◌,
}
use rtc_egress.Segments.Names.{segment_filename}
use rtc_egress.Segments.Defs.{
  SegmentInfo, SessionInfo, Manager, no_segment, generate_hls_playlist, update_playlist,
  is_unfinished, is_begun, finalize_current_segment, finalize_begun, rotate_to_new_segment,
  end_current_session,
}

-- A finished segment of a session, with a number below `bound`.
pub record IsFinished (bound : ℕ) (s : SegmentInfo) : Type 0 where
  pub below : s.segment_number < bound
  pub complete : s.is_complete ≡ true
  pub named : s.filename ≡ segment_filename s.segment_number

-- The numbers rise, from `low` on.
abbrev pub Rising : ℕ → List SegmentInfo → Type 0
Rising low [] = Unit
Rising low (s ∷ ss) = (low ≤ s.segment_number) × Rising (suc s.segment_number) ss

abbrev pub durations : List SegmentInfo → List ℕ
durations ss = map (λ s. s.duration) ss

-- A session with its current segment.
pub record IsNumbered (s : SessionInfo) (c : SegmentInfo) : Type 0 where
  pub finished : All (IsFinished s.current_segment_number) s.segments
  pub rising : Rising 0 s.segments
  pub summed : s.total_duration ≡ total (durations s.segments)
  pub newest :
      is_unfinished c ≡ true
      → (c.segment_number < s.current_segment_number)
        × (c.filename ≡ segment_filename c.segment_number)
        × All (IsFinished c.segment_number) s.segments

abbrev pub InOrder : Manager → Type 0
InOrder m = IsNumbered m.session m.current

Rising-append :
    (low bound : ℕ) (ss : List SegmentInfo) (s : SegmentInfo)
    → Rising low ss
    → All (IsFinished bound) ss
    → low ≤ bound
    → bound ≤ s.segment_number
    → Rising low (ss ++ s ∷ [])
Rising-append low bound [] s r f l b = (omega arith, tt)
Rising-append low bound (x ∷ ss) s r f l b =
    (r.0, Rising-append (suc x.segment_number) bound ss s r.1 f.1 (omega (arith, f.0.below)) b)

total-durations :
    (ss : List SegmentInfo) (s : SegmentInfo)
    → total (durations (ss ++ s ∷ [])) ≡ total (durations ss) + s.duration
total-durations [] s = omega arith
total-durations (x ∷ ss) s = omega (arith, total-durations ss s)

update_playlist-session :
    (opened : Bool) (s : SegmentInfo) (m : Manager)
    → ((update_playlist opened s m).session ≡ m.session)
      × ((update_playlist opened s m).current ≡ m.current)
unfolding update_playlist generate_hls_playlist
update_playlist-session opened s m = (ground arith, ground arith)

IsFinished-mono :
    (low high : ℕ) (ss : List SegmentInfo)
    → low ≤ high
    → All (IsFinished low) ss
    → All (IsFinished high) ss
IsFinished-mono low high [] l f = tt
IsFinished-mono low high (s ∷ ss) l f = (
  record { below = omega (arith, f.0.below); complete = f.0.complete; named = f.0.named },
  IsFinished-mono low high ss l f.1,
)

-- The manager with the current segment finished at `now`.
abbrev finished_at : ℕ → Manager → Manager
finished_at now m =
    let segment = record m.current { is_complete = true; duration = now - m.current.start_time } in
    record m {
      session = record m.session {
        segments = m.session.segments ++ segment ∷ [];
        total_duration = m.session.total_duration + segment.duration;
      };
      current = segment;
    }

finished_at-InOrder :
    (now : ℕ) (m : Manager) → InOrder m → is_begun m ≡ true → InOrder (finished_at now m)
finished_at-InOrder now m s b =
    let (low, name, older) = s.newest b in
    let segment : SegmentInfo = record m.current {
      is_complete = true;
      duration = now - m.current.start_time;
    } in
    record {
      finished =
          All-append (IsFinished m.session.current_segment_number) m.session.segments (segment ∷ [])
            (IsFinished-mono m.current.segment_number m.session.current_segment_number
              m.session.segments (omega arith) older)
            (record { below = low; complete = refl; named = name }, tt);
      rising =
          Rising-append 0 m.current.segment_number m.session.segments segment s.rising older
            (omega arith) (omega arith);
      summed = omega (arith, s.summed, total-durations m.session.segments segment);
      newest = λ h. absurd (ground arith);
    }

InOrder-same :
    (m n : Manager) → n.session ≡ m.session → n.current ≡ m.current → InOrder m → InOrder n
InOrder-same m n e f s =
    subst (λ x. IsNumbered x n.current) (sym e) (subst (IsNumbered m.session) (sym f) s)

pub finalize_current_segment-InOrder :
    (now : ℕ) (renamed opened : Bool) (m : Manager)
    → InOrder m
    → InOrder (finalize_current_segment now renamed opened m).1
unfolding finalize_current_segment
finalize_current_segment-InOrder now renamed opened m s = elim (Bool-cases (is_begun m)) [
  | inr idle ↦ rw (idle, finalize_current_segment) s
  | inl begun ↦ elim (Bool-cases renamed) [
    | inr lost ↦ rw (begun, finalize_current_segment) (rw (lost, finalize_current_segment) s)
    | inl done ↦
        let f = finished_at now m in
        let same = update_playlist-session opened f.current f in
        rw (begun, finalize_current_segment)
          (rw (done, finalize_current_segment)
            (InOrder-same f (update_playlist opened f.current f) same.0 same.1
              (finished_at-InOrder now m s begun)))
  ]
]

pub finalize_begun-InOrder :
    (now : ℕ) (renamed opened : Bool) (m : Manager)
    → InOrder m
    → InOrder (finalize_begun now renamed opened m).1
finalize_begun-InOrder now renamed opened m s = elim (Bool-cases (is_begun m)) [
  | inl begun ↦ rw begun (finalize_current_segment-InOrder now renamed opened m s)
  | inr idle ↦ rw idle s
]

rotated-InOrder :
    (later : ℕ) (m : Manager)
    → InOrder m
    → let number = m.session.current_segment_number in
      IsNumbered
        (record m.session { current_segment_number = suc number })
        (record no_segment {
          segment_number = number;
          filename = segment_filename number;
          start_time = later;
        })
rotated-InOrder later m s = record {
  finished =
      IsFinished-mono m.session.current_segment_number (suc m.session.current_segment_number)
        m.session.segments (omega arith) s.finished;
  rising = s.rising;
  summed = s.summed;
  newest = λ _. (omega arith, refl, s.finished);
}

pub rotate_to_new_segment-InOrder :
    (now later : ℕ) (renamed opened : Bool) (m : Manager)
    → InOrder m
    → InOrder (rotate_to_new_segment now later renamed opened m).1
unfolding rotate_to_new_segment
rotate_to_new_segment-InOrder now later renamed opened m s =
    let f = finalize_begun-InOrder now renamed opened m s in
    elim (Bool-cases (finalize_begun now renamed opened m).0) [
      | inl ok ↦ rw ok (rotated-InOrder later (finalize_begun now renamed opened m).1 f)
      | inr bad ↦ rw bad f
    ]

generate_hls_playlist-same :
    (opened : Bool) (m : Manager)
    → ((generate_hls_playlist opened m).session ≡ m.session)
      × ((generate_hls_playlist opened m).current ≡ m.current)
unfolding generate_hls_playlist
generate_hls_playlist-same opened m = (ground arith, ground arith)

pub end_current_session-InOrder :
    (now : ℕ) (renamed opened : Bool) (m : Manager)
    → InOrder m
    → InOrder (end_current_session now renamed opened m)
unfolding end_current_session
end_current_session-InOrder now renamed opened m s =
    let f = (finalize_begun now renamed opened m).1 in
    let k = finalize_begun-InOrder now renamed opened m s in
    elim (Bool-cases (f.generate_playlist && not (is_empty f.session.segments))) [
      | inl listed ↦
          let same = generate_hls_playlist-same opened f in
          rw listed (InOrder-same f (generate_hls_playlist opened f) same.0 same.1 k)
      | inr plain ↦ rw plain k
    ]

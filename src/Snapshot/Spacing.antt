-- ===== src/Snapshot/Spacing.antt =====
-- How far snapshots are apart, over every order of the steps.
use rtc_egress.Prelude.{
  ℕ, ◌+◌, ◌≤◌, String, List, [], ◌∷◌, Option, none, some, Bool, true, false, not, ◌||◌, ltb,
  if◌then◌else◌, ◌≡◌, refl, sym, subst, arith, Bool-cases, Option-cases, ◌⊎◌, inl, inr,
}
use rtc_egress.Snapshot.Defs.{
  FrameData, Saving, Snapshot, SnapshotSink, on_video_frame, on_composed_frame, take_frame,
  named_frame, name_frame, save_frame, saved_frame, should_capture_user, is_early,
}
use rtc_egress.Snapshot.Steps.{Step, time_of, step, run, InTime}

-- A frame that came in before the latest of these snapshots was done, or an interval at least after the
-- time in its name.
abbrev pub IsApart : ℕ → List Snapshot → ℕ → Type 0
IsApart interval [] received = Unit
IsApart interval (p ∷ ps) received = (received ≤ p.done) ⊎ (p.named + interval ≤ received)

-- So is the frame of each snapshot of those before it.
unfoldable pub AreSpaced : ℕ → List Snapshot → Type 0
AreSpaced interval [] = Unit
AreSpaced interval (p ∷ ps) = IsApart interval ps p.received × AreSpaced interval ps

-- The time that is stored is that of the latest snapshot.
abbrev pub IsLatest : ℕ → List Snapshot → Type 0
IsLatest last [] = Unit
IsLatest last (p ∷ ps) = p.named ≡ last

-- A frame that waits.
abbrev pub IsWaiting : ℕ → List Snapshot → ℕ → Option FrameData → Type 0
IsWaiting interval ps now none = Unit
IsWaiting interval ps now (some f) = IsApart interval ps f.received × (f.received ≤ now)

abbrev pub IsTaken : ℕ → List Snapshot → Option Saving → Type 0
IsTaken interval ps none = Unit
IsTaken interval ps (some w) = IsApart interval ps w.frame.received

-- At the time `now`.
pub record IsSpaced (now : ℕ) (s : SnapshotSink) : Type 0 where
  pub waiting : IsWaiting s.config.interval s.snapshots now s.current
  pub taken : IsTaken s.config.interval s.snapshots s.saving
  pub latest : IsLatest s.last_snapshot_time s.snapshots
  pub spaced : AreSpaced s.config.interval s.snapshots

IsWaiting-later :
    (interval : ℕ) (ps : List Snapshot) (now later : ℕ) (o : Option FrameData)
    → now ≤ later
    → IsWaiting interval ps now o
    → IsWaiting interval ps later o
IsWaiting-later interval ps now later none l h = tt
IsWaiting-later interval ps now later (some f) l h = (h.0, omega (arith, h.1))

IsSpaced-later :
    (now later : ℕ) (s : SnapshotSink) → now ≤ later → IsSpaced now s → IsSpaced later s
IsSpaced-later now later s l h = record {
  waiting = IsWaiting-later s.config.interval s.snapshots now later s.current l h.waiting;
  taken = h.taken;
  latest = h.latest;
  spaced = h.spaced;
}

late_lem :
    (interval last now : ℕ) (ps : List Snapshot)
    → IsLatest last ps
    → ltb now (last + interval) ≡ false
    → IsApart interval ps now
late_lem interval last now [] h e = tt
late_lem interval last now (p ∷ ps) h e = inr (ground arith)

-- A frame that is not early may wait.
waits-IsSpaced :
    (now : ℕ) (user : String) (s : SnapshotSink)
    → is_early now s ≡ false
    → IsSpaced now s
    → IsSpaced now (record s { current = some (record { user = user; received = now }) })
waits-IsSpaced now user s e h = record {
  waiting =
      (late_lem s.config.interval s.last_snapshot_time now s.snapshots h.latest e, omega arith);
  taken = h.taken;
  latest = h.latest;
  spaced = h.spaced;
}

either :
    {A : Type 0} (P : A → Type 0) (b : Bool) (x y : A)
    → (b ≡ true → P x)
    → (b ≡ false → P y)
    → P (if b then x else y)
either P true x y f g = f refl
either P false x y f g = g refl

on_video_frame-IsSpaced :
    (now : ℕ) (user : String) (is_valid : Bool) (s : SnapshotSink)
    → IsSpaced now s
    → IsSpaced now (on_video_frame now user is_valid s)
unfolding on_video_frame
on_video_frame-IsSpaced now user is_valid s h =
    let waiting : SnapshotSink = record s {
      current = some (record { user = user; received = now });
    } in
    either (IsSpaced now) (not s.is_capturing) s _ (λ _. h)
      (λ _.
        either (IsSpaced now) (not (should_capture_user s.config user)) s _ (λ _. h)
          (λ _.
            either (IsSpaced now) (is_early now s) s _ (λ _. h)
              (λ late.
                either (IsSpaced now) (not is_valid || s.config.is_composite) s waiting (λ _. h)
                  (λ _. waits-IsSpaced now user s late h))))

on_composed_frame-IsSpaced :
    (now : ℕ) (is_valid : Bool) (s : SnapshotSink)
    → IsSpaced now s
    → IsSpaced now (on_composed_frame now is_valid s)
unfolding on_composed_frame
on_composed_frame-IsSpaced now is_valid s h =
    let waiting : SnapshotSink = record s {
      current = some (record { user = "composed"; received = now });
    } in
    either (IsSpaced now) (not s.is_capturing) s _ (λ _. h)
      (λ _.
        either (IsSpaced now) (is_early now s) s _ (λ _. h)
          (λ late.
            either (IsSpaced now) (not is_valid) s waiting (λ _. h)
              (λ _. waits-IsSpaced now "composed" s late h)))

-- What take_frame does: nothing, or it takes what waits.
take_frame_lem :
    (s : SnapshotSink)
    → (take_frame s ≡ s)
      ⊎ ((f : FrameData) × (s.current ≡ some f)
          × (take_frame s
              ≡ record s { current = none; saving = some (record { frame = f; named = none }) }))
unfolding take_frame
take_frame_lem s = elim (Option-cases s.saving) [
  | inr (f, e) ↦ inl (simp (take_frame, e))
  | inl free ↦ elim (Option-cases s.current) [
    | inl none_waits ↦ inl (simp (take_frame, free, none_waits))
    | inr (f, e) ↦ elim (Bool-cases s.stop_requested) [
      | inl stops ↦ inl (simp (take_frame, free, e, stops))
      | inr goes ↦ inr (f, e, simp (take_frame, free, e, goes))
    ]
  ]
]

take_frame-IsSpaced : (now : ℕ) (s : SnapshotSink) → IsSpaced now s → IsSpaced now (take_frame s)
take_frame-IsSpaced now s h = elim (take_frame_lem s) [
  | inl same ↦ subst (IsSpaced now) (sym same) h
  | inr (f, e, moved) ↦ subst (IsSpaced now) (sym moved) (record {
    waiting = tt;
    taken = (subst (IsWaiting s.config.interval s.snapshots now) e h.waiting).0;
    latest = h.latest;
    spaced = h.spaced;
  })
]

name_frame-none : (now : ℕ) (s : SnapshotSink) → s.saving ≡ none → name_frame now s ≡ s
unfolding name_frame
name_frame-none now s e = simp (name_frame, e)

name_frame-some :
    (now : ℕ) (s : SnapshotSink) (w : Saving)
    → s.saving ≡ some w
    → name_frame now s ≡ named_frame now w.frame w.named s
unfolding name_frame
name_frame-some now s w e = simp (name_frame, e)

named_frame-IsSpaced :
    (now t : ℕ) (f : FrameData) (named : Option ℕ) (s : SnapshotSink)
    → IsApart s.config.interval s.snapshots f.received
    → IsSpaced now s
    → IsSpaced now (named_frame t f named s)
named_frame-IsSpaced now t f (some u) s k h = h
named_frame-IsSpaced now t f none s k h = record {
  waiting = h.waiting;
  taken = k;
  latest = h.latest;
  spaced = h.spaced;
}

name_frame-IsSpaced :
    (now t : ℕ) (s : SnapshotSink) → IsSpaced now s → IsSpaced now (name_frame t s)
name_frame-IsSpaced now t s h = elim (Option-cases s.saving) [
  | inl free ↦ subst (IsSpaced now) (sym (name_frame-none t s free)) h
  | inr (w, e) ↦ subst (IsSpaced now) (sym (name_frame-some t s w e)) (
      named_frame-IsSpaced now t w.frame w.named s
        (subst (IsTaken s.config.interval s.snapshots) e h.taken) h)
]

save_frame-none :
    (now : ℕ) (encoded : Bool) (s : SnapshotSink) → s.saving ≡ none → save_frame now encoded s ≡ s
unfolding save_frame
save_frame-none now encoded s e = simp (save_frame, e)

save_frame-some :
    (now : ℕ) (encoded : Bool) (s : SnapshotSink) (w : Saving)
    → s.saving ≡ some w
    → save_frame now encoded s ≡ saved_frame now encoded w.frame w.named s
unfolding save_frame
save_frame-some now encoded s w e = simp (save_frame, e)

-- A frame that waits came in before now.
IsWaiting-saved :
    (interval now : ℕ) (p : Snapshot) (ps : List Snapshot) (o : Option FrameData)
    → p.done ≡ now
    → IsWaiting interval ps now o
    → IsWaiting interval (p ∷ ps) now o
IsWaiting-saved interval now p ps none e h = tt
IsWaiting-saved interval now p ps (some f) e h = (inl (omega (arith, h.1)), h.1)

saved_frame-IsSpaced :
    (now : ℕ) (encoded : Bool) (f : FrameData) (named : Option ℕ) (s : SnapshotSink)
    → IsApart s.config.interval s.snapshots f.received
    → IsSpaced now s
    → IsSpaced now (saved_frame now encoded f named s)
unfolding AreSpaced
saved_frame-IsSpaced now encoded f none s k h = h
saved_frame-IsSpaced now false f (some t) s k h = record {
  waiting = h.waiting;
  taken = tt;
  latest = h.latest;
  spaced = h.spaced;
}
saved_frame-IsSpaced now true f (some t) s k h = record {
  waiting =
      IsWaiting-saved s.config.interval now
        (record { user = f.user; received = f.received; named = t; done = now }) s.snapshots
        s.current refl h.waiting;
  taken = tt;
  latest = refl;
  spaced = (k, h.spaced);
}

save_frame-IsSpaced :
    (now : ℕ) (encoded : Bool) (s : SnapshotSink)
    → IsSpaced now s
    → IsSpaced now (save_frame now encoded s)
save_frame-IsSpaced now encoded s h = elim (Option-cases s.saving) [
  | inl free ↦ subst (IsSpaced now) (sym (save_frame-none now encoded s free)) h
  | inr (w, e) ↦ subst (IsSpaced now) (sym (save_frame-some now encoded s w e)) (
      saved_frame-IsSpaced now encoded w.frame w.named s
        (subst (IsTaken s.config.interval s.snapshots) e h.taken) h)
]

step-IsSpaced :
    (k : Step) (now : ℕ) (s : SnapshotSink)
    → now ≤ time_of k
    → IsSpaced now s
    → IsSpaced (time_of k) (step k s)
unfolding step
step-IsSpaced (Step.video later user is_valid) now s l h =
    on_video_frame-IsSpaced later user is_valid s (IsSpaced-later now later s l h)
step-IsSpaced (Step.composed later is_valid) now s l h =
    on_composed_frame-IsSpaced later is_valid s (IsSpaced-later now later s l h)
step-IsSpaced (Step.taking later) now s l h =
    take_frame-IsSpaced later s (IsSpaced-later now later s l h)
step-IsSpaced (Step.naming later) now s l h =
    name_frame-IsSpaced later later s (IsSpaced-later now later s l h)
step-IsSpaced (Step.saving_at later encoded) now s l h =
    save_frame-IsSpaced later encoded s (IsSpaced-later now later s l h)

run-IsSpaced :
    (ks : List Step) (now : ℕ) (s : SnapshotSink)
    → InTime now ks
    → IsSpaced now s
    → (end : ℕ) × IsSpaced end (run ks s)
unfolding run
run-IsSpaced [] now s l h = (now, h)
run-IsSpaced (k ∷ ks) now s l h =
    run-IsSpaced ks (time_of k) (step k s) l.1 (step-IsSpaced k now s l.0 h)

-- Over frames and the steps of the capture thread in any order, while the clock does not go back, from
-- a sink that is so spaced: the frame of each snapshot came in an interval at least after the time in the
-- name of the snapshot before it, or before that one was done; and the time that is stored is the one
-- in the name of the latest snapshot, if any.
pub run-AreSpaced :
    (ks : List Step) (now : ℕ) (s : SnapshotSink)
    → InTime now ks
    → IsSpaced now s
    → AreSpaced (run ks s).config.interval (run ks s).snapshots
      × IsLatest (run ks s).last_snapshot_time (run ks s).snapshots
run-AreSpaced ks now s l h = let end = (run-IsSpaced ks now s l h).1 in (end.spaced, end.latest)

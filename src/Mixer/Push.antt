-- ===== src/Mixer/Push.antt =====
-- What push of src/audio_mixer.cpp stores.
use rtc_egress.Prelude.{
  ℕ, suc, ◌+◌, ◌-◌, ◌/◌, ◌≤◌, String, List, [], ◌∷◌, ◌++◌, ◌≡◌, refl, arith, Option, none, some,
  true, false, inl, inr, Bool-cases, Option-cases, ◌⊎◌, ◌<◌, ltb, length, drop, lookup,
  lookup-insert, lookup-insert_self, length-drop, ap, ◌∙◌, All, All-insert, str_eq,
}
use rtc_egress.Mixer.Defs.{Tick, Input, Mixer, anchor, next_tick, trim, extend, input_or_new, push}

abbrev pub first_after : ℕ → Option ℕ → Option ℕ
first_after k first = elim first [ none ↦ none | some n ↦ some (n + k) ]

-- The loop leaves the newest `limit` ticks, and counts those that go.
trim_lem :
    (limit : ℕ) (ts : List Tick) (first : Option ℕ)
    → trim limit ts first ≡ (drop (length ts - limit) ts, first_after (length ts - limit) first)
unfolding trim
trim_lem limit [] first = let e : 0 - limit ≡ 0 = omega arith in rw e (at_end first)
  where
    at_end : (f : Option ℕ) → ◌≡◌ {A = List Tick × Option ℕ} ([], f) ([], first_after 0 f)
    at_end none = refl
    at_end (some n) = ground arith
trim_lem limit (t ∷ ts) first = elim (Bool-cases (ltb limit (suc (length ts)))) [
  | inl over ↦ rw (over, trim_lem limit ts (next_tick first)) (step first (ground arith))
  | inr fits ↦ rw fits (keep first (ground arith))
]
  where
    step :
        (f : Option ℕ)
        → suc (length ts) - limit ≡ suc (length ts - limit)
        → ◌≡◌ {A = List Tick × Option ℕ}
            (drop (length ts - limit) ts, first_after (length ts - limit) (next_tick f))
            (drop (suc (length ts) - limit) (t ∷ ts), first_after (suc (length ts) - limit) f)
    step none e = rw e refl
    step (some n) e = rw e (ground arith)

    keep :
        (f : Option ℕ)
        → suc (length ts) - limit ≡ 0
        → ◌≡◌ {A = List Tick × Option ℕ}
            (t ∷ ts, f)
            (drop (suc (length ts) - limit) (t ∷ ts), first_after (suc (length ts) - limit) f)
    keep none e = rw e refl
    keep (some n) e = rw e (ground arith)

-- An input whose ticks are anchored.
abbrev pub joined : ℕ → ℕ → List Tick → Input → List Tick
joined rate at ticks i = (anchor rate at i).samples ++ ticks

extend_lem :
    (rate at now : ℕ) (ticks : List Tick) (i : Input)
    → let ts = joined rate at ticks i in
      extend rate at now ticks i ≡ record {
        samples = drop (length ts - rate / 2) ts;
        first_sample = first_after (length ts - rate / 2) (anchor rate at i).first_sample;
        last_arrival = now;
      }
unfolding extend
extend_lem rate at now ticks i =
    rw (trim_lem (rate / 2) (joined rate at ticks i) (anchor rate at i).first_sample) refl

-- Half a second at most.
abbrev pub IsShort : ℕ → String × Input → Type 0
IsShort rate e = length e.1.samples ≤ rate / 2

extend-IsShort :
    (rate at now : ℕ) (ticks : List Tick) (i : Input) (user : String)
    → IsShort rate (user, extend rate at now ticks i)
extend-IsShort rate at now ticks i user =
    let ts = joined rate at ticks i in
    rw (extend_lem rate at now ticks i) (omega (arith, length-drop (length ts - rate / 2) ts))

-- The frame begins no later than a tenth of a second behind the input's end: its ticks join the old ones.
abbrev pub Continues : ℕ → ℕ → Input → List Tick → ℕ → Type 0
Continues rate at i old start =
    (first : ℕ) × (i.first_sample ≡ some first)
    × (at ≤ first + length i.samples + rate / 10)
    × (old ≡ i.samples)
    × (start ≡ first)

-- The input is new, or the frame begins later: its ticks stand alone, at their own time.
abbrev pub Restarts : ℕ → ℕ → Input → List Tick → ℕ → Type 0
Restarts rate at i old start =
    ((i.first_sample ≡ none)
      ⊎ ((first : ℕ) × (i.first_sample ≡ some first) × (first + length i.samples + rate / 10 < at)))
    × (old ≡ [])
    × (start ≡ at)

anchor_lem :
    (rate at : ℕ) (i : Input)
    → (old : List Tick) × (start : ℕ) × (Continues rate at i old start
        ⊎ Restarts rate at i old start)
      × ((anchor rate at i).samples ≡ old)
      × ((anchor rate at i).first_sample ≡ some start)
unfolding anchor
anchor_lem rate at i = elim (Option-cases i.first_sample) [
  | inl new ↦ ([], at, inr (inl new, refl, refl), rw new refl, rw new refl)
  | inr (first, e) ↦ elim (Bool-cases (ltb (first + length i.samples + rate / 10) at)) [
    | inl gap ↦
        ([], at, inr (inr (first, e, ground arith), refl, refl), rw (e, gap) refl, rw (e, gap) refl)
    | inr near ↦ (
      i.samples,
      first,
      inl (first, e, ground arith, refl, refl),
      rw (e, near) refl,
      rw (e, near) refl,
    )
  ]
]

-- What is left of ticks that begin at a time: all but the oldest beyond half a second.
abbrev pub kept : ℕ → ℕ → List Tick → ℕ → Input
kept rate now ticks start = record {
  samples = drop (length ticks - rate / 2) ticks;
  first_sample = some (start + (length ticks - rate / 2));
  last_arrival = now;
}

extend-kept :
    (rate at now : ℕ) (ticks old : List Tick) (start : ℕ) (i : Input)
    → (anchor rate at i).samples ≡ old
    → (anchor rate at i).first_sample ≡ some start
    → extend rate at now ticks i ≡ kept rate now (old ++ ticks) start
extend-kept rate at now ticks old start i e f =
    extend_lem rate at now ticks i
    ∙ ap
        (λ samples. record {
          samples = drop (length (samples ++ ticks) - rate / 2) (samples ++ ticks);
          first_sample =
              first_after (length (samples ++ ticks) - rate / 2) (anchor rate at i).first_sample;
          last_arrival = now;
        })
        e
    ∙ ap
        (λ first. record {
          samples = drop (length (old ++ ticks) - rate / 2) (old ++ ticks);
          first_sample = first_after (length (old ++ ticks) - rate / 2) first;
          last_arrival = now;
        })
        f

-- What a publisher has, or an input without ticks and time.
abbrev pub held : String → Mixer → Input
held user m = elim (lookup user m.inputs) [
  | none ↦ record { samples = []; first_sample = none; last_arrival = 0 }
  | some i ↦ i
]

-- A push that is accepted stores the frame's ticks: behind the input's own, with the time of those, where
-- the frame begins no later than a tenth of a second behind their end; and alone, with the time of
-- the frame, in an input that is new and behind a longer gap. The oldest ticks beyond half a second go,
-- and the time is that of the first one that is left. The push touches no other publisher. If no input
-- held more than half a second before, none does after.
pub push_lem :
    (ticks : List Tick) (at now : ℕ) (user : String) (m : Mixer)
    → All (IsShort m.rate) m.inputs
    → let n = (push true (some ticks) at now user m).1 in
      let i = held user m in
      ((old : List Tick) × (start : ℕ) × (Continues m.rate at i old start
          ⊎ Restarts m.rate at i old start)
        × (lookup user n.inputs ≡ some (kept m.rate now (old ++ ticks) start)))
      × ((other : String)
          → str_eq user other ≡ false
          → lookup other n.inputs ≡ lookup other m.inputs)
      × All (IsShort m.rate) n.inputs
unfolding push
push_lem ticks at now user m h =
    let given = input_or_new user m in
    let i = extend m.rate at now ticks given in
    let (old, start, where_, e, f) = anchor_lem m.rate at given in
    (
      (
        old,
        start,
        where_,
        lookup-insert_self user i m.inputs
            ∙ ap some (extend-kept m.rate at now ticks old start given e f),
      ),
      λ other ne. rw (lookup-insert user other i m.inputs) (rw ne refl),
      All-insert (IsShort m.rate) user i m.inputs (extend-IsShort m.rate at now ticks given user) h,
    )

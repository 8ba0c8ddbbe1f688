-- ===== src/Compositor/Apart.antt =====
-- The regions of src/video_compositor.cpp do not overlap.
use native.Mathlib.Nat.{div-add-mod}
use rtc_egress.Prelude.{
  ℕ, suc, ◌+◌, ◌-◌, ◌*◌, ◌/◌, ◌%◌, ◌≤◌, ◌<◌, String, List, [], ◌∷◌, ◌≡◌, ap, arith, leb, ◌⊎◌, inl,
  inr, Bool-cases, length, ltb, ltb→lt, ltb-false→le, pos_part, All,
}
use rtc_egress.Uds.{LayoutRegion}
use rtc_egress.Compositor.Regions.{
  cut, region, grid_regions, column_regions, row_regions, edge_of, spotlight_regions,
}
use rtc_egress.Compositor.Cuts.{cut_mono, div_mono}

-- The first region ends where the other begins, or earlier, in one direction.
abbrev pub IsBefore : LayoutRegion → LayoutRegion → Type 0
IsBefore r s =
    (pos_part r.x + pos_part r.width ≤ pos_part s.x)
    ⊎ (pos_part r.y + pos_part r.height ≤ pos_part s.y)

-- No two regions share a point.
abbrev pub AreApart : List LayoutRegion → Type 0
AreApart [] = Unit
AreApart (r ∷ rs) = All (IsBefore r) rs × AreApart rs

same_row : (i j m : ℕ) → i < j → i / suc m ≡ j / suc m → i % suc m < j % suc m
same_row i j m h e =
    omega (arith, div-add-mod i (suc m), div-add-mod j (suc m), ap (λ q. suc m * q) e)

module _ (width height m n : ℕ) where
  abbrev cell : ℕ → String → LayoutRegion
  cell i u =
      let left = cut width (suc m) (i % suc m) in
      let top = cut height (suc n) (i / suc m) in
      region u left top (cut width (suc m) (i % suc m + 1) - left)
        (cut height (suc n) (i / suc m + 1) - top)

  cell-IsBefore : (i j : ℕ) (u v : String) → i < j → IsBefore (cell i u) (cell j v)
  cell-IsBefore i j u v h = elim (Bool-cases (ltb (i / suc m) (j / suc m))) [
    | inl e ↦
        let less : i / suc m < j / suc m = ltb→lt (i / suc m) (j / suc m) e in
        inr (
          omega (
            arith,
            cut_mono height n (i / suc m) (i / suc m + 1) (omega arith),
            cut_mono height n (i / suc m + 1) (j / suc m) (omega arith),
          ))
    | inr e ↦
        let back : j / suc m ≤ i / suc m = ltb-false→le (i / suc m) (j / suc m) e in
        let same : i / suc m ≡ j / suc m = omega (arith, div_mono i j m (omega arith)) in
        let less : i % suc m < j % suc m = same_row i j m h same in
        inl (
          omega (
            arith,
            cut_mono width m (i % suc m) (i % suc m + 1) (omega arith),
            cut_mono width m (i % suc m + 1) (j % suc m) (omega arith),
          ))
  ]

  grid_after :
      (i j : ℕ) (u : String) (us : List String)
      → i < j
      → All (IsBefore (cell i u)) (grid_regions width height (suc m) (suc n) j us)
  unfolding grid_regions
  grid_after i j u [] h = tt
  grid_after i j u (v ∷ us) h = (cell-IsBefore i j u v h, grid_after i (suc j) u us (omega arith))

  pub grid_regions-AreApart :
      (i : ℕ) (us : List String) → AreApart (grid_regions width height (suc m) (suc n) i us)
  unfolding grid_regions
  grid_regions-AreApart i [] = tt
  grid_regions-AreApart i (u ∷ us) =
      (grid_after i (suc i) u us (omega arith), grid_regions-AreApart (suc i) us)

module _ (width height edge n : ℕ) where
  column_after :
      (r : LayoutRegion) (j : ℕ) (us : List String)
      → (pos_part r.x + pos_part r.width ≤ width - edge)
        ⊎ (pos_part r.y + pos_part r.height ≤ cut height (suc n) j)
      → All (IsBefore r) (column_regions width height edge (suc n) j us)
  unfolding column_regions
  column_after r j [] h = tt
  column_after r j (u ∷ us) h = (
    h,
    column_after r (suc j) us (elim h [
      | inl a ↦ inl a
      | inr b ↦ inr (omega (arith, cut_mono height n j (suc j) (omega arith)))
    ]),
  )

  column_regions-AreApart :
      (i : ℕ) (us : List String) → AreApart (column_regions width height edge (suc n) i us)
  unfolding column_regions
  column_regions-AreApart i [] = tt
  column_regions-AreApart i (u ∷ us) = (
    column_after
        (region u (width - edge) (cut height (suc n) i) edge
          (cut height (suc n) (i + 1) - cut height (suc n) i))
        (suc i) us
        (inr (
          omega (
            arith,
            cut_mono height n i (i + 1) (omega arith),
            cut_mono height n (i + 1) (suc i) (omega arith),
          ))),
    column_regions-AreApart (suc i) us,
  )

  row_after :
      (r : LayoutRegion) (j : ℕ) (us : List String)
      → (pos_part r.x + pos_part r.width ≤ cut width (suc n) j)
        ⊎ (pos_part r.y + pos_part r.height ≤ height - edge)
      → All (IsBefore r) (row_regions width height edge (suc n) j us)
  unfolding row_regions
  row_after r j [] h = tt
  row_after r j (u ∷ us) h = (
    h,
    row_after r (suc j) us (elim h [
      | inl a ↦ inl (omega (arith, cut_mono width n j (suc j) (omega arith)))
      | inr b ↦ inr b
    ]),
  )

  row_regions-AreApart :
      (i : ℕ) (us : List String) → AreApart (row_regions width height edge (suc n) i us)
  unfolding row_regions
  row_regions-AreApart i [] = tt
  row_regions-AreApart i (u ∷ us) = (
    row_after
        (region u (cut width (suc n) i) (height - edge)
          (cut width (suc n) (i + 1) - cut width (suc n) i) edge)
        (suc i) us
        (inl (
          omega (
            arith,
            cut_mono width n i (i + 1) (omega arith),
            cut_mono width n (i + 1) (suc i) (omega arith),
          ))),
    row_regions-AreApart (suc i) us,
  )

pub spotlight_regions-AreApart :
    (width height : ℕ) (first other : String) (others : List String)
    → AreApart (spotlight_regions width height first (other ∷ others))
unfolding spotlight_regions
spotlight_regions-AreApart width height first other others = elim (Bool-cases (leb height width)) [
  | inl e ↦ rw e (
    column_after width height (edge_of width) (length others)
        (region first 0 0 (width - edge_of width) height) 0 (other ∷ others) (inl (omega arith)),
    column_regions-AreApart width height (edge_of width) (length others) 0 (other ∷ others),
  )
  | inr e ↦ rw e (
    row_after width height (edge_of height) (length others)
        (region first 0 0 width (height - edge_of height)) 0 (other ∷ others) (inr (omega arith)),
    row_regions-AreApart width height (edge_of height) (length others) 0 (other ∷ others),
  )
]

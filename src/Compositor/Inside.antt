-- ===== src/Compositor/Inside.antt =====
-- The regions of src/video_compositor.cpp are inside the canvas.
use native.Mathlib.Nat.{div-lt_iff_lt-mul, mod-lt}
use rtc_egress.Prelude.{
  ℕ, suc, ◌+◌, ◌-◌, ◌*◌, ◌/◌, ◌%◌, ◌≤◌, ◌<◌, String, List, [], ◌∷◌, ◌≡◌, refl, arith, true, leb,
  inl, inr, Bool-cases, length, pos, pos_part, All,
}
use rtc_egress.Uds.{LayoutRegion}
use rtc_egress.Compositor.Regions.{
  CanvasConfig, accepts_region, accepts_regions, cut, region, grid_regions, column_regions,
  row_regions, edge_of, spotlight_regions, insert_region, sort_regions,
}
use rtc_egress.Compositor.Cuts.{cut_mono, cut-le}

-- A region with even sides and corners, all of it on the canvas.
pub record IsInside (width height : ℕ) (r : LayoutRegion) : Type 0 where
  pub natural : (r.x ≡ pos (pos_part r.x)) × (r.y ≡ pos (pos_part r.y))
  pub across : pos_part r.x + pos_part r.width ≤ width
  pub down : pos_part r.y + pos_part r.height ≤ height
  pub even :
      (pos_part r.x % 2 ≡ 0)
      × (pos_part r.y % 2 ≡ 0)
      × (pos_part r.width % 2 ≡ 0)
      × (pos_part r.height % 2 ≡ 0)

cut-even : (side parts k : ℕ) → cut side parts k % 2 ≡ 0
unfolding cut
cut-even side parts k = omega arith

-- The region between two cuts of each side.
between :
    (width height : ℕ) (u : String) (l r t b : ℕ)
    → l ≤ r
    → r ≤ width
    → t ≤ b
    → b ≤ height
    → l % 2 ≡ 0
    → r % 2 ≡ 0
    → t % 2 ≡ 0
    → b % 2 ≡ 0
    → IsInside width height (region u l t (r - l) (b - t))
between width height u l r t b lr rw' tb bh el er et eb = record {
  natural = (refl, refl);
  across = omega arith;
  down = omega arith;
  even = (el, et, omega arith, omega arith);
}

row_below : (i m n : ℕ) → i < suc n * suc m → i / suc m < suc n
row_below i m n h = (div-lt_iff_lt-mul (omega arith)).1 h

module _ (width height m n : ℕ) where
  pub grid_regions-All :
      (i : ℕ) (us : List String)
      → i + length us ≤ suc n * suc m
      → All (IsInside width height) (grid_regions width height (suc m) (suc n) i us)
  unfolding grid_regions
  grid_regions-All i [] h = tt
  grid_regions-All i (u ∷ us) h =
      let col : i % suc m < suc m = mod-lt i (omega arith) in
      let row : i / suc m < suc n = row_below i m n (omega arith) in
      (
        between width height u (cut width (suc m) (i % suc m)) (cut width (suc m) (i % suc m + 1))
            (cut height (suc n) (i / suc m)) (cut height (suc n) (i / suc m + 1))
            (cut_mono width m (i % suc m) (i % suc m + 1) (omega arith))
            (cut-le width m (i % suc m + 1) (omega arith))
            (cut_mono height n (i / suc m) (i / suc m + 1) (omega arith))
            (cut-le height n (i / suc m + 1) (omega arith)) (cut-even width (suc m) (i % suc m))
            (cut-even width (suc m) (i % suc m + 1)) (cut-even height (suc n) (i / suc m))
            (cut-even height (suc n) (i / suc m + 1)),
        grid_regions-All (suc i) us (omega arith),
      )

abbrev Even : ℕ → Type 0
Even k = k % 2 ≡ 0

module _ (width height edge n : ℕ) where
  pub column_regions-All :
      (i : ℕ) (us : List String)
      → edge ≤ width
      → Even edge
      → Even width
      → i + length us ≤ suc n
      → All (IsInside width height) (column_regions width height edge (suc n) i us)
  unfolding column_regions
  column_regions-All i [] e p q h = tt
  column_regions-All i (u ∷ us) e p q h = (
    record {
      natural = (refl, refl);
      across = omega arith;
      down =
          omega (
            arith,
            cut_mono height n i (i + 1) (omega arith),
            cut-le height n (i + 1) (omega arith),
          );
      even = (
        omega arith,
        cut-even height (suc n) i,
        p,
        omega (arith, cut-even height (suc n) i, cut-even height (suc n) (i + 1)),
      );
    },
    column_regions-All (suc i) us e p q (omega arith),
  )

  pub row_regions-All :
      (i : ℕ) (us : List String)
      → edge ≤ height
      → Even edge
      → Even height
      → i + length us ≤ suc n
      → All (IsInside width height) (row_regions width height edge (suc n) i us)
  unfolding row_regions
  row_regions-All i [] e p q h = tt
  row_regions-All i (u ∷ us) e p q h = (
    record {
      natural = (refl, refl);
      across =
          omega
            (arith, cut_mono width n i (i + 1) (omega arith), cut-le width n (i + 1) (omega arith));
      down = omega arith;
      even = (
        cut-even width (suc n) i,
        omega arith,
        omega (arith, cut-even width (suc n) i, cut-even width (suc n) (i + 1)),
        p,
      );
    },
    row_regions-All (suc i) us e p q (omega arith),
  )

-- An edge is even, and not longer than a side that is at least 2.
edge_of-le : (side : ℕ) → 2 ≤ side → (edge_of side ≤ side) × Even (edge_of side)
edge_of-le side h = (ground arith, ground arith)

pub spotlight_regions-All :
    (width height : ℕ) (first other : String) (others : List String)
    → 2 ≤ width
    → 2 ≤ height
    → Even width
    → Even height
    → All (IsInside width height) (spotlight_regions width height first (other ∷ others))
unfolding spotlight_regions
spotlight_regions-All width height first other others w h p q =
    elim (Bool-cases (leb height width)) [
      | inl e ↦
          let (l, k) = edge_of-le width w in
          rw e (
            record {
              natural = (refl, refl);
              across = omega arith;
              down = omega arith;
              even = (refl, refl, omega arith, q);
            },
            column_regions-All width height (edge_of width) (length others) 0 (other ∷ others) l k p
                (omega arith),
          )
      | inr e ↦
          let (l, k) = edge_of-le height h in
          rw e (
            record {
              natural = (refl, refl);
              across = omega arith;
              down = omega arith;
              even = (refl, refl, p, omega arith);
            },
            row_regions-All width height (edge_of height) (length others) 0 (other ∷ others) l k q
                (omega arith),
          )
    ]

insert_region-All :
    (P : LayoutRegion → Type 0) (r : LayoutRegion) (rs : List LayoutRegion)
    → P r
    → All P rs
    → All P (insert_region r rs)
unfolding insert_region
insert_region-All P r [] p h = (p, tt)
insert_region-All P r (s ∷ rs) p h = ground (arith, insert_region-All P r rs p h.1)

pub sort_regions-All :
    (P : LayoutRegion → Type 0) (rs : List LayoutRegion) → All P rs → All P (sort_regions rs)
unfolding sort_regions
sort_regions-All P [] h = tt
sort_regions-All P (r ∷ rs) h =
    insert_region-All P r (sort_regions rs) h.0 (sort_regions-All P rs h.1)

accepted_region :
    (c : CanvasConfig) (r : LayoutRegion)
    → accepts_region c r ≡ true
    → IsInside c.output_width c.output_height r
unfolding accepts_region
accepted_region c r h = record {
  natural = (ground arith, ground arith);
  across = ground arith;
  down = ground arith;
  even = (ground arith, ground arith, ground arith, ground arith);
}

pub accepted_regions :
    (c : CanvasConfig) (rs : List LayoutRegion)
    → accepts_regions c rs ≡ true
    → All (IsInside c.output_width c.output_height) rs
unfolding accepts_regions
accepted_regions c [] h = tt
accepted_regions c (r ∷ rs) h =
    (accepted_region c r (ground arith), accepted_regions c rs (ground arith))

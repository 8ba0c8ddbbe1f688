-- ===== src/Compositor/Placed.antt =====
-- What calculateRegions of src/video_compositor.cpp promises: a place for each user.
use rtc_egress.Prelude.{
  ℤ, ℕ, zero, suc, ◌≤◌, String, List, [], ◌∷◌, ◌≡◌, refl, ap, arith, Bool, true, false, inl, inr,
  Bool-cases, length, str_eq, All, map, leb, ◌%◌,
}
use rtc_egress.Uds.{LayoutRegion}
use rtc_egress.Compositor.Regions.{
  CanvasConfig, accepts_regions, accepts, calculate_optimal_layout, grid_regions, column_regions,
  row_regions, spotlight_regions, spotlight_or_grid, calculate_regions,
}
use rtc_egress.Compositor.Grid.{IsGrid, calculate_optimal_layout-IsGrid}
use rtc_egress.Compositor.Stacked.{RisesInZ, with_z, sort_regions-RisesInZ, with_z-sort_regions}
use rtc_egress.Compositor.Inside.{
  IsInside, grid_regions-All, spotlight_regions-All, sort_regions-All, accepted_regions,
}
use rtc_egress.Compositor.Apart.{AreApart, grid_regions-AreApart, spotlight_regions-AreApart}

abbrev pub uids : List LayoutRegion → List String
uids rs = map (λ r. r.uid) rs

-- What holds of the regions of a list of users.
pub record ArePlaced (width height : ℕ) (users : List String) (rs : List LayoutRegion)
    : Type 0 where
  pub inside : All (IsInside width height) rs
  pub apart : AreApart rs
  pub everyone : uids rs ≡ users

uids-grid :
    (width height cols rows i : ℕ) (us : List String)
    → uids (grid_regions width height cols rows i us) ≡ us
unfolding grid_regions
uids-grid width height cols rows i [] = refl
uids-grid width height cols rows i (u ∷ us) =
    ap (◌∷◌ u) (uids-grid width height cols rows (suc i) us)

uids-column :
    (width height edge parts i : ℕ) (us : List String)
    → uids (column_regions width height edge parts i us) ≡ us
unfolding column_regions
uids-column width height edge parts i [] = refl
uids-column width height edge parts i (u ∷ us) =
    ap (◌∷◌ u) (uids-column width height edge parts (suc i) us)

uids-row :
    (width height edge parts i : ℕ) (us : List String)
    → uids (row_regions width height edge parts i us) ≡ us
unfolding row_regions
uids-row width height edge parts i [] = refl
uids-row width height edge parts i (u ∷ us) =
    ap (◌∷◌ u) (uids-row width height edge parts (suc i) us)

uids-spotlight :
    (width height : ℕ) (first : String) (others : List String)
    → uids (spotlight_regions width height first others) ≡ first ∷ others
unfolding spotlight_regions
uids-spotlight width height first others = elim (Bool-cases (leb height width)) [
  | inl e ↦ rw e (ap (◌∷◌ first) (uids-column width height _ _ 0 others))
  | inr e ↦ rw e (ap (◌∷◌ first) (uids-row width height _ _ 0 others))
]

grid_regions-ArePlaced :
    (width height : ℕ) (grid : ℕ × ℕ) (us : List String)
    → IsGrid (length us) grid
    → ArePlaced width height us (grid_regions width height grid.0 grid.1 0 us)
grid_regions-ArePlaced width height (zero, rows) us g = absurd (omega (arith, g.columns))
grid_regions-ArePlaced width height (suc m, zero) us g = absurd (omega (arith, g.rows))
grid_regions-ArePlaced width height (suc m, suc n) us g = record {
  inside = grid_regions-All width height m n 0 us (omega (arith, g.cells));
  apart = grid_regions-AreApart width height m n 0 us;
  everyone = uids-grid width height (suc m) (suc n) 0 us;
}

-- What the guard of initialize says of the canvas.
accepted_sides :
    (c : CanvasConfig)
    → accepts c ≡ true
    → (2 ≤ c.output_width)
      × (2 ≤ c.output_height)
      × (c.output_width % 2 ≡ 0)
      × (c.output_height % 2 ≡ 0)
      × (accepts_regions c c.regions ≡ true)
unfolding accepts
accepted_sides c h = (ground arith, ground arith, ground arith, ground arith, ground arith)

spotlight-ArePlaced :
    (width height : ℕ) (grid : List LayoutRegion) (us : List String)
    → 2 ≤ width
    → 2 ≤ height
    → width % 2 ≡ 0
    → height % 2 ≡ 0
    → ArePlaced width height us grid
    → ArePlaced width height us (spotlight_or_grid width height grid us)
unfolding spotlight_or_grid
spotlight-ArePlaced width height grid [] w t p q g = g
spotlight-ArePlaced width height grid (first ∷ []) w t p q g = g
spotlight-ArePlaced width height grid (first ∷ other ∷ others) w t p q g = record {
  inside = spotlight_regions-All width height first other others w t p q;
  apart = spotlight_regions-AreApart width height first other others;
  everyone = uids-spotlight width height first (other ∷ others);
}

module _ (better : ℕ → ℕ → ℕ → Bool) (c : CanvasConfig) (accepted : accepts c ≡ true) where
  -- In the flat and the spotlight layout of an accepted configuration, whatever the scores of the
  -- grids are: each user has one region, in the order of the users; the regions are on the canvas,
  -- with even corners and sides, and no two of them overlap.
  pub calculate_regions-ArePlaced :
      (users : List String)
      → str_eq c.layout "customized" ≡ false
      → ArePlaced c.output_width c.output_height users (calculate_regions better c users)
  unfolding calculate_regions
  calculate_regions-ArePlaced users h =
      let grid =
        grid_regions-ArePlaced c.output_width c.output_height
          (calculate_optimal_layout better c (length users)) users
          (calculate_optimal_layout-IsGrid better c (length users)) in
      let (w, t, p, q, _) = accepted_sides c accepted in
      elim (Bool-cases (str_eq c.layout "spotlight")) [
        | inr flat ↦ rw h (rw flat grid)
        | inl spot ↦ rw h (rw spot (spotlight-ArePlaced _ _ _ users w t p q grid))
      ]

  -- In the customized layout of an accepted configuration: the regions rise in z; those of each z are the
  -- configured ones of that z, in the order in which they are configured; and all of them are on the
  -- canvas with even corners and sides.
  pub calculate_regions-customized :
      (users : List String)
      → str_eq c.layout "customized" ≡ true
      → let rs = calculate_regions better c users in
        RisesInZ rs
        × ((z : ℤ) → with_z z rs ≡ with_z z c.regions)
        × All (IsInside c.output_width c.output_height) rs
  unfolding calculate_regions
  calculate_regions-customized users h = rw h (
    sort_regions-RisesInZ c.regions,
    λ z. with_z-sort_regions z c.regions,
    sort_regions-All (IsInside c.output_width c.output_height) c.regions
        (accepted_regions c c.regions (accepted_sides c accepted).4),
  )

-- ===== src/Compositor/Regions.antt =====
-- src/video_compositor.cpp: the guard of initialize, calculateOptimalLayout and calculateRegions.
use rtc_egress.Prelude.{
  ℕ, zero, suc, ◌+◌, ◌-◌, ◌*◌, ◌/◌, ◌%◌, max, String, List, [], ◌∷◌, Bool, true, not, ◌&&◌, ◌||◌,
  leb, ltb, ◌==◌, if◌then◌else◌, is_empty, length, ℤ, pos, pos_part, ltb_ℤ, str_eq,
}
use rtc_egress.Uds.{LayoutRegion}

-- The fields of VideoCompositor::Config that the regions depend on.
pub record CanvasConfig : Type 0 where
  pub output_width : ℕ
  pub output_height : ℕ
  pub layout : String
  pub regions : List LayoutRegion

abbrev is_odd : ℕ → Bool
is_odd n = not (n % 2 == 0)

-- A side of the canvas is even, and between 2 and 8192.
abbrev fits_side : ℕ → Bool
fits_side n = not (ltb n 2 || (ltb 8192 n || is_odd n))

abbrev is_native : String → Bool
is_native layout = str_eq layout "flat" || (str_eq layout "spotlight" || str_eq layout "customized")

-- One side of a region: even, not negative, at least 2 long, and within the canvas.
abbrev fits_canvas : ℕ → ℤ → ℤ → Bool
fits_canvas side at long = not (
    ltb_ℤ at (pos 0)
    || (ltb_ℤ long (pos 2)
        || ((is_odd (pos_part at) || is_odd (pos_part long))
            || ltb side (pos_part at + pos_part long))))

unfoldable pub accepts_region : CanvasConfig → LayoutRegion → Bool
accepts_region c r =
    not (str_eq r.uid "")
    && (fits_canvas c.output_width r.x r.width && fits_canvas c.output_height r.y r.height)

unfoldable pub accepts_regions : CanvasConfig → List LayoutRegion → Bool
accepts_regions c [] = true
accepts_regions c (r ∷ rs) = accepts_region c r && accepts_regions c rs

-- The guard of VideoCompositor::initialize.
unfoldable pub accepts : CanvasConfig → Bool
accepts c =
    (fits_side c.output_width && fits_side c.output_height)
    && (is_native c.layout
        && (not (
              (str_eq c.layout "customized" && is_empty c.regions)
              || (ltb 32 (length c.regions)
                  || (not (str_eq c.layout "customized") && not (is_empty c.regions))))
            && accepts_regions c c.regions))

-- (users + cols - 1) / cols
abbrev pub rows_for : ℕ → ℕ → ℕ
rows_for users cols = (users + cols - 1) / cols

module _ (better : ℕ → ℕ → ℕ → Bool) where
  -- The `for` loop over the columns, with `left` of them to go; `better users best cols` compares the
  -- scores, which are floats, of `cols` columns and of the best so far.
  unfoldable pub best_columns : ℕ → ℕ → ℕ → ℕ → ℕ
  best_columns users zero cols best = best
  best_columns users (suc left) cols best =
      best_columns users left (suc cols) (if better users best cols then cols else best)

  -- calculateOptimalLayout: columns and rows. The aspect is at least 1.5 where 3 height ≤ 2 width.
  unfoldable pub calculate_optimal_layout : CanvasConfig → ℕ → ℕ × ℕ
  calculate_optimal_layout c users =
      let wide = leb (3 * c.output_height) (2 * c.output_width) in
      let best = best_columns users users 1 1 in
      if users == 0
      then (1, 1)
      else if users == 1
      then (1, 1)
      else if users == 2
      then (if wide then (2, 1) else (1, 2))
      else if users == 3
      then (if wide then (3, 1) else (2, 2))
      else if users == 4
      then (2, 2)
      else (best, rows_for users best)

-- (k * side / parts) & ~1
unfoldable pub cut : ℕ → ℕ → ℕ → ℕ
cut side parts k = k * side / parts / 2 * 2

abbrev pub region : String → ℕ → ℕ → ℕ → ℕ → LayoutRegion
region u x y width height = record {
  uid = u;
  x = pos x;
  y = pos y;
  width = pos width;
  height = pos height;
  z = pos 0;
}

-- The cells of a grid, from user `i` on.
unfoldable pub grid_regions : ℕ → ℕ → ℕ → ℕ → ℕ → List String → List LayoutRegion
grid_regions width height cols rows i [] = []
grid_regions width height cols rows i (u ∷ us) =
    let left = cut width cols (i % cols) in
    let top = cut height rows (i / cols) in
    region u left top (cut width cols (i % cols + 1) - left) (cut height rows (i / cols + 1) - top)
    ∷ grid_regions width height cols rows (suc i) us

-- The others of a spotlight, in a column at the right, or in a row at the bottom.
unfoldable pub column_regions : ℕ → ℕ → ℕ → ℕ → ℕ → List String → List LayoutRegion
column_regions width height edge parts i [] = []
column_regions width height edge parts i (u ∷ us) =
    let top = cut height parts i in
    region u (width - edge) top edge (cut height parts (i + 1) - top)
    ∷ column_regions width height edge parts (suc i) us

unfoldable pub row_regions : ℕ → ℕ → ℕ → ℕ → ℕ → List String → List LayoutRegion
row_regions width height edge parts i [] = []
row_regions width height edge parts i (u ∷ us) =
    let left = cut width parts i in
    region u left (height - edge) (cut width parts (i + 1) - left) edge
    ∷ row_regions width height edge parts (suc i) us

-- std::max(2, (side / 8) * 2)
abbrev pub edge_of : ℕ → ℕ
edge_of side = max 2 (side / 8 * 2)

unfoldable pub spotlight_regions : ℕ → ℕ → String → List String → List LayoutRegion
unfolding column_regions row_regions
spotlight_regions width height first others =
    if leb height width
    then region first 0 0 (width - edge_of width) height
      ∷ column_regions width height (edge_of width) (length others) 0 others
    else region first 0 0 width (height - edge_of height)
      ∷ row_regions width height (edge_of height) (length others) 0 others

-- std::stable_sort by z.
unfoldable pub insert_region : LayoutRegion → List LayoutRegion → List LayoutRegion
insert_region r [] = r ∷ []
insert_region r (s ∷ rs) = if ltb_ℤ s.z r.z then s ∷ insert_region r rs else r ∷ s ∷ rs

unfoldable pub sort_regions : List LayoutRegion → List LayoutRegion
unfolding insert_region
sort_regions [] = []
sort_regions (r ∷ rs) = insert_region r (sort_regions rs)

-- The spotlight with more than one user; else the grid.
unfoldable pub spotlight_or_grid : ℕ → ℕ → List LayoutRegion → List String → List LayoutRegion
unfolding spotlight_regions
spotlight_or_grid width height grid [] = grid
spotlight_or_grid width height grid (first ∷ others) =
    if is_empty others then grid else spotlight_regions width height first others

-- calculateRegions
unfoldable pub calculate_regions :
    (ℕ → ℕ → ℕ → Bool) → CanvasConfig → List String → List LayoutRegion
calculate_regions better c users =
    let (cols, rows) = calculate_optimal_layout better c (length users) in
    let grid = grid_regions c.output_width c.output_height cols rows 0 users in
    if str_eq c.layout "customized"
    then sort_regions c.regions
    else if str_eq c.layout "spotlight"
    then spotlight_or_grid c.output_width c.output_height grid users
    else grid

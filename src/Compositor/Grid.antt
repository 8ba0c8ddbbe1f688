-- ===== src/Compositor/Grid.antt =====
-- The grid that src/video_compositor.cpp chooses.
use native.Mathlib.Nat.{lt-div-mul-add}
use rtc_egress.Prelude.{
  ℕ, zero, suc, ◌+◌, ◌-◌, ◌*◌, ◌≤◌, ◌<◌, arith, Bool, ◌==◌, if◌then◌else◌, inl, inr, Bool-cases,
}
use rtc_egress.Compositor.Regions.{CanvasConfig, rows_for, best_columns, calculate_optimal_layout}

-- A grid with a cell for each user.
pub record IsGrid (users : ℕ) (grid : ℕ × ℕ) : Type 0 where
  pub columns : 1 ≤ grid.0
  pub rows : 1 ≤ grid.1
  pub cells : users ≤ grid.1 * grid.0

rows_for-IsGrid : (users cols : ℕ) → 1 ≤ users → 1 ≤ cols → IsGrid users (cols, rows_for users cols)
rows_for-IsGrid users cols u c =
    let below : users + cols - 1 < rows_for users cols * cols + cols = lt-div-mul-add c in
    record {
      columns = c;
      rows = at_least (rows_for users cols) (omega (arith, below));
      cells = omega (arith, below);
    }
  where
    at_least : (r : ℕ) → users ≤ r * cols → 1 ≤ r
    at_least zero h = absurd (omega arith)
    at_least (suc r) h = omega arith

module _ (better : ℕ → ℕ → ℕ → Bool) where
  best_columns_pos :
      (users left cols best : ℕ)
      → 1 ≤ cols
      → 1 ≤ best
      → 1 ≤ best_columns better users left cols best
  unfolding best_columns
  best_columns_pos users zero cols best c b = b
  best_columns_pos users (suc left) cols best c b =
      best_columns_pos users left (suc cols) (if better users best cols then cols else best)
        (omega arith) (ground arith)

  -- Whatever the scores of the grids are, the chosen one has a column, a row, and a cell for each
  -- user.
  pub calculate_optimal_layout-IsGrid :
      (c : CanvasConfig) (users : ℕ) → IsGrid users (calculate_optimal_layout better c users)
  unfolding calculate_optimal_layout
  calculate_optimal_layout-IsGrid c users =
      let best = best_columns_pos users users 1 1 (omega arith) (omega arith) in
      elim (Bool-cases (users == 0)) [
        | inl e ↦ rw e (record { columns = omega arith; rows = omega arith; cells = ground arith })
        | inr e ↦
            let g =
              rows_for-IsGrid users (best_columns better users users 1 1) (ground arith) best in
            record {
              columns = ground (arith, g.columns);
              rows = ground (arith, g.rows);
              cells = ground (arith, g.cells);
            }
      ]

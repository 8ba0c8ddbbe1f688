-- ===== src/Compositor/Cuts.antt =====
-- The cuts of a side of the canvas in src/video_compositor.cpp.
use native.Mathlib.Nat.{le-div_iff_mul-le, div-mul-le_self, mul-div_cancel}
use rtc_egress.Prelude.{ℕ, zero, suc, ◌*◌, ◌/◌, ◌≤◌, arith}
use rtc_egress.Compositor.Regions.{cut}

mul_mono : (a b n : ℕ) → a ≤ b → a * n ≤ b * n
mul_mono a b zero h = omega arith
mul_mono a b (suc n) h = omega (arith, mul_mono a b n h)

pub div_mono : (a b n : ℕ) → a ≤ b → a / suc n ≤ b / suc n
div_mono a b n h = (le-div_iff_mul-le (omega arith)).1 (omega (arith, div-mul-le_self a (suc n)))

-- A cut further on is not less.
pub cut_mono : (side parts j k : ℕ) → j ≤ k → cut side (suc parts) j ≤ cut side (suc parts) k
unfolding cut
cut_mono side parts j k h =
    omega (arith, div_mono (j * side) (k * side) parts (mul_mono j k side h))

-- No cut is outside of the side.
pub cut-le : (side parts k : ℕ) → k ≤ suc parts → cut side (suc parts) k ≤ side
unfolding cut
cut-le side parts k h = omega (
  arith,
  div_mono (k * side) (side * suc parts) parts (omega (arith, mul_mono k (suc parts) side h)),
  mul-div_cancel side {n = suc parts} (omega arith),
)

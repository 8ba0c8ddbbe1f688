-- ===== src/Compositor/Tests.antt =====
-- The theorems on src/video_compositor.cpp at concrete canvases.
use rtc_egress.Prelude.{ℤ, ℕ, String, List, [], ◌∷◌, ◌≡◌, refl, Bool, ltb, pos, All}
use rtc_egress.Uds.{LayoutRegion}
use rtc_egress.Compositor.Regions.{
  CanvasConfig, accepts, accepts_regions, accepts_region, calculate_optimal_layout,
  calculate_regions, insert_region, sort_regions, best_columns,
}
use rtc_egress.Compositor.Stacked.{RisesInZ, with_z}
use rtc_egress.Compositor.Inside.{IsInside}
use rtc_egress.Compositor.Placed.{
  ArePlaced, calculate_regions-ArePlaced, calculate_regions-customized,
}

abbrev hd : CanvasConfig
hd = record { output_width = 1280; output_height = 720; layout = "spotlight"; regions = [] }

-- More columns are better, up to three.
abbrev up_to_three : ℕ → ℕ → ℕ → Bool
up_to_three _ _ cols = ltb cols 4

seven_in_a_grid : calculate_optimal_layout up_to_three hd 7 ≡ (3, 3)
unfolding calculate_optimal_layout best_columns
seven_in_a_grid = refl

abbrev people : List String
people = "ann" ∷ "bob" ∷ "eve" ∷ []

calculate_regions-ArePlaced_example :
    ArePlaced 1280 720 people (calculate_regions up_to_three hd people)
unfolding accepts accepts_regions
calculate_regions-ArePlaced_example = calculate_regions-ArePlaced up_to_three hd refl people refl

abbrev corner : LayoutRegion
corner = record {
  uid = "ann";
  x = pos 960;
  y = pos 540;
  width = pos 320;
  height = pos 180;
  z = pos 1;
}

abbrev floor : LayoutRegion
floor = record corner { uid = "bob"; x = pos 0; z = pos 0 }

abbrev beside : LayoutRegion
beside = record corner { uid = "eve"; y = pos 0 }

abbrev custom : CanvasConfig
custom = record {
  output_width = 1280;
  output_height = 720;
  layout = "customized";
  regions = corner ∷ floor ∷ beside ∷ [];
}

custom_stacked : calculate_regions up_to_three custom people ≡ floor ∷ corner ∷ beside ∷ []
unfolding calculate_regions sort_regions insert_region
custom_stacked = refl

calculate_regions-customized_example :
    let rs = calculate_regions up_to_three custom people in
    RisesInZ rs
    × ((z : ℤ) → with_z z rs ≡ with_z z (corner ∷ floor ∷ beside ∷ []))
    × All (IsInside 1280 720) rs
unfolding accepts accepts_regions accepts_region
calculate_regions-customized_example =
    calculate_regions-customized up_to_three custom refl people refl

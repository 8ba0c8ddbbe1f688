-- ===== src/Compositor/Stacked.antt =====
-- The regions of the customized layout, stacked by their z: std::stable_sort in calculateRegions of
-- src/video_compositor.cpp.
use rtc_egress.Prelude.{
  List, [], ◌∷◌, ℤ, ◌≤ℤ◌, ltb_ℤ, eqb_ℤ, if◌then◌else◌, ◌≡◌, refl, ◌∙◌, ap, arith, Bool-cases, inl,
  inr,
}
use rtc_egress.Uds.{LayoutRegion}
use rtc_egress.Compositor.Regions.{insert_region, sort_regions}

-- No region lies under the one before it.
abbrev pub RisesFrom : ℤ → List LayoutRegion → Type 0
RisesFrom z [] = Unit
RisesFrom z (r ∷ rs) = (z ≤ℤ r.z) × RisesFrom r.z rs

abbrev pub RisesInZ : List LayoutRegion → Type 0
RisesInZ [] = Unit
RisesInZ (r ∷ rs) = RisesFrom r.z rs

-- The regions of one z, in their order.
unfoldable pub with_z : ℤ → List LayoutRegion → List LayoutRegion
with_z z [] = []
with_z z (r ∷ rs) = if eqb_ℤ r.z z then r ∷ with_z z rs else with_z z rs

insert_region-RisesFrom :
    (z : ℤ) (r : LayoutRegion) (rs : List LayoutRegion)
    → z ≤ℤ r.z
    → RisesFrom z rs
    → RisesFrom z (insert_region r rs)
unfolding insert_region
insert_region-RisesFrom z r [] l h = (l, tt)
insert_region-RisesFrom z r (s ∷ rs) l h = elim (Bool-cases (ltb_ℤ s.z r.z)) [
  | inl under ↦ rw under (h.0, insert_region-RisesFrom s.z r rs (ground arith) h.1)
  | inr above ↦ rw above (l, (ground arith, h.1))
]

insert_region-RisesInZ :
    (r : LayoutRegion) (rs : List LayoutRegion) → RisesInZ rs → RisesInZ (insert_region r rs)
unfolding insert_region
insert_region-RisesInZ r [] h = tt
insert_region-RisesInZ r (s ∷ rs) h = elim (Bool-cases (ltb_ℤ s.z r.z)) [
  | inl under ↦ rw under (insert_region-RisesFrom s.z r rs (ground arith) h)
  | inr above ↦ rw above (ground arith, h)
]

pub sort_regions-RisesInZ : (rs : List LayoutRegion) → RisesInZ (sort_regions rs)
unfolding sort_regions
sort_regions-RisesInZ [] = tt
sort_regions-RisesInZ (r ∷ rs) =
    insert_region-RisesInZ r (sort_regions rs) (sort_regions-RisesInZ rs)

-- A region goes in front of those of its own z.
with_z-insert_region :
    (z : ℤ) (r : LayoutRegion) (rs : List LayoutRegion)
    → with_z z (insert_region r rs) ≡ with_z z (r ∷ rs)
unfolding with_z insert_region
with_z-insert_region z r [] = refl
with_z-insert_region z r (s ∷ rs) = ground (arith, with_z-insert_region z r rs)

pub with_z-sort_regions :
    (z : ℤ) (rs : List LayoutRegion) → with_z z (sort_regions rs) ≡ with_z z rs
unfolding with_z sort_regions
with_z-sort_regions z [] = refl
with_z-sort_regions z (r ∷ rs) =
    with_z-insert_region z r (sort_regions rs)
    ∙ ap (λ others. if eqb_ℤ r.z z then r ∷ others else others) (with_z-sort_regions z rs)

-- ===== src/Resources/Handle/Tiers.antt =====
-- The choice of a buffer tier in crates/torvyn-resources/src/handle.rs.
use torvyn.Common.{ℕ, ◌≤◌, arith}
use torvyn.Resources.Handle.{PoolTier, small, medium, large, huge, capacity, for_capacity}

-- `for_capacity` picks the smallest tier that holds the request: no tier that holds it is smaller than
-- the one picked, which holds it too if the huge tier does.
pub for_capacity_smallest :
    (requested : ℕ)
    → ((t : PoolTier) → requested ≤ capacity t → capacity (for_capacity requested) ≤ capacity t)
      × (requested ≤ capacity huge → requested ≤ capacity (for_capacity requested))
unfolding for_capacity
for_capacity_smallest requested = (λ t h. holds t h, λ h. ground arith)
  where
    holds : (t : PoolTier) → requested ≤ capacity t → capacity (for_capacity requested) ≤ capacity t
    holds small h = ground arith
    holds medium h = ground arith
    holds large h = ground arith
    holds huge h = ground arith

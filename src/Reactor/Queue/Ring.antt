-- ===== src/Reactor/Queue/Ring.antt =====
-- Positions in the ring of crates/torvyn-reactor/src/queue.rs: `(head + i) % capacity` runs through
-- the slots.
use native.Mathlib.Nat.{mod-eq_of_lt, mod-eq-sub-mod}
use torvyn.Common.{ℕ, ◌+◌, ◌-◌, ◌%◌, ◌≤◌, ◌<◌, ◌≡◌, ◌⊎◌, arith}

-- A position has not wrapped, or has wrapped once.
mod_cases :
    (h i c : ℕ)
    → h < c
    → i ≤ c
    → ((h + i < c) × ((h + i) % c ≡ h + i)) ⊎ ((c ≤ h + i) × ((h + i) % c ≡ h + i - c))
mod_cases h i c p q = grind (arith, mod-eq_of_lt, mod-eq-sub-mod)

module _ (h c : ℕ) (in_ring : h < c) where
  pub position_lt : (i : ℕ) → i ≤ c → (h + i) % c < c
  position_lt i p = omega (arith, mod_cases h i c in_ring p)

  pub position_start : (h + 0) % c ≡ h
  position_start = omega (arith, mod_cases h 0 c in_ring (omega arith))

  pub position_full : (h + c) % c ≡ h
  position_full = omega (arith, mod_cases h c c in_ring (omega arith))

  pub position_injective : (i j : ℕ) → i < c → j < c → (h + i) % c ≡ (h + j) % c → i ≡ j
  position_injective i j p q e =
      omega (arith, mod_cases h i c in_ring (omega arith), mod_cases h j c in_ring (omega arith))

  -- Counted from the next head, every position comes one earlier.
  pub position_next : (i : ℕ) → i < c → ((h + 1) % c + i) % c ≡ (h + (i + 1)) % c
  position_next i p =
      let e = mod_cases h 1 c in_ring (omega arith) in
      let f = mod_cases h (i + 1) c in_ring (omega arith) in
      let g = mod_cases ((h + 1) % c) i c (position_lt 1 (omega arith)) (omega arith) in
      omega (arith, e, f, g)

-- ===== src/Resources/Pool/Whole.antt =====
-- `BufferPoolSet::allocate` of crates/torvyn-resources/src/pool.rs over the pool of its tier.
use torvyn.Common.{
  ℕ, ◌≡◌, refl, ◌⊎◌, inl, inr, List, Option, none, some, returns, max, Option-cases, true, false,
  ◌+◌, [], ◌∷◌, get_elem?,
}
use torvyn.Common.Word.{u32}
use torvyn.Resources.Handle.{PoolTier, capacity, for_capacity}
use torvyn.Resources.Pool.{
  BufferPoolSet, TierPool, PoolBuffer, Allocation, tier_pool, with_pool, allocate,
}
use torvyn.Resources.Pool.Stack.{Stacks, pop-Stacks}

-- A request is served from the stack of its tier, by a fallback, or not at all.
pub record Serves (alloc : ℕ → Option (ℕ × ℕ)) (s : BufferPoolSet) (min_capacity : ℕ)
    (a : Option Allocation) : Type 0 where
  pub pools : BufferPoolSet
  pub run : allocate alloc s min_capacity ≡ returns (pools, a)

-- A buffer that the set hands out: the top one of the stack of its tier, or, where that is empty, a new one
-- of the system's.
pub record Handed (alloc : ℕ → Option (ℕ × ℕ)) (p : TierPool) (tier : PoolTier) (min_capacity : ℕ)
    (free : List ℕ) (a : Allocation) : Type 0 where
  pub of_tier : a.tier ≡ tier
  pub from :
      ((i : ℕ) × (rest : List ℕ) × (b : PoolBuffer) × (free ≡ i ∷ rest)
        × (get_elem? p.buffers i ≡ some b)
        × (a.ptr ≡ b.ptr)
        × (a.alloc_size ≡ b.alloc_size)
        × (a.is_fallback ≡ false))
      ⊎ ((free ≡ [])
          × (alloc (max (capacity tier) min_capacity) ≡ some (a.ptr, a.alloc_size))
          × (a.is_fallback ≡ true))

-- On a well-formed stack the set answers. It has no buffer only where the stack is empty and the system has
-- no memory.
pub allocate-Serves :
    (alloc : ℕ → Option (ℕ × ℕ)) (s : BufferPoolSet) (min_capacity : ℕ) (free : List ℕ)
    → Stacks (tier_pool s (for_capacity min_capacity)) free
    → (Serves alloc s min_capacity none
        × (free ≡ [])
        × (alloc (max (capacity (for_capacity min_capacity)) min_capacity) ≡ none))
      ⊎ ((a : Allocation) × Serves alloc s min_capacity (some a)
          × Handed alloc
              (tier_pool s (for_capacity min_capacity))
              (for_capacity min_capacity)
              min_capacity
              free
              a)
unfolding allocate
allocate-Serves alloc s min_capacity free v =
    let tier = for_capacity min_capacity in
    let p = tier_pool s tier in
    let counted = with_pool s tier (record p {
      exhaustion_count = u32 (p.exhaustion_count + 1);
      fallback_count = u32 (p.fallback_count + 1);
    }) in
    elim (pop-Stacks p free v) [
      | inl (bare, empty) ↦ elim (Option-cases (alloc (max (capacity tier) min_capacity))) [
        | inl oom ↦
            inl (record { pools = counted; run = rw (empty, allocate, oom) refl }, bare, oom)
        | inr ((ptr, size), got) ↦ inr (
          record { ptr = ptr; alloc_size = size; tier = tier; is_fallback = true },
          record { pools = counted; run = rw (empty, allocate, got) refl },
          record { of_tier = refl; from = inr (bare, got, refl) },
        )
      ]
      | inr (i, rest, b, p', top, held, popped, _, _) ↦ inr (
        record { ptr = b.ptr; alloc_size = b.alloc_size; tier = tier; is_fallback = false },
        record { pools = with_pool s tier p'; run = rw (popped, allocate) refl },
        record { of_tier = refl; from = inl (i, rest, b, top, held, refl, refl, refl) },
      )
    ]

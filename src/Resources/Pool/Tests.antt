-- ===== src/Resources/Pool/Tests.antt =====
-- The theorems about the free stack at a pool of two buffers, one of them on the stack.
use torvyn.Common.{
  ℕ, zero, suc, ◌+◌, ◌≡◌, refl, ◌⊎◌, true, false, Option, none, some, List, [], ◌∷◌, arith,
  get_elem?, set, returns,
}
use torvyn.Common.Word.{u32}
use torvyn.Resources.Handle.{PoolTier}
use torvyn.Resources.Pool.{TierPool, PoolBuffer, TierConfig, stack_empty, head_index, pop, push}
use torvyn.Resources.Pool.Stack.{Stacks, AreApart, pop-Stacks, push-Stacks}
use torvyn.Resources.Pool.Fresh.{IsBare}

abbrev first : PoolBuffer
first = record { ptr = 4096; alloc_size = 320; next_free = 1 }

abbrev second : PoolBuffer
second = record { ptr = 8192; alloc_size = 320; next_free = stack_empty }

-- The first buffer is in use; the tag is 1.
abbrev pool : TierPool
pool = record {
  tier = PoolTier.small;
  buffers = first ∷ second ∷ [];
  free_top = 4294967297;
  pool_size = 2;
  available = 1;
  alloc_count = 1;
  return_count = 0;
  fallback_count = 0;
  exhaustion_count = 0;
}

apart : AreApart (first ∷ second ∷ [])
apart zero zero b c h k e = refl
apart zero (suc zero) b c h k e = absurd (ground arith)
apart (suc zero) zero b c h k e = absurd (ground arith)
apart (suc zero) (suc zero) b c h k e = refl
apart zero (suc (suc j)) b c h k e = cc
apart (suc zero) (suc (suc j)) b c h k e = cc
apart (suc (suc i)) j b c h k e = cc

abbrev on_stack : List ℕ
on_stack = 1 ∷ []

pool-Stacks : Stacks pool on_stack
unfolding head_index
pool-Stacks = record {
  stacked = (refl, (second, refl, refl));
  distinct = (tt, tt);
  counted = refl;
  few = omega arith;
  apart = apart;
}

pop-Stacks_example :
    ((on_stack ≡ []) × (pop pool ≡ returns (record pool { exhaustion_count = u32 1 }, none)))
    ⊎ ((i : ℕ) × (rest : List ℕ) × (b : PoolBuffer) × (p : TierPool) × (on_stack ≡ i ∷ rest)
        × (get_elem? pool.buffers i ≡ some b)
        × (pop pool ≡ returns (p, some (b.ptr, b.alloc_size)))
        × Stacks p rest
        × (p.buffers ≡ pool.buffers))
pop-Stacks_example = pop-Stacks pool on_stack pool-Stacks

push-Stacks_example :
    (p : TierPool) × (push pool 4096 ≡ (p, true))
    × Stacks p (0 ∷ 1 ∷ [])
    × (p.buffers ≡ set pool.buffers 0 (record first { next_free = head_index pool.free_top }))
push-Stacks_example = push-Stacks pool (1 ∷ []) 0 first pool-Stacks refl (λ e. omega arith, tt)

-- An allocator that returns addresses 4096 bytes apart.
abbrev alloc : ℕ → Option (ℕ × ℕ)
alloc i = some (4096 + i, 320)

abbrev config : TierConfig
config = record { tier = PoolTier.small; pool_size = 3; preallocate = true }

abbrev on_demand : TierConfig
on_demand = record { tier = PoolTier.huge; pool_size = 32; preallocate = false }

abbrev bare : TierPool
bare = record pool { buffers = []; free_top = stack_empty; available = 0 }

bare-IsBare : IsBare bare
unfolding head_index
bare-IsBare = (refl, refl)

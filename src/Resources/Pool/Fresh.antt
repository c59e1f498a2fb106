-- ===== src/Resources/Pool/Fresh.antt =====
-- `TierPool::new` of crates/torvyn-resources/src/pool.rs.
use torvyn.Common.{
  ℕ, zero, suc, ◌+◌, ◌≤◌, ◌<◌, ◌≡◌, refl, sym, subst, ap, true, false, Option, none, some, List, [],
  ◌∷◌, arith, length, get_elem?, returns, if◌then◌else◌, ltb, get_elem?-lt,
}
use torvyn.Common.Indices.{range, Distinct-range, length-range}
use torvyn.Common.Word.{u32_max, u32}
use torvyn.Resources.Pool.{
  TierPool, PoolBuffer, TierConfig, stack_empty, head_index, make_head, pop, push, slot_of,
  preallocated, new_pool,
}
use torvyn.Resources.Pool.Stack.{Stacked, Stacks, head_index-make_head}

-- The buffers that the loop pushes: the `j`th has the address that the `j`th call returned, and links
-- to the next.
abbrev IsFresh : (ℕ → Option (ℕ × ℕ)) → (size i : ℕ) → List PoolBuffer → Type 0
IsFresh alloc size i bs =
    (j : ℕ) (b : PoolBuffer)
    → get_elem? bs j ≡ some b
    → (alloc (i + j) ≡ some (b.ptr, b.alloc_size))
      × (b.next_free ≡ (if ltb (i + j + 1) size then i + j + 1 else stack_empty))

-- The buffer that the loop pushes at index `i`.
abbrev fresh : ℕ → ℕ → ℕ → ℕ → PoolBuffer
fresh size i ptr alloc_size = record {
  ptr = ptr;
  alloc_size = alloc_size;
  next_free = if ltb (i + 1) size then i + 1 else stack_empty;
}

IsFresh-cons :
    (alloc : ℕ → Option (ℕ × ℕ)) (size i ptr alloc_size : ℕ) (bs : List PoolBuffer)
    → alloc i ≡ some (ptr, alloc_size)
    → IsFresh alloc size (i + 1) bs
    → IsFresh alloc size i (fresh size i ptr alloc_size ∷ bs)
IsFresh-cons alloc size i ptr alloc_size bs got each zero b h =
    let e : i + 0 ≡ i = omega arith in
    let eq : fresh size i ptr alloc_size ≡ b = cc in
    rw e (
      subst
        (λ (x : PoolBuffer).
          (alloc i ≡ some (x.ptr, x.alloc_size))
          × (x.next_free ≡ (if ltb (i + 1) size then i + 1 else stack_empty)))
        eq (got, refl))
IsFresh-cons alloc size i ptr alloc_size bs got each (suc j) b h =
    let e : i + suc j ≡ i + 1 + j = omega arith in rw e (each j b h)

preallocated_step :
    (alloc : ℕ → Option (ℕ × ℕ)) (size i n ptr alloc_size : ℕ) (bs : List PoolBuffer)
    → alloc i ≡ some (ptr, alloc_size)
    → preallocated alloc size (i + 1) n ≡ returns bs
    → preallocated alloc size i (suc n) ≡ returns (fresh size i ptr alloc_size ∷ bs)
unfolding preallocated
preallocated_step alloc size i n ptr alloc_size bs got ran = rw (got, preallocated) (rw ran refl)

preallocated-IsFresh :
    (alloc : ℕ → Option (ℕ × ℕ)) (size i n : ℕ)
    → size ≡ i + n
    → ((j : ℕ) → j < size → (r : ℕ × ℕ) × (alloc j ≡ some r))
    → (bs : List PoolBuffer) × (preallocated alloc size i n ≡ returns bs)
      × (length bs ≡ n)
      × IsFresh alloc size i bs
unfolding preallocated
preallocated-IsFresh alloc size i zero at all = ([], refl, refl, λ j b h. absurd (ground arith))
preallocated-IsFresh alloc size i (suc n) at all =
    let ((ptr, alloc_size), got) = all i (omega arith) in
    let (bs, ran, len, each) = preallocated-IsFresh alloc size (i + 1) n (omega arith) all in
    (
      fresh size i ptr alloc_size ∷ bs,
      preallocated_step alloc size i n ptr alloc_size bs got ran,
      ap suc len,
      IsFresh-cons alloc size i ptr alloc_size bs got each,
    )

IsFresh-Stacked :
    (alloc : ℕ → Option (ℕ × ℕ)) (size i n : ℕ) (bs : List PoolBuffer)
    → size ≡ i + n
    → length bs ≡ size
    → IsFresh alloc size 0 bs
    → Stacked bs (if ltb i size then i else stack_empty) (range i n)
IsFresh-Stacked alloc size i zero bs at len each = ground arith
IsFresh-Stacked alloc size i (suc n) bs at len each =
    let (b, held) = get_elem?-lt bs i (omega arith) in
    let e : 0 + i + 1 ≡ i + 1 = omega arith in
    let link : b.next_free ≡ (if ltb (i + 1) size then i + 1 else stack_empty) =
      rw e at ((each i b held).1) in
    (
      ground arith,
      (b, held, rw link (IsFresh-Stacked alloc size (i + 1) n bs (omega arith) len each)),
    )

IsFresh-alloc :
    (alloc : ℕ → Option (ℕ × ℕ)) (size : ℕ) (bs : List PoolBuffer) (j : ℕ) (b : PoolBuffer)
    → IsFresh alloc size 0 bs
    → get_elem? bs j ≡ some b
    → alloc j ≡ some (b.ptr, b.alloc_size)
IsFresh-alloc alloc size bs j b each h = let e : 0 + j ≡ j = omega arith in rw e at ((each j b h).0)

-- A pool that allocates its buffers in advance starts with every slot on its stack, in order, if every
-- call of the allocator succeeds and no two calls return one address.
pub new_pool-Stacks :
    (alloc : ℕ → Option (ℕ × ℕ)) (config : TierConfig)
    → config.preallocate ≡ true
    → config.pool_size ≤ u32_max
    → ((j : ℕ) → j < config.pool_size → (r : ℕ × ℕ) × (alloc j ≡ some r))
    → ((i j p m n : ℕ) → alloc i ≡ some (p, m) → alloc j ≡ some (p, n) → i ≡ j)
    → (p : TierPool) × (new_pool alloc config ≡ returns p)
      × Stacks p (range 0 config.pool_size)
      × (length p.buffers ≡ config.pool_size)
unfolding new_pool
new_pool-Stacks alloc config pre few all apart =
    let size = config.pool_size in
    let (bs, ran, len, each) = preallocated-IsFresh alloc size 0 size (omega arith) all in
    let top : ℕ = if ltb 0 size then 0 else stack_empty in
    (
      record {
        tier = config.tier;
        buffers = bs;
        free_top = make_head 0 top;
        pool_size = size;
        available = size;
        alloc_count = 0;
        return_count = 0;
        fallback_count = 0;
        exhaustion_count = 0;
      },
      rw pre (rw ran refl),
      record {
        stacked =
            rw (head_index-make_head 0 top (ground arith))
              (IsFresh-Stacked alloc size 0 size bs (omega arith) len each);
        distinct = Distinct-range 0 size;
        counted = sym (length-range 0 size);
        few = omega (arith, len, few);
        apart = λ i j b c h k same.
            apart i j b.ptr b.alloc_size c.alloc_size (IsFresh-alloc alloc size bs i b each h)
              (rw same (IsFresh-alloc alloc size bs j c each k));
      },
      len,
    )

-- A pool with no slot and nothing on its stack.
abbrev pub IsBare : TierPool → Type 0
IsBare p = (p.buffers ≡ []) × (head_index p.free_top ≡ stack_empty)

-- A bare pool stays bare: `pop` has nothing to give and counts an exhaustion, and `push` turns every
-- buffer away.
pub pop-push-IsBare :
    (p : TierPool) (ptr : ℕ)
    → IsBare p
    → (p' : TierPool) × (pop p ≡ returns (p', none))
      × IsBare p'
      × (p'.exhaustion_count ≡ u32 (p.exhaustion_count + 1))
      × (push p ptr ≡ (p, false))
unfolding pop push slot_of
pop-push-IsBare p ptr b = (
  record p { exhaustion_count = u32 (p.exhaustion_count + 1) },
  ground arith,
  b,
  refl,
  ground arith,
)

-- A tier that is not allocated in advance starts bare, so it never keeps a buffer, whatever its
-- `pool_size` says.
pub new_pool-IsBare :
    (alloc : ℕ → Option (ℕ × ℕ)) (config : TierConfig)
    → config.preallocate ≡ false
    → (p : TierPool) × (new_pool alloc config ≡ returns p)
      × IsBare p
      × (p.pool_size ≡ config.pool_size)
unfolding new_pool head_index make_head
new_pool-IsBare alloc config none_in_advance = (
  record {
    tier = config.tier;
    buffers = [];
    free_top = make_head 0 stack_empty;
    pool_size = config.pool_size;
    available = 0;
    alloc_count = 0;
    return_count = 0;
    fallback_count = 0;
    exhaustion_count = 0;
  },
  rw none_in_advance refl,
  (refl, refl),
  refl,
)

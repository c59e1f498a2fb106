-- ===== src/Resources/Pool.antt =====
-- crates/torvyn-resources/src/pool.rs: the free stack of each buffer tier, and the set of the four
-- tiers. Each call is taken in one piece: the compare-and-swap loop is the round that succeeds. What
-- `alloc_buffer` of buffer.rs returns comes from the system allocator and is a parameter.
pub mod Stack
pub mod Fresh
pub mod Whole
mod Tests
use torvyn.Common.{
  ℕ, zero, suc, ◌+◌, ◌*◌, ◌/◌, ◌%◌, max, Bool, true, false, Option, none, some, List, [], ◌∷◌,
  get_elem?, set, ltb, ◌==◌, ◌&&◌, if◌then◌else◌, Run, returns, panics, ◌>>=◌,
}
use torvyn.Common.Word.{u32, u32_max, wrapping_sub_u32}
use torvyn.Resources.Handle.{PoolTier, small, medium, large, huge, capacity, for_capacity}

abbrev pub stack_empty : ℕ
stack_empty = u32_max

-- The packed head: the tag in the high half, the index in the low half.
unfoldable pub head_index : ℕ → ℕ
head_index head = head % 4294967296

unfoldable pub head_tag : ℕ → ℕ
head_tag head = head / 4294967296

unfoldable pub make_head : ℕ → ℕ → ℕ
make_head tag index = tag * 4294967296 + index

pub record TierConfig : Type 0 where
  pub tier : PoolTier
  pub pool_size : ℕ
  pub preallocate : Bool

pub record PoolBuffer : Type 0 where
  pub ptr : ℕ
  pub alloc_size : ℕ
  pub next_free : ℕ  -- u32

pub record TierPool : Type 0 where
  pub tier : PoolTier
  pub buffers : List PoolBuffer
  pub free_top : ℕ  -- u64
  pub pool_size : ℕ
  pub available : ℕ  -- u32, as are the counters
  pub alloc_count : ℕ
  pub return_count : ℕ
  pub fallback_count : ℕ
  pub exhaustion_count : ℕ

-- The loop of `new`: `n` more buffers from index `i` on, the `i`th allocated by the `i`th call.
unfoldable pub preallocated : (ℕ → Option (ℕ × ℕ)) → (pool_size i n : ℕ) → Run (List PoolBuffer)
preallocated alloc pool_size i zero = returns []
preallocated alloc pool_size i (suc n) = elim (alloc i) [
  | none ↦ panics
  | some (ptr, alloc_size) ↦ preallocated alloc pool_size (i + 1) n >>= λ rest. returns (
      record {
        ptr = ptr;
        alloc_size = alloc_size;
        next_free = if ltb (i + 1) pool_size then i + 1 else stack_empty;
      }
      ∷ rest)
]

-- `alloc` is `alloc_buffer` at the capacity of the tier.
unfoldable pub new_pool : (ℕ → Option (ℕ × ℕ)) → TierConfig → Run TierPool
new_pool alloc config =
    let size = config.pool_size in
    (if config.preallocate then preallocated alloc size 0 size else returns []) >>= λ buffers.
    returns (record {
      tier = config.tier;
      buffers = buffers;
      free_top = make_head 0 (if config.preallocate && ltb 0 size then 0 else stack_empty);
      pool_size = size;
      available = if config.preallocate then size else 0;
      alloc_count = 0;
      return_count = 0;
      fallback_count = 0;
      exhaustion_count = 0;
    })

-- The exchange of the head and the counters after it.
unfoldable pub taken : TierPool → PoolBuffer → TierPool
unfolding make_head head_tag
taken p buffer = record p {
  free_top = make_head (u32 (head_tag p.free_top + 1)) buffer.next_free;
  available = wrapping_sub_u32 p.available 1;
  alloc_count = u32 (p.alloc_count + 1);
}

unfoldable pub pop : TierPool → Run (TierPool × Option (ℕ × ℕ))
pop p =
    if head_index p.free_top == stack_empty
    then returns (record p { exhaustion_count = u32 (p.exhaustion_count + 1) }, none)
    else (elim (get_elem? p.buffers (head_index p.free_top)) [
      | none ↦ panics
      | some buffer ↦ returns (taken p buffer, some (buffer.ptr, buffer.alloc_size))
    ])

-- The first slot of the pointer, from index `i` on.
unfoldable pub slot_of : ℕ → List PoolBuffer → ℕ → Option (ℕ × PoolBuffer)
slot_of i [] ptr = none
slot_of i (buffer ∷ buffers) ptr =
    if buffer.ptr == ptr then some (i, buffer) else slot_of (i + 1) buffers ptr

unfoldable pub push : TierPool → ℕ → TierPool × Bool
push p ptr = elim (slot_of 0 p.buffers ptr) [
  | none ↦ (p, false)
  | some (i, buffer) ↦ (
    record p {
      buffers = set p.buffers i (record buffer { next_free = head_index p.free_top });
      free_top = make_head (u32 (head_tag p.free_top + 1)) i;
      available = u32 (p.available + 1);
      return_count = u32 (p.return_count + 1);
    },
    true,
  )
]

pub record BufferPoolSet : Type 0 where
  pub small_pool : TierPool
  pub medium_pool : TierPool
  pub large_pool : TierPool
  pub huge_pool : TierPool

unfoldable pub tier_pool : BufferPoolSet → PoolTier → TierPool
tier_pool s small = s.small_pool
tier_pool s medium = s.medium_pool
tier_pool s large = s.large_pool
tier_pool s huge = s.huge_pool

-- The set after the pool of a tier has changed.
unfoldable pub with_pool : BufferPoolSet → PoolTier → TierPool → BufferPoolSet
with_pool s small p = record s { small_pool = p }
with_pool s medium p = record s { medium_pool = p }
with_pool s large p = record s { large_pool = p }
with_pool s huge p = record s { huge_pool = p }

-- A buffer from the set: its address, allocated size and tier, and whether it is a fallback.
pub record Allocation : Type 0 where
  pub ptr : ℕ
  pub alloc_size : ℕ
  pub tier : PoolTier
  pub is_fallback : Bool

-- `alloc` is this call's `alloc_buffer`, from the capacity asked for.
unfoldable pub allocate :
    (ℕ → Option (ℕ × ℕ)) → BufferPoolSet → ℕ → Run (BufferPoolSet × Option Allocation)
unfolding pop tier_pool with_pool for_capacity
allocate alloc s min_capacity =
    let tier = for_capacity min_capacity in
    pop (tier_pool s tier) >>= λ popped. elim popped.1 [
      | some (ptr, size) ↦ returns (
        with_pool s tier popped.0,
        some (record { ptr = ptr; alloc_size = size; tier = tier; is_fallback = false }),
      )
      | none ↦
          let counted =
            with_pool s tier
              (record (popped.0) { fallback_count = u32 (popped.0.fallback_count + 1) }) in
          returns (elim (alloc (max (capacity tier) min_capacity)) [
            | none ↦ (counted, none)
            | some (ptr, size) ↦ (
              counted,
              some (record { ptr = ptr; alloc_size = size; tier = tier; is_fallback = true }),
            )
          ])
    ]

-- The set after `release`, and the buffer that it deallocates, if it does.
unfoldable pub release : BufferPoolSet → Allocation → BufferPoolSet × Option (ℕ × ℕ)
unfolding push tier_pool with_pool
release s a =
    let (p, accepted) = push (tier_pool s a.tier) a.ptr in
    if a.is_fallback
    then (s, some (a.ptr, a.alloc_size))
    else (with_pool s a.tier p, (if accepted then none else some (a.ptr, a.alloc_size)))

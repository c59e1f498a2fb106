-- ===== src/Reactor/Queue.antt =====
-- crates/torvyn-reactor/src/queue.rs: the ring buffer between two stages. `buf[i]` out of bounds,
-- `expect` on an empty slot and a failed `assert!` are panics.
pub mod Ring
pub mod Holds
pub mod Refinement
use torvyn.Common.{
  ℕ, zero, suc, ◌+◌, ◌-◌, ◌%◌, Bool, Option, none, some, List, [], ◌∷◌, get_elem?, set, replicate,
  ◌==◌, ltb, if◌then◌else◌, Run, returns, panics, ◌>>=◌, expect,
}

-- torvyn_types::BackpressurePolicy.
pub data BackpressurePolicy : Type 0 where
  block_producer drop_oldest drop_newest error : BackpressurePolicy

pub record BoundedQueue {ℓ} (T : Type ℓ) : Type ℓ where
  pub buf : List (Option T)
  pub head : ℕ
  pub len : ℕ
  pub capacity : ℕ

pub data PushResult {ℓ} (T : Type ℓ) : Type ℓ where
  ok : PushResult T
  full : T → PushResult T
  dropped_oldest : T → PushResult T
  dropped_newest : T → PushResult T

module _ {ℓ} {T : Type ℓ} where
  unfoldable pub new : ℕ → Run (BoundedQueue T)
  new capacity =
      if ltb 0 capacity
      then returns
          (record { buf = replicate capacity none; head = 0; len = 0; capacity = capacity })
      else panics

  unfoldable pub is_empty : BoundedQueue T → Bool
  is_empty q = q.len == 0

  unfoldable pub is_full : BoundedQueue T → Bool
  is_full q = q.len == q.capacity

  unfoldable pub tail : BoundedQueue T → ℕ
  tail q = (q.head + q.len) % q.capacity

  -- `self.buf[i] = v`.
  unfoldable pub write : List (Option T) → ℕ → Option T → Run (List (Option T))
  write buf i v = elim (get_elem? buf i) [ none ↦ panics | some _ ↦ returns (set buf i v) ]

  -- `self.buf[i].take().expect(..)`: the element, and the buffer with the slot emptied.
  unfoldable pub take_slot : List (Option T) → ℕ → Run (T × List (Option T))
  take_slot buf i = elim (get_elem? buf i) [
    | none ↦ panics
    | some slot ↦ elim slot [ none ↦ panics | some x ↦ returns (x, set buf i none) ]
  ]

  -- The three lines that `push` and `push_with_policy` share.
  unfoldable pub enqueue : BoundedQueue T → T → Run (BoundedQueue T × PushResult T)
  unfolding tail write
  enqueue q element = do
    buf ← write q.buf (tail q) (some element)
    returns (record q { buf = buf; len = q.len + 1 }, ok)

  unfoldable pub push : BoundedQueue T → T → Run (BoundedQueue T × PushResult T)
  unfolding enqueue
  push q element = if q.len == q.capacity then returns (q, full element) else enqueue q element

  unfoldable pub replace_oldest : BoundedQueue T → T → Run (BoundedQueue T × PushResult T)
  unfolding take_slot write
  replace_oldest q element = do
    (dropped, emptied) ← take_slot q.buf q.head
    buf ← write emptied q.head (some element)
    returns (record q { buf = buf; head = (q.head + 1) % q.capacity }, dropped_oldest dropped)

  unfoldable pub when_full :
      BackpressurePolicy → BoundedQueue T → T → Run (BoundedQueue T × PushResult T)
  unfolding replace_oldest
  when_full BackpressurePolicy.block_producer q element = returns (q, full element)
  when_full BackpressurePolicy.error q element = returns (q, full element)
  when_full BackpressurePolicy.drop_oldest q element = replace_oldest q element
  when_full BackpressurePolicy.drop_newest q element = returns (q, dropped_newest element)

  unfoldable pub push_with_policy :
      BoundedQueue T → T → BackpressurePolicy → Run (BoundedQueue T × PushResult T)
  unfolding enqueue when_full
  push_with_policy q element policy =
      if ltb q.len q.capacity then enqueue q element else when_full policy q element

  unfoldable pub pop : BoundedQueue T → Run (BoundedQueue T × Option T)
  unfolding take_slot
  pop q = if q.len == 0 then returns (q, none) else (do
    (element, buf) ← take_slot q.buf q.head
    returns
        (record q { buf = buf; head = (q.head + 1) % q.capacity; len = q.len - 1 }, some element))

  unfoldable pub peek_front : BoundedQueue T → Run (Option T)
  peek_front q = if q.len == 0 then returns none else expect (get_elem? q.buf q.head)

  -- The `while let` of `drain_all` on fuel, which counts the calls of `pop`.
  unfoldable pub drain_from : ℕ → BoundedQueue T → Run (Option (BoundedQueue T × List T))
  drain_from zero q = returns none
  drain_from (suc fuel) q = pop q >>= λ popped. elim popped.1 [
    | none ↦ returns (some (popped.0, []))
    | some element ↦ drain_from fuel popped.0 >>= λ rest. elim rest [
      | none ↦ returns none
      | some (last, elements) ↦ returns (some (last, element ∷ elements))
    ]
  ]

  -- One call of `pop` for each element, and the one that finds the queue empty.
  unfoldable pub drain_all : BoundedQueue T → Run (Option (BoundedQueue T × List T))
  drain_all q = drain_from (suc q.len) q

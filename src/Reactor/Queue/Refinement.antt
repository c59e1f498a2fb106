-- ===== src/Reactor/Queue/Refinement.antt =====
-- crates/torvyn-reactor/src/queue.rs against a list of the queued elements, oldest first.
use torvyn.Common.{
  ℕ, zero, suc, ◌<◌, ◌≡◌, refl, sym, ◌∙◌, ◌⊎◌, inl, inr, Option, none, some, List, [], ◌∷◌, ◌++◌,
  arith, length, ltb→lt, Bool-cases, ==_iff, Run, returns, ◌==◌, ltb,
}
use torvyn.Reactor.Queue.Holds.{Holds, enqueue-Holds, dequeue-Holds, replace_oldest-Holds}
use torvyn.Reactor.Queue.{
  BoundedQueue, BackpressurePolicy, PushResult, ok, full, dropped_oldest, dropped_newest, push,
  when_full, push_with_policy, pop, drain_from, drain_all,
}

module _ {ℓ} {T : Type ℓ} where
  -- What an operation's result and its list of elements after it are.
  abbrev pub Gives : Run (BoundedQueue T × PushResult T) → PushResult T → List T → ℕ → Type ℓ
  Gives r result xs c =
      (q' : BoundedQueue T) × (r ≡ returns (q', result)) × Holds q' xs × (q'.capacity ≡ c)

  -- The queue that the policy asks for, on the list.
  abbrev pub policy_result : BackpressurePolicy → List T → T → PushResult T
  policy_result BackpressurePolicy.drop_oldest (x ∷ xs) a = dropped_oldest x
  policy_result BackpressurePolicy.drop_oldest [] a = full a
  policy_result BackpressurePolicy.drop_newest xs a = dropped_newest a
  policy_result BackpressurePolicy.block_producer xs a = full a
  policy_result BackpressurePolicy.error xs a = full a

  abbrev pub policy_list : BackpressurePolicy → List T → T → List T
  policy_list BackpressurePolicy.drop_oldest (x ∷ xs) a = xs ++ a ∷ []
  policy_list BackpressurePolicy.drop_oldest [] a = []
  policy_list BackpressurePolicy.drop_newest xs a = xs
  policy_list BackpressurePolicy.block_producer xs a = xs
  policy_list BackpressurePolicy.error xs a = xs

  when_full-Holds :
      (policy : BackpressurePolicy) (q : BoundedQueue T) (xs : List T) (a : T)
      → Holds q xs
      → length xs ≡ q.capacity
      → Gives
          (when_full policy q a)
          (policy_result policy xs a)
          (policy_list policy xs a)
          q.capacity
  unfolding when_full
  when_full-Holds BackpressurePolicy.block_producer q xs a v h = (q, refl, v, refl)
  when_full-Holds BackpressurePolicy.error q xs a v h = (q, refl, v, refl)
  when_full-Holds BackpressurePolicy.drop_newest q xs a v h = (q, refl, v, refl)
  when_full-Holds BackpressurePolicy.drop_oldest q [] a v h = absurd (omega (arith, v.in_ring))
  when_full-Holds BackpressurePolicy.drop_oldest q (x ∷ xs) a v h =
      replace_oldest-Holds q x xs v a h

  -- `push_with_policy` never panics on a queue that holds `xs`. With room the element goes to the end;
  -- when full, `block_producer` and `error` hand it back, `drop_newest` drops it, and `drop_oldest`
  -- drops the first element to put it at the end. The capacity stays.
  pub push_with_policy-Holds :
      (q : BoundedQueue T) (xs : List T) (a : T) (policy : BackpressurePolicy)
      → Holds q xs
      → ((length xs < q.capacity)
          × Gives (push_with_policy q a policy) ok (xs ++ a ∷ []) q.capacity)
        ⊎ ((length xs ≡ q.capacity)
            × Gives
                (push_with_policy q a policy)
                (policy_result policy xs a)
                (policy_list policy xs a)
                q.capacity)
  unfolding push_with_policy
  push_with_policy-Holds q xs a policy v = elim (Bool-cases (ltb q.len q.capacity)) [
    | inl room ↦
        let lt = ltb→lt q.len q.capacity room in
        inl (
          omega (arith, lt, v.counted),
          rw room (enqueue-Holds q xs v a (omega (arith, lt, v.counted))),
        )
    | inr none_left ↦
        let all : length xs ≡ q.capacity = ground (arith, v.counted, v.fits) in
        inr (all, rw none_left (when_full-Holds policy q xs a v all))
  ]

  -- `push` puts the element at the end where there is room, and hands it back from a full queue, which
  -- it leaves as it was.
  pub push-Holds :
      (q : BoundedQueue T) (xs : List T) (a : T)
      → Holds q xs
      → ((length xs < q.capacity) × Gives (push q a) ok (xs ++ a ∷ []) q.capacity)
        ⊎ ((length xs ≡ q.capacity) × (push q a ≡ returns (q, full a)))
  unfolding push
  push-Holds q xs a v = elim (Bool-cases (q.len == q.capacity)) [
    | inl all ↦ inr (sym v.counted ∙ (==_iff q.len q.capacity).0 all, rw all refl)
    | inr room ↦
        let lt : length xs < q.capacity = ground (arith, v.counted, v.fits) in
        inl (lt, rw room (enqueue-Holds q xs v a lt))
  ]

  abbrev pub first : List T → Option T
  first [] = none
  first (x ∷ xs) = some x

  abbrev pub others : List T → List T
  others [] = []
  others (x ∷ xs) = xs

  pop_empty : (q : BoundedQueue T) → Holds q [] → pop q ≡ returns (q, none)
  unfolding pop
  pop_empty q v = rw v.counted refl

  -- `pop` never panics on a queue that holds `xs`: it returns the first element of `xs`, if there is
  -- one, and leaves a queue of the same capacity that holds the others.
  pub pop-Holds :
      (q : BoundedQueue T) (xs : List T)
      → Holds q xs
      → (q' : BoundedQueue T) × (pop q ≡ returns (q', first xs))
        × Holds q' (others xs)
        × (q'.capacity ≡ q.capacity)
  pop-Holds q [] v = (q, pop_empty q v, v, refl)
  pop-Holds q (x ∷ xs) v = dequeue-Holds q x xs v

  drain_from-Holds :
      (fuel : ℕ) (q : BoundedQueue T) (xs : List T)
      → Holds q xs
      → length xs < fuel
      → (q' : BoundedQueue T) × (drain_from fuel q ≡ returns (some (q', xs)))
        × Holds q' []
        × (q'.capacity ≡ q.capacity)
  unfolding drain_from
  drain_from-Holds zero q xs v h = elim h [ ]
  drain_from-Holds (suc fuel) q [] v h = (q, rw (pop_empty q v) refl, v, refl)
  drain_from-Holds (suc fuel) q (x ∷ xs) v h =
      let (q1, popped, v1, c1) = dequeue-Holds q x xs v in
      let (q2, drained, v2, c2) = drain_from-Holds fuel q1 xs v1 (omega arith) in
      (q2, rw popped (rw drained refl), v2, c2 ∙ c1)

  -- The loop of `drain_all` ends after one call of `pop` more than there are elements: it returns all
  -- elements, oldest first, and leaves the queue empty.
  pub drain_all-Holds :
      (q : BoundedQueue T) (xs : List T)
      → Holds q xs
      → (q' : BoundedQueue T) × (drain_all q ≡ returns (some (q', xs)))
        × Holds q' []
        × (q'.capacity ≡ q.capacity)
  unfolding drain_all
  drain_all-Holds q xs v = drain_from-Holds (suc q.len) q xs v (omega (arith, v.counted))

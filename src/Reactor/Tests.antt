-- ===== src/Reactor/Tests.antt =====
-- The theorems about the queue at a ring of two slots that has wrapped, and runs of the queue.
use torvyn.Common.{
  ℕ, ◌+◌, ◌%◌, ◌<◌, ◌≡◌, refl, ◌⊎◌, none, some, List, [], ◌∷◌, ◌++◌, arith, get_elem?, zero, suc,
  returns,
}
use torvyn.Reactor.Queue
use torvyn.Reactor.Queue.{
  BoundedQueue, BackpressurePolicy, PushResult, ok, full, push_with_policy, push, pop, drain_all,
  new,
}
use torvyn.Reactor.Queue.Holds.{Holds}
use torvyn.Reactor.Queue.Refinement.{Gives, push_with_policy-Holds, pop-Holds, drain_all-Holds}

-- Full, with its front element in the last slot.
abbrev wrapped : BoundedQueue ℕ
wrapped = record { buf = some 8 ∷ some 7 ∷ []; head = 1; len = 2; capacity = 2 }

abbrev held : List ℕ
held = 7 ∷ 8 ∷ []

wrapped-Holds : Holds wrapped held
wrapped-Holds = record {
  sized = refl;
  in_ring = omega arith;
  counted = refl;
  fits = omega arith;
  slots = at;
}
  where
    at : (i : ℕ) → i < 2 → get_elem? (some 8 ∷ some 7 ∷ []) ((1 + i) % 2) ≡ some (get_elem? held i)
    at zero h = refl
    at (suc zero) h = refl
    at (suc (suc i)) h = absurd (omega arith)

push_with_policy-Holds_example :
    ((2 < 2)
      × Gives (push_with_policy wrapped 9 BackpressurePolicy.drop_oldest) ok (held ++ 9 ∷ []) 2)
    ⊎ ((2 ≡ wrapped.capacity)
        × Gives
            (push_with_policy wrapped 9 BackpressurePolicy.drop_oldest)
            (Queue.dropped_oldest 7)
            (8 ∷ 9 ∷ [])
            2)
push_with_policy-Holds_example =
    push_with_policy-Holds wrapped held 9 BackpressurePolicy.drop_oldest wrapped-Holds

pop-Holds_example :
    (q : BoundedQueue ℕ) × (pop wrapped ≡ returns (q, some 7)) × Holds q (8 ∷ []) × (q.capacity ≡ 2)
pop-Holds_example = pop-Holds wrapped held wrapped-Holds

drain_all-Holds_example :
    (q : BoundedQueue ℕ) × (drain_all wrapped ≡ returns (some (q, 7 ∷ 8 ∷ [])))
    × Holds q []
    × (q.capacity ≡ 2)
drain_all-Holds_example = drain_all-Holds wrapped held wrapped-Holds

pop_run :
    pop wrapped
    ≡ returns (record { buf = some 8 ∷ none ∷ []; head = 0; len = 1; capacity = 2 }, some 7)
unfolding pop
pop_run = refl

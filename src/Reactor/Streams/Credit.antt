-- ===== src/Reactor/Streams/Credit.antt =====
-- The credits of crates/torvyn-reactor/src/demand.rs against the queue of their stream.
use torvyn.Common.{
  ℕ, ◌-◌, zero, suc, ◌+◌, ◌≤◌, ◌<◌, ◌≡◌, refl, subst, inl, inr, true, false, some, List, [], ◌∷◌,
  ◌++◌, arith, length, length-append, get_elem?, set, returns,
}
use torvyn.Common.Word.{u64_max}
use torvyn.Reactor.Queue.{BoundedQueue, PushResult, ok, full, push, pop, is_empty, new}
use torvyn.Reactor.Queue.Holds.{Holds, new-Holds}
use torvyn.Reactor.Queue.Refinement.{push-Holds, pop-Holds}
use torvyn.Reactor.Backpressure.{normal}
use torvyn.Reactor.Streams.{
  StreamElementRef, StreamState, new_stream, consumer_has_input, replenish_demand,
}

-- A stream that bears its index as its id, whose queue holds a list, with a credit for each free place
-- of the queue.
pub record Steady (i : ℕ) (s : StreamState) : Type 0 where
  pub named : s.id ≡ i
  pub elements : List StreamElementRef
  pub held : Holds s.queue elements
  pub credit : s.demand + length elements ≡ s.queue.capacity
  pub in_word : s.queue.capacity ≤ u64_max

unfoldable pub AllSteady : ℕ → List StreamState → Type 0
AllSteady i [] = Unit {0}
AllSteady i (s ∷ streams) = Steady i s × AllSteady (suc i) streams

new-capacity : (n : ℕ) (q : BoundedQueue StreamElementRef) → new n ≡ returns q → q.capacity ≡ n
unfolding new
new-capacity n q h = ground (arith, h)

-- A new stream of positive capacity is steady, and `new` does not panic.
pub new_stream-Steady :
    (id capacity low_watermark_depth : ℕ)
    → 0 < capacity
    → capacity ≤ u64_max
    → (s : StreamState) × (new_stream id capacity low_watermark_depth ≡ returns s) × Steady id s
unfolding new_stream
new_stream-Steady id capacity low_watermark_depth h w =
    let (q, made, v) = new-Holds {T = StreamElementRef} capacity h in
    (
      record {
        id = id;
        queue = q;
        backpressure = normal;
        low_watermark_depth = low_watermark_depth;
        demand = capacity;
        producer_complete = false;
      },
      rw made refl,
      record {
        named = refl;
        elements = [];
        held = v;
        credit = omega (arith, new-capacity capacity q made);
        in_word = omega (arith, w, new-capacity capacity q made);
      },
    )

-- A stream that pays for an element and is offered it stays steady: it takes the element where there is
-- a free place, and where there is none it has no credit to lose.
pub push-Steady :
    (i : ℕ) (s : StreamState) (e : StreamElementRef)
    → Steady i s
    → let paid : StreamState = record s { demand = s.demand - 1 } in
      (q : BoundedQueue StreamElementRef) × (r : PushResult StreamElementRef) × (push paid.queue e
        ≡ returns (q, r))
      × Steady i (record paid { queue = q })
push-Steady i s e v = elim (push-Holds s.queue v.elements e v.held) [
  | inl (room, (q, run, holds, same)) ↦ (
    q,
    ok,
    run,
    record {
      named = v.named;
      elements = v.elements ++ e ∷ [];
      held = holds;
      credit = omega (arith, v.credit, length-append v.elements (e ∷ []), same, room);
      in_word = omega (arith, v.in_word, same);
    },
  )
  | inr (all, run) ↦ (
    s.queue,
    full e,
    run,
    record {
      named = v.named;
      elements = v.elements;
      held = v.held;
      credit = omega (arith, v.credit, all);
      in_word = v.in_word;
    },
  )
]

pop_held :
    (i : ℕ) (s : StreamState) (xs : List StreamElementRef)
    → s.id ≡ i
    → Holds s.queue xs
    → s.demand + length xs ≡ s.queue.capacity
    → s.queue.capacity ≤ u64_max
    → consumer_has_input s ≡ true
    → (q : BoundedQueue StreamElementRef) × (e : StreamElementRef) × (pop s.queue
        ≡ returns (q, some e))
      × Steady i (replenish_demand (record s { queue = q }))
unfolding consumer_has_input is_empty replenish_demand
pop_held i s [] named v credit in_word h = absurd (ground (arith, h, v.counted))
pop_held i s (x ∷ xs) named v credit in_word h =
    let (q, run, holds, same) = pop-Holds s.queue (x ∷ xs) v in
    (
      q,
      x,
      run,
      record {
        named = named;
        elements = xs;
        held = holds;
        credit = ground (arith, credit, in_word, same);
        in_word = omega (arith, in_word, same);
      },
    )

-- A stream with input gives its first element up and gets a credit for it.
pub pop-Steady :
    (i : ℕ) (s : StreamState)
    → Steady i s
    → consumer_has_input s ≡ true
    → (q : BoundedQueue StreamElementRef) × (e : StreamElementRef) × (pop s.queue
        ≡ returns (q, some e))
      × Steady i (replenish_demand (record s { queue = q }))
pop-Steady i s v h = pop_held i s v.elements v.named v.held v.credit v.in_word h

some_inj : (a b : StreamState) → some a ≡ some b → a ≡ b
some_inj a b h = cc

AllSteady-get :
    (i k : ℕ) (streams : List StreamState) (s : StreamState)
    → AllSteady i streams
    → get_elem? streams k ≡ some s
    → Steady (i + k) s
unfolding AllSteady
AllSteady-get i k [] s a h = absurd (ground arith)
AllSteady-get i zero (t ∷ streams) s (here, there) h =
    subst (λ (u : StreamState). Steady (i + 0) u) (some_inj t s h)
      (subst (λ j. Steady j t) (omega arith) here)
AllSteady-get i (suc k) (t ∷ streams) s (here, there) h =
    subst (λ j. Steady j s) (omega arith) (AllSteady-get (suc i) k streams s there h)

AllSteady-set :
    (i k : ℕ) (streams : List StreamState) (s : StreamState)
    → AllSteady i streams
    → Steady (i + k) s
    → AllSteady i (set streams k s)
unfolding AllSteady
AllSteady-set i k [] s a v = tt
AllSteady-set i zero (t ∷ streams) s (here, there) v =
    (subst (λ j. Steady j s) (omega arith) v, there)
AllSteady-set i (suc k) (t ∷ streams) s (here, there) v =
    (here, AllSteady-set (suc i) k streams s there (subst (λ j. Steady j s) (omega arith) v))

pub AllSteady-at :
    (k : ℕ) (streams : List StreamState) (s : StreamState)
    → AllSteady 0 streams
    → get_elem? streams k ≡ some s
    → Steady k s
AllSteady-at k streams s a h =
    subst (λ j. Steady j s) (omega arith) (AllSteady-get 0 k streams s a h)

pub AllSteady-put :
    (k : ℕ) (streams : List StreamState) (s : StreamState)
    → AllSteady 0 streams
    → Steady k s
    → AllSteady 0 (set streams k s)
AllSteady-put k streams s a v =
    AllSteady-set 0 k streams s a (subst (λ j. Steady j s) (omega arith) v)

-- A stream stays steady when its producer completes.
pub complete-Steady :
    (k : ℕ) (s : StreamState) → Steady k s → Steady k (record s { producer_complete = true })
complete-Steady k s v = record {
  named = v.named;
  elements = v.elements;
  held = v.held;
  credit = v.credit;
  in_word = v.in_word;
}

-- ===== src/Reactor/Queue/Holds.antt =====
-- crates/torvyn-reactor/src/queue.rs: the ring that holds a list of elements, oldest first, and the
-- effect of one write to a slot on it.
use torvyn.Common.{
  ℕ, zero, suc, ◌+◌, ◌-◌, ◌%◌, ◌≤◌, ◌<◌, ◌≡◌, refl, subst, sym, ◌∙◌, ap, inl, inr, false, Option,
  none, some, List, [], ◌∷◌, ◌++◌, arith, length, get_elem?, set, replicate, length-append,
  length-set, length-replicate, get_elem?-set_self, get_elem?-set_ne, get_elem?-replicate,
  get_elem?-ge, set-set, Bool-cases, ==_iff, if◌then◌else◌, returns, ◌==◌,
}
use torvyn.Reactor.Queue.Ring.{
  position_lt, position_start, position_full, position_injective, position_next,
}
use torvyn.Reactor.Queue.{
  BoundedQueue, ok, dropped_oldest, new, tail, write, take_slot, enqueue, replace_oldest, pop,
}

module _ {ℓ} {T : Type ℓ} where
  -- The ring holds `xs` from `head` on, and every other slot is empty.
  pub record Holds (q : BoundedQueue T) (xs : List T) : Type ℓ where
    pub sized : length q.buf ≡ q.capacity
    pub in_ring : q.head < q.capacity
    pub counted : q.len ≡ length xs
    pub fits : length xs ≤ q.capacity
    pub slots :
        (i : ℕ)
        → i < q.capacity
        → get_elem? q.buf ((q.head + i) % q.capacity) ≡ some (get_elem? xs i)

  -- A queue of positive capacity starts out empty, and `new` does not panic.
  pub new-Holds : (n : ℕ) → 0 < n → (q : BoundedQueue T) × (new n ≡ returns q) × Holds q []
  unfolding new
  new-Holds n h = (
    record { buf = replicate n none; head = 0; len = 0; capacity = n },
    ground (arith, h),
    record {
      sized = length-replicate n none;
      in_ring = h;
      counted = refl;
      fits = omega arith;
      slots = λ i p. get_elem?-replicate n none _ (position_lt 0 n h i (omega arith));
    },
  )

  write-set :
      (buf : List (Option T)) (i : ℕ) (v : Option T) {old : Option T}
      → get_elem? buf i ≡ some old
      → write buf i v ≡ returns (set buf i v)
  unfolding write
  write-set buf i v h = rw (h, write) refl

  take_slot-set :
      (buf : List (Option T)) (i : ℕ) (x : T)
      → get_elem? buf i ≡ some (some x)
      → take_slot buf i ≡ returns (x, set buf i none)
  unfolding take_slot
  take_slot-set buf i x h = rw (h, take_slot) refl

  get_elem?-append :
      (xs : List T) (a : T) (i : ℕ)
      → get_elem? (xs ++ a ∷ []) i ≡ (if i == length xs then some a else get_elem? xs i)
  get_elem?-append [] a zero = refl
  get_elem?-append [] a (suc i) = ground arith
  get_elem?-append (x ∷ xs) a zero = ground arith
  get_elem?-append (x ∷ xs) a (suc i) = ground (arith, get_elem?-append xs a i)

  module _ (q : BoundedQueue T) (xs : List T) (v : Holds q xs) where
    -- One slot of the ring is written: seen from the head, only its position changes.
    set-slots :
        (k : ℕ) (w : Option T) (i : ℕ)
        → k < q.capacity
        → i < q.capacity
        → get_elem? (set q.buf ((q.head + k) % q.capacity) w) ((q.head + i) % q.capacity)
          ≡ (if i == k then some w else some (get_elem? xs i))
    set-slots k w i p r = elim (Bool-cases (i == k)) [
      | inl same ↦
          rw (same, (==_iff i k).0 same)
            (get_elem?-set_self q.buf _ w
              (omega (arith, v.sized, position_lt q.head q.capacity v.in_ring k (omega arith))))
      | inr other ↦ rw other (
          get_elem?-set_ne q.buf _ _ w
            (λ e. ground (arith, position_injective q.head q.capacity v.in_ring k i p r e))
          ∙ v.slots i r)
    ]

    pub enqueue-Holds :
        (a : T)
        → length xs < q.capacity
        → (q' : BoundedQueue T) × (enqueue q a ≡ returns (q', ok))
          × Holds q' (xs ++ a ∷ [])
          × (q'.capacity ≡ q.capacity)
    unfolding enqueue
    enqueue-Holds a room =
        let at : get_elem? q.buf (tail q) ≡ some (get_elem? xs q.len) =
          v.slots q.len (omega (arith, v.counted)) in
        (
          record q { buf = set q.buf (tail q) (some a); len = q.len + 1 },
          rw (write-set q.buf (tail q) (some a) at) refl,
          record {
            sized = length-set q.buf (tail q) (some a) ∙ v.sized;
            in_ring = v.in_ring;
            counted = omega (arith, length-append xs (a ∷ []), v.counted);
            fits = omega (arith, length-append xs (a ∷ []));
            slots = λ i p.
                set-slots q.len (some a) i (omega (arith, v.counted)) p
                ∙ ground (arith, get_elem?-append xs a i, v.counted);
          },
          refl,
        )

  module _ (q : BoundedQueue T) (x : T) (xs : List T) (v : Holds q (x ∷ xs)) where
    front : get_elem? q.buf q.head ≡ some (some x)
    front =
        subst (λ i. get_elem? q.buf i ≡ some (some x)) (position_start q.head q.capacity v.in_ring)
          (v.slots 0 (omega (arith, v.in_ring)))

    -- The head slot is written and the head moves on: the slot comes last.
    advance_slots :
        (w : Option T) (i : ℕ)
        → i < q.capacity
        → get_elem? (set q.buf q.head w) (((q.head + 1) % q.capacity + i) % q.capacity)
          ≡ (if i + 1 == q.capacity then some w else some (get_elem? xs i))
    advance_slots w i p = elim (Bool-cases (i + 1 == q.capacity)) [
      | inl last ↦
          rw
            (
              last,
              position_next q.head q.capacity v.in_ring i p,
              (==_iff (i + 1) q.capacity).0 last,
              position_full q.head q.capacity v.in_ring,
            )
            (get_elem?-set_self q.buf q.head w (omega (arith, v.sized, v.in_ring)))
      | inr before ↦
          rw (before, position_next q.head q.capacity v.in_ring i p)
            (subst
              (λ h.
                get_elem? (set q.buf h w) ((q.head + (i + 1)) % q.capacity) ≡ some (get_elem? xs i))
              (position_start q.head q.capacity v.in_ring) (later before))
    ]
      where
        later :
            (i + 1 == q.capacity) ≡ false
            → get_elem? (set q.buf ((q.head + 0) % q.capacity) w) ((q.head + (i + 1)) % q.capacity)
              ≡ some (get_elem? xs i)
        later e =
            set-slots q (x ∷ xs) v 0 w (i + 1) (omega (arith, v.in_ring)) (ground arith)
            ∙ ground arith

    pub dequeue-Holds :
        (q' : BoundedQueue T) × (pop q ≡ returns (q', some x))
        × Holds q' xs
        × (q'.capacity ≡ q.capacity)
    unfolding pop
    dequeue-Holds = (
      record q { buf = set q.buf q.head none; head = (q.head + 1) % q.capacity; len = q.len - 1 },
      ground (arith, v.counted, take_slot-set q.buf q.head x front),
      record {
        sized = length-set q.buf q.head none ∙ v.sized;
        in_ring = position_lt q.head q.capacity v.in_ring 1 (omega (arith, v.in_ring));
        counted = omega (arith, v.counted);
        fits = omega (arith, v.fits);
        slots = λ i p. advance_slots none i p ∙ beyond i;
      },
      refl,
    )
      where
        beyond :
            (i : ℕ)
            → (if i + 1 == q.capacity then some none else some (get_elem? xs i))
              ≡ some (get_elem? xs i)
        beyond i = elim (Bool-cases (i + 1 == q.capacity)) [
          | inl last ↦
              let e = (==_iff (i + 1) q.capacity).0 last in
              rw last (ap some (sym (get_elem?-ge xs i (omega (arith, e, v.fits)))))
          | inr before ↦ rw before refl
        ]

    pub replace_oldest-Holds :
        (a : T)
        → length (x ∷ xs) ≡ q.capacity
        → (q' : BoundedQueue T) × (replace_oldest q a ≡ returns (q', dropped_oldest x))
          × Holds q' (xs ++ a ∷ [])
          × (q'.capacity ≡ q.capacity)
    unfolding replace_oldest
    replace_oldest-Holds a all =
        let emptied : get_elem? (set q.buf q.head none) q.head ≡ some none =
          get_elem?-set_self q.buf q.head none (omega (arith, v.sized, v.in_ring)) in
        (
          record q { buf = set q.buf q.head (some a); head = (q.head + 1) % q.capacity },
          rw
              (
                take_slot-set q.buf q.head x front,
                write-set (set q.buf q.head none) q.head (some a) emptied,
                set-set q.buf q.head none (some a),
              )
              refl,
          record {
            sized = length-set q.buf q.head (some a) ∙ v.sized;
            in_ring = position_lt q.head q.capacity v.in_ring 1 (omega (arith, v.in_ring));
            counted = omega (arith, v.counted, length-append xs (a ∷ []));
            fits = omega (arith, length-append xs (a ∷ []));
            slots = λ i p. advance_slots (some a) i p ∙ ground (arith, get_elem?-append xs a i);
          },
          refl,
        )

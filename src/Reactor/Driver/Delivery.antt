-- ===== src/Reactor/Driver/Delivery.antt =====
-- No element that a stage emits is lost in crates/torvyn-reactor/src/flow_driver.rs where its stream has
-- room.
use torvyn.Common.{
  ℕ, ◌-◌, ◌+◌, ◌≡◌, refl, inl, inr, true, some, List, [], ◌∷◌, ◌++◌, arith, lt-length_of_some,
  get_elem?, set, get_elem?-set_self, returns,
}
use torvyn.Common.Word.{u64}
use torvyn.Reactor.Queue.Holds.{Holds}
use torvyn.Reactor.Queue.Refinement.{push-Holds}
use torvyn.Reactor.Streams.{StreamElementRef, StreamState, producer_can_produce, consume_demand}
use torvyn.Reactor.Streams.Credit.{AllSteady, AllSteady-at}
use torvyn.Reactor.Driver.{FlowDriver, emit}

-- A driver in which a stream has an element more at its end, for a credit less.
pub record IsDelivered (d d' : FlowDriver) (si : ℕ) (s : StreamState) (e : StreamElementRef)
    : Type 0 where
  pub after : StreamState
  pub at : get_elem? d'.streams si ≡ some after
  pub before_elements : List StreamElementRef
  pub before_held : Holds s.queue before_elements
  pub after_held : Holds after.queue (before_elements ++ e ∷ [])
  pub credit : after.demand + 1 ≡ s.demand

-- In any build, an element that a stage emits into a stream where the producer can produce, of a driver
-- with steady streams, goes to
-- the end of the stream's queue, behind all that the queue held, under the driver's next sequence
-- number, and costs one credit.
pub emit-IsDelivered :
    (d : FlowDriver) (si : ℕ) (element : ℕ → StreamElementRef) (s : StreamState)
    → AllSteady 0 d.streams
    → get_elem? d.streams si ≡ some s
    → producer_can_produce s ≡ true
    → (d' : FlowDriver) × (emit d si element ≡ returns d')
      × IsDelivered d d' si s (element d.next_global_sequence)
unfolding emit consume_demand producer_can_produce
emit-IsDelivered d si element s v at h =
    let w = AllSteady-at si d.streams s v at in
    let e = element d.next_global_sequence in
    let paid_for : consume_demand d.debug_assertions s
        ≡ returns (record s { demand = s.demand - 1 }) =
      ground (arith, h) in
    elim (push-Holds s.queue w.elements e w.held) [
      | inr (all, run) ↦ absurd (ground (arith, h, all, w.credit))
      | inl (room, (q, run, held, same)) ↦
          let paid : StreamState = record s { demand = s.demand - 1; queue = q } in
          let d' : FlowDriver = record d {
            streams = set d.streams si paid;
            next_global_sequence = u64 (d.next_global_sequence + 1);
          } in
          (
            d',
            rw (at, paid_for, run) refl,
            record {
              after = paid;
              at = get_elem?-set_self d.streams si paid (lt-length_of_some d.streams si at);
              before_elements = w.elements;
              before_held = w.held;
              after_held = held;
              credit = omega (arith, room, w.credit);
            },
          )
    ]

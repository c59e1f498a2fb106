-- ===== src/Reactor/Upkeep/Checks.antt =====
-- What the upkeep in crates/torvyn-reactor/src/flow_driver.rs keeps, and what it changes.
use torvyn.Common.{
  ℕ, zero, suc, ◌+◌, ◌≤◌, ◌<◌, ◌≡◌, ◌⊎◌, refl, sym, ap, subst, ◌∙◌, inl, inr, not, List, [], ◌∷◌,
  arith, leb, if◌then◌else◌, length, get_elem?-lt, returns, Run, Bool-cases,
}
use torvyn.Common.Indices.{AllBelow, AllIn-get}
use torvyn.Reactor.Backpressure.{
  BackpressureState, normal, active, is_active, try_activate, try_deactivate,
  check_backpressure_transition,
}
use torvyn.Reactor.Queue.{BoundedQueue}
use torvyn.Reactor.Queue.Holds.{Holds}
use torvyn.Common.Word.{u64_max}
use torvyn.Reactor.Queue.Refinement.{drain_all-Holds}
use torvyn.Reactor.Streams.{StreamElementRef, StreamState, is_complete}
use torvyn.Reactor.Streams.Credit.{Steady, AllSteady}
use torvyn.Reactor.Topology.{FlowTopology}
use torvyn.Reactor.Scheduling.{StreamIndex}
use torvyn.Reactor.Scheduling.Wired.{IsWired, all_streams-Returns}
use torvyn.Reactor.Driver.Streams.{complete_producers-AllSteady}
use torvyn.Reactor.Upkeep.{
  activate, deactivate, check_stream, check_backpressure_all, propagate_stage, propagate_from,
  propagate_producer_complete, stop_stage, stop_sources, discard_all,
}

-- The check changes the backpressure of a stream, and nothing of its queue and its credits.
check_stream-keeps :
    (now : ℕ) (s : StreamState)
    → let checked = (check_stream now s).0 in
      (checked.id ≡ s.id) × (checked.queue ≡ s.queue) × (checked.demand ≡ s.demand)
unfolding check_stream activate deactivate
check_stream-keeps now s = ground (
  arith,
  check_backpressure_transition s.queue.len s.queue.capacity s.low_watermark_depth
      (is_active s.backpressure),
)

check_stream-Steady : (i now : ℕ) (s : StreamState) → Steady i s → Steady i (check_stream now s).0
check_stream-Steady i now s v =
    let (id, queue, demand) = check_stream-keeps now s in
    record {
      named = id ∙ v.named;
      elements = v.elements;
      held = subst (λ (q : BoundedQueue StreamElementRef). Holds q v.elements) (sym queue) v.held;
      credit =
          ap (λ n. n + length v.elements) demand
          ∙ v.credit
          ∙ ap (λ (q : BoundedQueue StreamElementRef). q.capacity) (sym queue);
      in_word =
          subst (λ (q : BoundedQueue StreamElementRef). q.capacity ≤ u64_max) (sym queue) v.in_word;
    }

pub check_backpressure_all-AllSteady :
    (now i : ℕ) (streams : List StreamState)
    → AllSteady i streams
    → let checked = (check_backpressure_all now i streams).0 in
      AllSteady i checked × (length checked ≡ length streams)
unfolding check_backpressure_all AllSteady
check_backpressure_all-AllSteady now i [] v = (tt, refl)
check_backpressure_all-AllSteady now i (s ∷ streams) (here, there) =
    let (rest, same) = check_backpressure_all-AllSteady now (suc i) streams there in
    ((check_stream-Steady i now s here, rest), ap suc same)

BackpressureState-cases :
    (b : BackpressureState) → (b ≡ normal) ⊎ ((since : ℕ) × (b ≡ active since))
BackpressureState-cases normal = inl refl
BackpressureState-cases (active since) = inr (since, refl)

-- After the check a stream is under backpressure when it was and its queue is above the low watermark,
-- or when it was not and its queue is full.
pub check_stream-is_active :
    (now : ℕ) (s : StreamState)
    → is_active (check_stream now s).0.backpressure ≡ (
        if is_active s.backpressure
        then not (leb s.queue.len s.low_watermark_depth)
        else leb s.queue.capacity s.queue.len)
unfolding check_stream check_backpressure_transition activate deactivate is_active try_activate
    try_deactivate
check_stream-is_active now s = elim (BackpressureState-cases s.backpressure) [
  | inl off ↦ ground (arith, off)
  | inr (since, on) ↦ ground (arith, on)
]

-- A run that returns steady streams, as many as before.
abbrev pub Kept : List StreamState → Run (List StreamState) → Type 0
Kept streams r =
    (streams' : List StreamState) × (r ≡ returns streams')
    × AllSteady 0 streams'
    × (length streams' ≡ length streams)

-- `self.streams[si].is_complete()` for the inputs of a stage, and its outputs marked.
propagate_stage-AllSteady :
    (topology : FlowTopology) (index : StreamIndex) (streams : List StreamState) (stage_idx : ℕ)
    (inputs : List ℕ)
    → IsWired topology index (length streams)
    → AllSteady 0 streams
    → stage_idx < length topology.stages
    → AllBelow (length streams) inputs
    → Kept streams (propagate_stage index streams stage_idx inputs)
unfolding propagate_stage
propagate_stage-AllSteady topology index streams stage_idx [] w v h b = (streams, refl, v, refl)
propagate_stage-AllSteady topology index streams stage_idx (si ∷ inputs) w v h b =
    let (complete, tested) = all_streams-Returns streams is_complete (si ∷ inputs) b in
    let (outputs, at) = get_elem?-lt index.outputs stage_idx (omega (arith, h, w.outputs_length)) in
    let c = AllIn-get (length streams) stage_idx index.outputs outputs w.outputs_below at in
    elim (Bool-cases complete) [
      | inl all_done ↦ rw (tested, at, all_done) (complete_producers-AllSteady streams outputs v c)
      | inr waits ↦ rw (tested, at, waits) (streams, refl, v, refl)
    ]

propagate_from-AllSteady :
    (topology : FlowTopology) (index : StreamIndex) (stage_idx left : ℕ)
    (streams : List StreamState)
    → IsWired topology index (length streams)
    → AllSteady 0 streams
    → stage_idx + left ≤ length topology.stages
    → Kept streams (propagate_from index stage_idx left streams)
unfolding propagate_from
propagate_from-AllSteady topology index stage_idx zero streams w v h = (streams, refl, v, refl)
propagate_from-AllSteady topology index stage_idx (suc left) streams w v h =
    let (inputs, at) = get_elem?-lt index.inputs stage_idx (omega (arith, h, w.inputs_length)) in
    let b = AllIn-get (length streams) stage_idx index.inputs inputs w.inputs_below at in
    let (s1, run1, v1, l1) =
      propagate_stage-AllSteady topology index streams stage_idx inputs w v (omega (arith, h)) b in
    let w1 = subst (λ n. IsWired topology index n) (sym l1) w in
    let (s2, run2, v2, l2) =
      propagate_from-AllSteady topology index (suc stage_idx) left s1 w1 v1 (omega (arith, h)) in
    (s2, rw (at, run1) run2, v2, l2 ∙ l1)

pub propagate-AllSteady :
    (topology : FlowTopology) (index : StreamIndex) (streams : List StreamState)
    → IsWired topology index (length streams)
    → AllSteady 0 streams
    → Kept streams (propagate_producer_complete topology index streams)
unfolding propagate_producer_complete
propagate-AllSteady topology index streams w v =
    propagate_from-AllSteady topology index 0 (length topology.stages) streams w v (omega arith)

stop_stage-AllSteady :
    (topology : FlowTopology) (index : StreamIndex) (streams : List StreamState) (stage_idx : ℕ)
    (inputs : List ℕ)
    → IsWired topology index (length streams)
    → AllSteady 0 streams
    → stage_idx < length topology.stages
    → Kept streams (stop_stage index streams stage_idx inputs)
unfolding stop_stage
stop_stage-AllSteady topology index streams stage_idx [] w v h =
    let (outputs, at) = get_elem?-lt index.outputs stage_idx (omega (arith, h, w.outputs_length)) in
    let c = AllIn-get (length streams) stage_idx index.outputs outputs w.outputs_below at in
    rw at (complete_producers-AllSteady streams outputs v c)
stop_stage-AllSteady topology index streams stage_idx (si ∷ inputs) w v h = (streams, refl, v, refl)

pub stop_sources-AllSteady :
    (topology : FlowTopology) (index : StreamIndex) (stage_idx left : ℕ)
    (streams : List StreamState)
    → IsWired topology index (length streams)
    → AllSteady 0 streams
    → stage_idx + left ≤ length topology.stages
    → Kept streams (stop_sources index stage_idx left streams)
unfolding stop_sources
stop_sources-AllSteady topology index stage_idx zero streams w v h = (streams, refl, v, refl)
stop_sources-AllSteady topology index stage_idx (suc left) streams w v h =
    let (inputs, at) = get_elem?-lt index.inputs stage_idx (omega (arith, h, w.inputs_length)) in
    let (s1, run1, v1, l1) =
      stop_stage-AllSteady topology index streams stage_idx inputs w v (omega (arith, h)) in
    let w1 = subst (λ n. IsWired topology index n) (sym l1) w in
    let (s2, run2, v2, l2) =
      stop_sources-AllSteady topology index (suc stage_idx) left s1 w1 v1 (omega (arith, h)) in
    (s2, rw (at, run1) run2, v2, l2 ∙ l1)

-- The queues of the streams are empty.
unfoldable pub AreEmpty : List StreamState → Type 0
AreEmpty [] = Unit {0}
AreEmpty (s ∷ streams) = (s.queue.len ≡ 0) × AreEmpty streams

-- The discard empties every queue.
pub discard_all-AreEmpty :
    (i : ℕ) (streams : List StreamState)
    → AllSteady i streams
    → (streams' : List StreamState) × (discard_all streams ≡ returns streams')
      × AreEmpty streams'
      × (length streams' ≡ length streams)
unfolding discard_all AreEmpty AllSteady
discard_all-AreEmpty i [] v = ([], refl, tt, refl)
discard_all-AreEmpty i (s ∷ streams) (here, there) =
    let (q, run, held, _) = drain_all-Holds s.queue here.elements here.held in
    let (others, run2, empty, same) = discard_all-AreEmpty (suc i) streams there in
    (record s { queue = q } ∷ others, rw (run, run2) refl, (held.counted, empty), ap suc same)

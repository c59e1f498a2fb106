-- ===== src/Reactor/Scheduling/Wired.antt =====
-- The policy of crates/torvyn-reactor/src/scheduling.rs never panics on an index that fits its topology.
use torvyn.Common.{
  ℕ, ◌<◌, ◌≡◌, refl, inl, inr, Bool, true, false, ◌&&◌, none, some, Option, List, [], ◌∷◌, ◌++◌,
  arith, length, get_elem?-lt, returns, Run, Returns, Returns-bind, Bool-cases, Option-cases,
}
use torvyn.Common.Indices.{AllBelow, AllIn, AllIn-get}
use torvyn.Reactor.Streams.{StreamState, consumer_has_input, producer_can_produce}
use torvyn.Reactor.Topology.{
  ComponentRole, source, processor, sink, filter, router, StageDefinition, FlowTopology,
  topological_order,
}
use torvyn.Reactor.Scheduling.{
  process_element, push_to_sink, StageExecution, StreamIndex, any_stream, all_streams, first_input,
  execution, process_when, ready, walk, reversed, next_ready_stage,
}

-- The topology has an order of its stages, and the index has the inputs and outputs of each stage,
-- among a number of streams.
pub record IsWired (topology : FlowTopology) (index : StreamIndex) (n : ℕ) : Type 0 where
  pub order : List ℕ
  pub ordered : topological_order topology ≡ returns (some order)
  pub in_range : AllBelow (length topology.stages) order
  pub inputs_length : length index.inputs ≡ length topology.stages
  pub outputs_length : length index.outputs ≡ length topology.stages
  pub inputs_below : AllIn n index.inputs
  pub outputs_below : AllIn n index.outputs

module _ (streams : List StreamState) where
  any_stream-Returns :
      (test : StreamState → Bool) (indices : List ℕ)
      → AllBelow (length streams) indices
      → Returns (any_stream streams test indices)
  unfolding any_stream
  any_stream-Returns test [] b = (false, refl)
  any_stream-Returns test (si ∷ indices) (here, there) =
      let (s, at) = get_elem?-lt streams si here in
      let (rest, run) = any_stream-Returns test indices there in
      elim (Bool-cases (test s)) [
        | inl passes ↦ (true, ground (arith, at, passes))
        | inr fails ↦ (rest, ground (arith, at, fails, run))
      ]

  pub all_streams-Returns :
      (test : StreamState → Bool) (indices : List ℕ)
      → AllBelow (length streams) indices
      → Returns (all_streams streams test indices)
  unfolding all_streams
  all_streams-Returns test [] b = (true, refl)
  all_streams-Returns test (si ∷ indices) (here, there) =
      let (s, at) = get_elem?-lt streams si here in
      let (rest, run) = all_streams-Returns test indices there in
      elim (Bool-cases (test s)) [
        | inl passes ↦ (rest, ground (arith, at, passes, run))
        | inr fails ↦ (false, ground (arith, at, fails))
      ]

  first_input-Returns :
      (indices : List ℕ) → AllBelow (length streams) indices → Returns (first_input streams indices)
  unfolding first_input
  first_input-Returns [] b = (none, refl)
  first_input-Returns (si ∷ indices) (here, there) =
      let (s, at) = get_elem?-lt streams si here in
      let (rest, run) = first_input-Returns indices there in
      elim (Bool-cases (consumer_has_input s)) [
        | inl passes ↦ (some s.id, ground (arith, at, passes))
        | inr fails ↦ (rest, ground (arith, at, fails, run))
      ]

  process_when-Returns :
      (stage : StageDefinition) (stage_idx : ℕ) (inputs : List ℕ) (test : Run Bool)
      → AllBelow (length streams) inputs
      → Returns test
      → Returns (process_when streams stage stage_idx inputs test)
  unfolding process_when
  process_when-Returns stage stage_idx inputs test b (room, tested) =
      let (has, run) = any_stream-Returns consumer_has_input inputs b in
      let (found, looked) = first_input-Returns inputs b in
      elim (Bool-cases (has && room)) [
        | inl both ↦
            (execution stage stage_idx process_element found, rw (run, tested, both, looked) refl)
        | inr lacks ↦ (none, rw (run, tested, lacks) refl)
      ]

  ready-Returns :
      (stage : StageDefinition) (stage_idx : ℕ) (inputs outputs : List ℕ) (role : ComponentRole)
      → AllBelow (length streams) inputs
      → AllBelow (length streams) outputs
      → Returns (ready streams stage stage_idx inputs outputs role)
  unfolding ready
  ready-Returns stage stage_idx inputs outputs sink b c =
      let (found, run) = first_input-Returns inputs b in
      (execution stage stage_idx push_to_sink found, rw run refl)
  ready-Returns stage stage_idx inputs outputs source b c =
      Returns-bind (any_stream streams producer_can_produce outputs) _
        (any_stream-Returns producer_can_produce outputs c) (λ can. (_, refl))
  ready-Returns stage stage_idx inputs outputs processor b c =
      process_when-Returns stage stage_idx inputs _ b
        (all_streams-Returns producer_can_produce outputs c)
  ready-Returns stage stage_idx inputs outputs router b c =
      process_when-Returns stage stage_idx inputs _ b
        (any_stream-Returns producer_can_produce outputs c)
  ready-Returns stage stage_idx inputs outputs filter b c =
      let (room, run) = all_streams-Returns producer_can_produce outputs c in
      process_when-Returns stage stage_idx inputs _ b (true, rw run refl)

  module _ (topology : FlowTopology) (index : StreamIndex)
      (w : IsWired topology index (length streams)) where
    walk-Returns :
        (order : List ℕ)
        → AllBelow (length topology.stages) order
        → Returns (walk streams topology index order)
    unfolding walk
    walk-Returns [] b = (none, refl)
    walk-Returns (stage_idx ∷ order) (here, there) =
        let (stage, at1) = get_elem?-lt topology.stages stage_idx here in
        let (inputs, at2) =
          get_elem?-lt index.inputs stage_idx (omega (arith, here, w.inputs_length)) in
        let (outputs, at3) =
          get_elem?-lt index.outputs stage_idx (omega (arith, here, w.outputs_length)) in
        let (found, run) =
          ready-Returns stage stage_idx inputs outputs stage.role
            (AllIn-get (length streams) stage_idx index.inputs inputs w.inputs_below at2)
            (AllIn-get (length streams) stage_idx index.outputs outputs w.outputs_below at3) in
        let (rest, later) = walk-Returns order there in
        elim (Option-cases found) [
          | inl none_here ↦ (rest, rw (at1, at2, at3, run, none_here, later) refl)
          | inr (e, some_here) ↦ (some e, rw (at1, at2, at3, run, some_here) refl)
        ]

AllBelow-append :
    (n i : ℕ) (order : List ℕ) → AllBelow n order → i < n → AllBelow n (order ++ i ∷ [])
AllBelow-append n i [] b h = (h, tt)
AllBelow-append n i (j ∷ order) (here, there) h = (here, AllBelow-append n i order there h)

reversed-AllBelow : (n : ℕ) (order : List ℕ) → AllBelow n order → AllBelow n (reversed order)
unfolding reversed
reversed-AllBelow n [] b = tt
reversed-AllBelow n (i ∷ order) (here, there) =
    AllBelow-append n i (reversed order) (reversed-AllBelow n order there) here

-- Where the index fits the topology, the policy decides without a panic.
pub next_ready_stage-Returns :
    (streams : List StreamState) (topology : FlowTopology) (index : StreamIndex)
    → IsWired topology index (length streams)
    → (found : Option StageExecution) × (next_ready_stage topology streams index ≡ returns found)
unfolding next_ready_stage
next_ready_stage-Returns streams topology index w =
    let (found, run) =
      walk-Returns streams topology index w (reversed w.order)
        (reversed-AllBelow (length topology.stages) w.order w.in_range) in
    (found, rw w.ordered run)

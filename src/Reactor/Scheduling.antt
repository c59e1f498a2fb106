-- ===== src/Reactor/Scheduling.antt =====
-- crates/torvyn-reactor/src/scheduling.rs: the index of the streams of each stage, and the policy that
-- serves consumers first. An index out of bounds is a panic.
pub mod Blocked
pub mod Build
pub mod Picked
pub mod Ready
pub mod Validated
pub mod Wired
use torvyn.Common.{
  ℕ, zero, suc, Bool, true, false, not, ◌&&◌, ◌||◌, Option, none, some, List, [], ◌∷◌, ◌++◌,
  if◌then◌else◌, length, get_elem?, set, replicate, Run, returns, panics, ◌>>=◌, expect,
}
use torvyn.Reactor.Streams.{StreamState, producer_can_produce, consumer_has_input}
use torvyn.Reactor.Topology.{
  ComponentRole, source, processor, sink, filter, router, StageDefinition, StreamConnection,
  FlowTopology, topological_order,
}

pub data StageAction : Type 0 where
  pull_from_source : StageAction
  process_element : (input_stream : ℕ) → StageAction
  push_to_sink : (input_stream : ℕ) → StageAction

pub record StageExecution : Type 0 where
  pub component_id : ℕ
  pub stage_index : ℕ
  pub action : StageAction

pub record StreamIndex : Type 0 where
  pub inputs : List (List ℕ)
  pub outputs : List (List ℕ)
  pub producers : List ℕ

-- `lists[i].push(stream_idx)`.
unfoldable pub push_at : List (List ℕ) → ℕ → ℕ → Run (List (List ℕ))
push_at lists i stream_idx = do
  found ← expect (get_elem? lists i)
  returns (set lists i (found ++ stream_idx ∷ []))

-- The loop of `build` on the connections from an index on; it writes the producers in order.
unfoldable pub build_from : ℕ → StreamIndex → List StreamConnection → Run StreamIndex
unfolding push_at
build_from stream_idx index [] = returns index
build_from stream_idx index (conn ∷ connections) =
    push_at index.outputs conn.from_stage stream_idx >>= λ outputs.
    push_at index.inputs conn.to_stage stream_idx >>= λ inputs.
    build_from (suc stream_idx)
      (record {
        inputs = inputs;
        outputs = outputs;
        producers = index.producers ++ conn.from_stage ∷ [];
      })
      connections

unfoldable pub build : FlowTopology → Run StreamIndex
unfolding build_from
build topology =
    let n = length topology.stages in
    build_from 0 (record { inputs = replicate n []; outputs = replicate n []; producers = [] })
      topology.connections

unfoldable pub execution :
    StageDefinition → ℕ → (ℕ → StageAction) → Option ℕ → Option StageExecution
execution stage stage_idx action none = none
execution stage stage_idx action (some id) =
    some (record { component_id = stage.component_id; stage_index = stage_idx; action = action id })

module _ (streams : List StreamState) where
  -- `iter().any(..)` and `iter().all(..)` on the streams of a list of indices: they stop early.
  unfoldable pub any_stream : (StreamState → Bool) → List ℕ → Run Bool
  any_stream test [] = returns false
  any_stream test (si ∷ indices) =
      let rest = any_stream test indices in
      expect (get_elem? streams si) >>= λ s. if test s then returns true else rest

  unfoldable pub all_streams : (StreamState → Bool) → List ℕ → Run Bool
  all_streams test [] = returns true
  all_streams test (si ∷ indices) =
      let rest = all_streams test indices in
      expect (get_elem? streams si) >>= λ s. if test s then rest else returns false

  -- The first stream with input, by its id.
  unfoldable pub first_input : List ℕ → Run (Option ℕ)
  unfolding consumer_has_input
  first_input [] = returns none
  first_input (si ∷ indices) =
      let rest = first_input indices in
      expect (get_elem? streams si) >>= λ s.
      if consumer_has_input s then returns (some s.id) else rest

  -- `has_input` is tested, then the outputs, then the inputs are searched.
  unfoldable pub process_when :
      StageDefinition → ℕ → List ℕ → Run Bool → Run (Option StageExecution)
  unfolding any_stream consumer_has_input first_input execution
  process_when stage stage_idx inputs output_test =
      any_stream consumer_has_input inputs >>= λ has_input. output_test >>= λ has_output_capacity.
      if has_input && has_output_capacity
      then (first_input inputs >>= λ found.
          returns (execution stage stage_idx process_element found))
      else returns none

  -- The arm of the match for a stage: the execution that it returns, or none where the walk goes on.
  unfoldable pub ready :
      StageDefinition → ℕ → List ℕ → List ℕ → ComponentRole → Run (Option StageExecution)
  unfolding first_input execution process_when any_stream all_streams producer_can_produce
  ready stage stage_idx inputs outputs sink =
      first_input inputs >>= λ found. returns (execution stage stage_idx push_to_sink found)
  ready stage stage_idx inputs outputs processor =
      process_when stage stage_idx inputs (all_streams producer_can_produce outputs)
  ready stage stage_idx inputs outputs filter =
      process_when stage stage_idx inputs
        (all_streams producer_can_produce outputs >>= λ _. returns true)
  ready stage stage_idx inputs outputs source =
      any_stream producer_can_produce outputs >>= λ can_produce. returns (
        if can_produce
        then some (record {
          component_id = stage.component_id;
          stage_index = stage_idx;
          action = pull_from_source;
        })
        else none)
  ready stage stage_idx inputs outputs router =
      process_when stage stage_idx inputs (any_stream producer_can_produce outputs)

  -- The loop of `next_ready_stage` on the rest of the walk.
  unfoldable pub walk : FlowTopology → StreamIndex → List ℕ → Run (Option StageExecution)
  unfolding ready
  walk topology index [] = returns none
  walk topology index (stage_idx ∷ order) =
      let rest = walk topology index order in
      expect (get_elem? topology.stages stage_idx) >>= λ stage.
      expect (get_elem? index.inputs stage_idx) >>= λ inputs.
      expect (get_elem? index.outputs stage_idx) >>= λ outputs.
      ready stage stage_idx inputs outputs stage.role >>= λ found. elim found [
        | none ↦ rest
        | some e ↦ returns (some e)
      ]

unfoldable pub reversed : List ℕ → List ℕ
reversed [] = []
reversed (i ∷ order) = reversed order ++ i ∷ []

unfoldable pub next_ready_stage :
    FlowTopology → List StreamState → StreamIndex → Run (Option StageExecution)
unfolding topological_order reversed walk
next_ready_stage topology streams index = topological_order topology >>= λ found. elim found [
  | none ↦ returns none
  | some topo_order ↦ walk streams topology index (reversed topo_order)
]

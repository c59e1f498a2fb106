-- ===== src/Reactor/Scheduling/Picked.antt =====
-- The policy of crates/torvyn-reactor/src/scheduling.rs picks stages of the topology.
use torvyn.Common.{
  ℕ, ◌<◌, ◌≡◌, sym, ap, ◌∙◌, inl, inr, Bool, ◌&&◌, none, some, Option, List, [], ◌∷◌, arith, length,
  get_elem?, lt-length_of_some, returns, Run, bind_returns, expect-some, returns_inj, Bool-cases,
  Option-cases, expect, ◌>>=◌,
}
use torvyn.Reactor.Streams.{StreamState, consumer_has_input, producer_can_produce}
use torvyn.Reactor.Topology.{
  ComponentRole, source, processor, sink, filter, router, StageDefinition, FlowTopology,
  topological_order,
}
use torvyn.Reactor.Scheduling.{
  StageAction, pull_from_source, process_element, push_to_sink, StageExecution, StreamIndex,
  any_stream, first_input, execution, process_when, ready, walk, reversed, next_ready_stage,
}

some_inj : (a b : StageExecution) → some a ≡ some b → a ≡ b
some_inj a b h = cc

execution-stage_index :
    (stage : StageDefinition) (stage_idx : ℕ) (action : ℕ → StageAction) (found : Option ℕ)
    (e : StageExecution)
    → execution stage stage_idx action found ≡ some e
    → e.stage_index ≡ stage_idx
unfolding execution
execution-stage_index stage stage_idx action none e h = absurd (ground (arith, h))
execution-stage_index stage stage_idx action (some id) e h =
    ap (λ (x : StageExecution). x.stage_index) (sym (some_inj _ e h))

process_when-stage_index :
    (streams : List StreamState) (stage : StageDefinition) (stage_idx : ℕ) (inputs : List ℕ)
    (test : Run Bool) (e : StageExecution)
    → process_when streams stage stage_idx inputs test ≡ returns (some e)
    → e.stage_index ≡ stage_idx
unfolding process_when
process_when-stage_index streams stage stage_idx inputs test e h =
    let (has_input, _, h1) = bind_returns (any_stream streams consumer_has_input inputs) _ _ h in
    let (has_output, _, h2) = bind_returns test _ _ h1 in
    elim (Bool-cases (has_input && has_output)) [
      | inl both ↦
          let h3 : ((first_input streams inputs >>= λ found.
          returns (execution stage stage_idx process_element found))
              ≡ returns (some e)) =
            ground (arith, h2, both) in
          let (found, _, h4) = bind_returns (first_input streams inputs) _ _ h3 in
          execution-stage_index stage stage_idx process_element found e (returns_inj _ _ h4)
      | inr lacks ↦ absurd (ground (arith, h2, lacks))
    ]

ready-stage_index :
    (streams : List StreamState) (stage : StageDefinition) (stage_idx : ℕ) (inputs outputs : List ℕ)
    (role : ComponentRole) (e : StageExecution)
    → ready streams stage stage_idx inputs outputs role ≡ returns (some e)
    → e.stage_index ≡ stage_idx
unfolding ready execution
ready-stage_index streams stage stage_idx inputs outputs sink e h =
    let (found, _, h1) = bind_returns (first_input streams inputs) _ _ h in
    execution-stage_index stage stage_idx push_to_sink found e (returns_inj _ _ h1)
ready-stage_index streams stage stage_idx inputs outputs source e h =
    let (can_produce, _, h1) =
      bind_returns (any_stream streams producer_can_produce outputs) _ _ h in
    elim (Bool-cases can_produce) [
      | inl can ↦
          execution-stage_index stage stage_idx (λ _. pull_from_source) (some 0) e
            (ground (arith, h1, can))
      | inr cannot ↦ absurd (ground (arith, h1, cannot))
    ]
ready-stage_index streams stage stage_idx inputs outputs processor e h =
    process_when-stage_index streams stage stage_idx inputs _ e h
ready-stage_index streams stage stage_idx inputs outputs filter e h =
    process_when-stage_index streams stage stage_idx inputs _ e h
ready-stage_index streams stage stage_idx inputs outputs router e h =
    process_when-stage_index streams stage stage_idx inputs _ e h

walk-stage_index :
    (streams : List StreamState) (topology : FlowTopology) (index : StreamIndex) (order : List ℕ)
    (e : StageExecution)
    → walk streams topology index order ≡ returns (some e)
    → e.stage_index < length topology.stages
unfolding walk
walk-stage_index streams topology index [] e h = absurd (ground (arith, h))
walk-stage_index streams topology index (stage_idx ∷ order) e h =
    let (stage, at, h1) = bind_returns (expect (get_elem? topology.stages stage_idx)) _ _ h in
    let (inputs, _, h2) = bind_returns (expect (get_elem? index.inputs stage_idx)) _ _ h1 in
    let (outputs, _, h3) = bind_returns (expect (get_elem? index.outputs stage_idx)) _ _ h2 in
    let inside = lt-length_of_some topology.stages stage_idx (expect-some _ stage at) in
    let (found, here, h4) =
      bind_returns (ready streams stage stage_idx inputs outputs stage.role) _ _ h3 in
    elim (Option-cases found) [
      | inl none_here ↦
          walk-stage_index streams topology index order e (ground (arith, h4, none_here))
      | inr (e', some_here) ↦
          let same : e' ≡ e = ground (arith, h4, some_here) in
          let picked =
            ready-stage_index streams stage stage_idx inputs outputs stage.role e
              (here ∙ ap returns (some_here ∙ ap some same)) in
          omega (arith, inside, picked)
    ]

-- A stage that the policy picks is one of the topology.
pub next_ready_stage-stage_index :
    (topology : FlowTopology) (streams : List StreamState) (index : StreamIndex)
    (e : StageExecution)
    → next_ready_stage topology streams index ≡ returns (some e)
    → e.stage_index < length topology.stages
unfolding next_ready_stage
next_ready_stage-stage_index topology streams index e h =
    let (found, _, h1) = bind_returns (topological_order topology) _ _ h in
    elim (Option-cases found) [
      | inl no_fuel ↦ absurd (ground (arith, h1, no_fuel))
      | inr (order, got) ↦
          walk-stage_index streams topology index (reversed order) e (ground (arith, h1, got))
    ]

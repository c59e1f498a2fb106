-- ===== src/Reactor/Scheduling/Ready.antt =====
-- Which stages the policy of crates/torvyn-reactor/src/scheduling.rs finds ready.
use torvyn.Common.{
  ℕ, ◌<◌, ◌≡◌, refl, sym, ap, subst, ◌∙◌, inl, inr, Bool, true, ◌&&◌, none, some, Option, List, [],
  ◌∷◌, arith, length, get_elem?, lt-length_of_some, returns, Run, bind_returns, expect-some,
  returns_inj, Bool-cases, Option-cases, expect, ◌>>=◌,
}
use torvyn.Reactor.Streams.{StreamState, consumer_has_input, producer_can_produce}
use torvyn.Reactor.Topology.{
  ComponentRole, source, processor, sink, filter, router, StageDefinition, FlowTopology,
  topological_order,
}
use torvyn.Reactor.Scheduling.{
  StageAction, pull_from_source, process_element, push_to_sink, StageExecution, StreamIndex,
  any_stream, first_input, execution, process_when, ready, walk, reversed, next_ready_stage,
}

-- A stream has input.
unfoldable pub HasInput : List StreamState → ℕ → Type 0
HasInput streams id =
    (s : StreamState) × (get_elem? streams id ≡ some s) × (consumer_has_input s ≡ true)

-- What an action needs: a stage of the index, and an element where it takes one.
unfoldable pub IsRunnable : List StreamState → StreamIndex → ℕ → StageAction → Type 0
unfolding HasInput
IsRunnable streams index stage_idx pull_from_source = stage_idx < length index.outputs
IsRunnable streams index stage_idx (process_element id) =
    (stage_idx < length index.outputs) × HasInput streams id
IsRunnable streams index stage_idx (push_to_sink id) = HasInput streams id

-- The streams bear their indices as ids.
unfoldable pub AreNamed : List StreamState → Type 0
AreNamed streams = (i : ℕ) (s : StreamState) → get_elem? streams i ≡ some s → s.id ≡ i

some_inj : (a b : StageExecution) → some a ≡ some b → a ≡ b
some_inj a b h = cc

first_input-HasInput :
    (streams : List StreamState) (indices : List ℕ) (id : ℕ)
    → AreNamed streams
    → first_input streams indices ≡ returns (some id)
    → HasInput streams id
unfolding first_input AreNamed HasInput
first_input-HasInput streams [] id named h = absurd (ground (arith, h))
first_input-HasInput streams (si ∷ indices) id named h =
    elim (Option-cases (get_elem? streams si)) [
      | inl out ↦ absurd (ground (arith, h, out))
      | inr (s, at) ↦ elim (Bool-cases (consumer_has_input s)) [
        | inl here ↦
            let same : s.id ≡ id = ground (arith, h, at, here) in
            (s, subst (λ i. get_elem? streams i ≡ some s) (sym (named si s at) ∙ same) at, here)
        | inr there ↦ first_input-HasInput streams indices id named (ground (arith, h, at, there))
      ]
    ]

execution-IsRunnable :
    (streams : List StreamState) (index : StreamIndex) (stage : StageDefinition) (stage_idx : ℕ)
    (action : ℕ → StageAction) (found : Option ℕ) (e : StageExecution)
    → ((id : ℕ) → found ≡ some id → IsRunnable streams index stage_idx (action id))
    → execution stage stage_idx action found ≡ some e
    → IsRunnable streams index e.stage_index e.action
unfolding execution
execution-IsRunnable streams index stage stage_idx action none e k h = absurd (ground (arith, h))
execution-IsRunnable streams index stage stage_idx action (some id) e k h =
    subst (λ (x : StageExecution). IsRunnable streams index x.stage_index x.action) (some_inj _ e h)
      (k id refl)

process_when-IsRunnable :
    (streams : List StreamState) (index : StreamIndex) (stage : StageDefinition) (stage_idx : ℕ)
    (inputs : List ℕ) (test : Run Bool) (e : StageExecution)
    → AreNamed streams
    → stage_idx < length index.outputs
    → process_when streams stage stage_idx inputs test ≡ returns (some e)
    → IsRunnable streams index e.stage_index e.action
unfolding process_when IsRunnable
process_when-IsRunnable streams index stage stage_idx inputs test e named inside h =
    let (has_input, _, h1) = bind_returns (any_stream streams consumer_has_input inputs) _ _ h in
    let (has_output, _, h2) = bind_returns test _ _ h1 in
    elim (Bool-cases (has_input && has_output)) [
      | inl both ↦
          let h3 : ((first_input streams inputs >>= λ found.
          returns (execution stage stage_idx process_element found))
              ≡ returns (some e)) =
            ground (arith, h2, both) in
          let (found, run, h4) = bind_returns (first_input streams inputs) _ _ h3 in
          execution-IsRunnable streams index stage stage_idx process_element found e
            (λ id at. (inside, first_input-HasInput streams inputs id named (run ∙ ap returns at)))
            (returns_inj _ _ h4)
      | inr lacks ↦ absurd (ground (arith, h2, lacks))
    ]

ready-IsRunnable :
    (streams : List StreamState) (index : StreamIndex) (stage : StageDefinition) (stage_idx : ℕ)
    (inputs outputs : List ℕ) (role : ComponentRole) (e : StageExecution)
    → AreNamed streams
    → stage_idx < length index.outputs
    → ready streams stage stage_idx inputs outputs role ≡ returns (some e)
    → IsRunnable streams index e.stage_index e.action
unfolding ready IsRunnable execution
ready-IsRunnable streams index stage stage_idx inputs outputs sink e named inside h =
    let (found, run, h1) = bind_returns (first_input streams inputs) _ _ h in
    execution-IsRunnable streams index stage stage_idx push_to_sink found e
      (λ id at. first_input-HasInput streams inputs id named (run ∙ ap returns at))
      (returns_inj _ _ h1)
ready-IsRunnable streams index stage stage_idx inputs outputs source e named inside h =
    let (can_produce, _, h1) =
      bind_returns (any_stream streams producer_can_produce outputs) _ _ h in
    elim (Bool-cases can_produce) [
      | inl can ↦
          let same : execution stage stage_idx (λ _. pull_from_source) (some 0) ≡ some e =
            ground (arith, h1, can) in
          execution-IsRunnable streams index stage stage_idx (λ _. pull_from_source) (some 0) e
            (λ id at. inside) same
      | inr cannot ↦ absurd (ground (arith, h1, cannot))
    ]
ready-IsRunnable streams index stage stage_idx inputs outputs processor e named inside h =
    process_when-IsRunnable streams index stage stage_idx inputs _ e named inside h
ready-IsRunnable streams index stage stage_idx inputs outputs filter e named inside h =
    process_when-IsRunnable streams index stage stage_idx inputs _ e named inside h
ready-IsRunnable streams index stage stage_idx inputs outputs router e named inside h =
    process_when-IsRunnable streams index stage stage_idx inputs _ e named inside h

walk-IsRunnable :
    (streams : List StreamState) (topology : FlowTopology) (index : StreamIndex) (order : List ℕ)
    (e : StageExecution)
    → AreNamed streams
    → walk streams topology index order ≡ returns (some e)
    → IsRunnable streams index e.stage_index e.action
unfolding walk
walk-IsRunnable streams topology index [] e named h = absurd (ground (arith, h))
walk-IsRunnable streams topology index (stage_idx ∷ order) e named h =
    let (stage, _, h1) = bind_returns (expect (get_elem? topology.stages stage_idx)) _ _ h in
    let (inputs, _, h2) = bind_returns (expect (get_elem? index.inputs stage_idx)) _ _ h1 in
    let (outputs, out, h3) = bind_returns (expect (get_elem? index.outputs stage_idx)) _ _ h2 in
    let inside = lt-length_of_some index.outputs stage_idx (expect-some _ outputs out) in
    let (found, here, h4) =
      bind_returns (ready streams stage stage_idx inputs outputs stage.role) _ _ h3 in
    elim (Option-cases found) [
      | inl none_here ↦
          walk-IsRunnable streams topology index order e named (ground (arith, h4, none_here))
      | inr (e', some_here) ↦
          let same : e' ≡ e = ground (arith, h4, some_here) in
          ready-IsRunnable streams index stage stage_idx inputs outputs stage.role e named inside
            (here ∙ ap returns (some_here ∙ ap some same))
    ]

-- A stage that the policy picks has what its action needs: its place in the index, and an element in
-- the stream that it is to take one from.
pub next_ready_stage-IsRunnable :
    (topology : FlowTopology) (streams : List StreamState) (index : StreamIndex)
    (e : StageExecution)
    → AreNamed streams
    → next_ready_stage topology streams index ≡ returns (some e)
    → IsRunnable streams index e.stage_index e.action
unfolding next_ready_stage
next_ready_stage-IsRunnable topology streams index e named h =
    let (found, _, h1) = bind_returns (topological_order topology) _ _ h in
    elim (Option-cases found) [
      | inl no_fuel ↦ absurd (ground (arith, h1, no_fuel))
      | inr (order, got) ↦
          walk-IsRunnable streams topology index (reversed order) e named (ground (arith, h1, got))
    ]

-- ===== src/Reactor/Scheduling/Blocked.antt =====
-- When the policy of crates/torvyn-reactor/src/scheduling.rs finds no stage ready.
use torvyn.Common.{
  ℕ, ◌≡◌, refl, ap, ◌∙◌, ◌⊎◌, inl, inr, Bool, false, none, some, Option, List, [], ◌∷◌, arith,
  get_elem?, returns, Run, bind_returns, expect-some, returns_inj, Bool-cases, Option-cases, expect,
  ◌>>=◌,
}
use torvyn.Reactor.Streams.{StreamState, consumer_has_input, producer_can_produce}
use torvyn.Reactor.Topology.{
  ComponentRole, source, processor, sink, filter, router, StageDefinition, FlowTopology,
}
use torvyn.Reactor.Scheduling.{
  StageAction, push_to_sink, process_element, StreamIndex, any_stream, all_streams, first_input,
  execution, process_when, ready, walk,
}

module _ (streams : List StreamState) where
  -- A stream fails a test.
  unfoldable pub FailsAt : (StreamState → Bool) → ℕ → Type 0
  FailsAt test si = (s : StreamState) × (get_elem? streams si ≡ some s) × (test s ≡ false)

  -- All streams of a list of indices fail it, and some stream of the list does.
  unfoldable pub AllFail : (StreamState → Bool) → List ℕ → Type 0
  unfolding FailsAt
  AllFail test [] = Unit {0}
  AllFail test (si ∷ indices) = FailsAt test si × AllFail test indices

  unfoldable pub SomeFails : (StreamState → Bool) → List ℕ → Type 0
  unfolding FailsAt
  SomeFails test [] = ⊥
  SomeFails test (si ∷ indices) = FailsAt test si ⊎ SomeFails test indices

  -- A stage of a role waits: for input, or for room behind it.
  unfoldable pub IsBlocked : ComponentRole → List ℕ → List ℕ → Type 0
  unfolding AllFail SomeFails
  IsBlocked source inputs outputs = AllFail producer_can_produce outputs
  IsBlocked sink inputs outputs = AllFail consumer_has_input inputs
  IsBlocked filter inputs outputs = AllFail consumer_has_input inputs
  IsBlocked processor inputs outputs =
      AllFail consumer_has_input inputs ⊎ SomeFails producer_can_produce outputs
  IsBlocked router inputs outputs =
      AllFail consumer_has_input inputs ⊎ AllFail producer_can_produce outputs

  any_stream-AllFail :
      (test : StreamState → Bool) (indices : List ℕ)
      → any_stream streams test indices ≡ returns false
      → AllFail test indices
  unfolding any_stream AllFail FailsAt
  any_stream-AllFail test [] h = tt
  any_stream-AllFail test (si ∷ indices) h =
      let (s, at, h1) = bind_returns (expect (get_elem? streams si)) _ _ h in
      elim (Bool-cases (test s)) [
        | inl passes ↦ absurd (ground (arith, h1, passes))
        | inr fails ↦ (
          (s, expect-some _ s at, fails),
          any_stream-AllFail test indices (ground (arith, h1, fails)),
        )
      ]

  all_streams-SomeFails :
      (test : StreamState → Bool) (indices : List ℕ)
      → all_streams streams test indices ≡ returns false
      → SomeFails test indices
  unfolding all_streams SomeFails FailsAt
  all_streams-SomeFails test [] h = absurd (ground (arith, h))
  all_streams-SomeFails test (si ∷ indices) h =
      let (s, at, h1) = bind_returns (expect (get_elem? streams si)) _ _ h in
      elim (Bool-cases (test s)) [
        | inl passes ↦ inr (all_streams-SomeFails test indices (ground (arith, h1, passes)))
        | inr fails ↦ inl (s, expect-some _ s at, fails)
      ]

  first_input-AllFail :
      (indices : List ℕ)
      → first_input streams indices ≡ returns none
      → AllFail consumer_has_input indices
  unfolding first_input AllFail FailsAt
  first_input-AllFail [] h = tt
  first_input-AllFail (si ∷ indices) h =
      let (s, at, h1) = bind_returns (expect (get_elem? streams si)) _ _ h in
      elim (Bool-cases (consumer_has_input s)) [
        | inl passes ↦ absurd (ground (arith, h1, passes))
        | inr fails ↦ (
          (s, expect-some _ s at, fails),
          first_input-AllFail indices (ground (arith, h1, fails)),
        )
      ]

  execution-none :
      (stage : StageDefinition) (stage_idx : ℕ) (found : Option ℕ) (action : ℕ → StageAction)
      → execution stage stage_idx action found ≡ none
      → found ≡ none
  unfolding execution
  execution-none stage stage_idx none action h = refl
  execution-none stage stage_idx (some id) action h = absurd (ground (arith, h))

  process_when-waits :
      (stage : StageDefinition) (stage_idx : ℕ) (inputs : List ℕ) (test : Run Bool)
      → process_when streams stage stage_idx inputs test ≡ returns none
      → AllFail consumer_has_input inputs ⊎ (test ≡ returns false)
  unfolding process_when
  process_when-waits stage stage_idx inputs test h =
      let (has_input, tested, h1) =
        bind_returns (any_stream streams consumer_has_input inputs) _ _ h in
      let (has_output, room, h2) = bind_returns test _ _ h1 in
      elim (Bool-cases has_input) [
        | inr lacks ↦ inl (any_stream-AllFail consumer_has_input inputs (tested ∙ ap returns lacks))
        | inl has ↦ elim (Bool-cases has_output) [
          | inr full ↦ inr (room ∙ ap returns full)
          | inl free ↦
              let h3 : ((first_input streams inputs >>= λ found.
              returns (execution stage stage_idx process_element found))
                  ≡ returns none) =
                ground (arith, h2, has, free) in
              let (found, run, h4) = bind_returns (first_input streams inputs) _ _ h3 in
              inl (
                first_input-AllFail inputs (
                  run
                  ∙ ap returns
                      (execution-none stage stage_idx found process_element (returns_inj _ _ h4))))
        ]
      ]

  ready-IsBlocked :
      (stage : StageDefinition) (stage_idx : ℕ) (inputs outputs : List ℕ) (role : ComponentRole)
      → ready streams stage stage_idx inputs outputs role ≡ returns none
      → IsBlocked role inputs outputs
  unfolding ready IsBlocked
  ready-IsBlocked stage stage_idx inputs outputs sink h =
      let (found, run, h1) = bind_returns (first_input streams inputs) _ _ h in
      first_input-AllFail inputs
        (run ∙ ap returns (execution-none stage stage_idx found push_to_sink (returns_inj _ _ h1)))
  ready-IsBlocked stage stage_idx inputs outputs source h =
      let (can, run, h1) = bind_returns (any_stream streams producer_can_produce outputs) _ _ h in
      let cannot : can ≡ false = ground (arith, h1) in
      any_stream-AllFail producer_can_produce outputs (run ∙ ap returns cannot)
  ready-IsBlocked stage stage_idx inputs outputs processor h =
      elim (process_when-waits stage stage_idx inputs _ h) [
        | inl waits ↦ inl waits
        | inr full ↦ inr (all_streams-SomeFails producer_can_produce outputs full)
      ]
  ready-IsBlocked stage stage_idx inputs outputs router h =
      elim (process_when-waits stage stage_idx inputs _ h) [
        | inl waits ↦ inl waits
        | inr full ↦ inr (any_stream-AllFail producer_can_produce outputs full)
      ]
  ready-IsBlocked stage stage_idx inputs outputs filter h =
      elim (process_when-waits stage stage_idx inputs _ h) [
        | inl waits ↦ waits
        | inr full ↦
            let (b, run, h1) =
              bind_returns (all_streams streams producer_can_produce outputs) _ _ full in
            absurd (ground (arith, h1))
      ]

  -- The stages of a walk are blocked.
  unfoldable pub AllBlocked : FlowTopology → StreamIndex → List ℕ → Type 0
  AllBlocked topology index [] = Unit {0}
  AllBlocked topology index (stage_idx ∷ order) =
      ((stage : StageDefinition) × (inputs : List ℕ) × (outputs : List ℕ) × (get_elem?
            topology.stages stage_idx
          ≡ some stage)
        × (get_elem? index.inputs stage_idx ≡ some inputs)
        × (get_elem? index.outputs stage_idx ≡ some outputs)
        × IsBlocked stage.role inputs outputs)
      × AllBlocked topology index order

  -- A walk finds no stage only where each of its stages is blocked: a source, as none of its output
  -- streams has room; a sink or a filter, as none of its input streams has an element; a processor or a
  -- router, as it has no input or not the room that it needs.
  pub walk-AllBlocked :
      (topology : FlowTopology) (index : StreamIndex) (order : List ℕ)
      → walk streams topology index order ≡ returns none
      → AllBlocked topology index order
  unfolding walk AllBlocked
  walk-AllBlocked topology index [] h = tt
  walk-AllBlocked topology index (stage_idx ∷ order) h =
      let (stage, at1, h1) = bind_returns (expect (get_elem? topology.stages stage_idx)) _ _ h in
      let (inputs, at2, h2) = bind_returns (expect (get_elem? index.inputs stage_idx)) _ _ h1 in
      let (outputs, at3, h3) = bind_returns (expect (get_elem? index.outputs stage_idx)) _ _ h2 in
      let (found, here, h4) =
        bind_returns (ready streams stage stage_idx inputs outputs stage.role) _ _ h3 in
      elim (Option-cases found) [
        | inr (e, some_here) ↦ absurd (ground (arith, h4, some_here))
        | inl none_here ↦ (
          (
            stage,
            inputs,
            outputs,
            expect-some _ stage at1,
            expect-some _ inputs at2,
            expect-some _ outputs at3,
            ready-IsBlocked stage stage_idx inputs outputs stage.role (here ∙ ap returns none_here),
          ),
          walk-AllBlocked topology index order (ground (arith, h4, none_here)),
        )
      ]

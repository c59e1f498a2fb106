-- ===== src/Types/Tests.antt =====
-- The theorems about the state machines at concrete states, and runs of the machines.
use torvyn.Common.{◌≡◌, refl, List, [], ◌∷◌}
use torvyn.Types.FlowState.{
  FlowState, created, validated, instantiated, running, draining, completed, failed, transition_to,
}
use torvyn.Types.FlowState.Lifecycle.{visited}

abbrev attempts : List FlowState
attempts = running ∷ validated ∷ failed ∷ created ∷ []

visited_run : visited created attempts ≡ validated ∷ failed ∷ []
unfolding visited transition_to
visited_run = refl

abbrev stages : List FlowState
stages = validated ∷ instantiated ∷ running ∷ draining ∷ completed ∷ []

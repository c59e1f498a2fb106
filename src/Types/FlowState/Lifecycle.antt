-- ===== src/Types/FlowState/Lifecycle.antt =====
-- The lifecycle that FlowState of crates/torvyn-types/src/state.rs allows.
use torvyn.Common.{ℕ, suc, ◌≤◌, ◌<◌, ◌≡◌, refl, ◌↔◌, true, false, not, arith, List, [], ◌∷◌}
use torvyn.Types.FlowState.{
  FlowState, created, validated, instantiated, running, draining, completed, cancelled, failed, ok,
  err, can_transition_to, transition_to, is_terminal, is_active,
}

-- The states that a list of attempted targets leads through, the refused ones left out.
unfoldable pub visited : FlowState → List FlowState → List FlowState
visited s [] = []
visited s (target ∷ targets) = elim (transition_to s target) [
  | ok s' ↦ s' ∷ visited s' targets
  | err e ↦ visited s targets
]

abbrev pub count : List FlowState → ℕ
count [] = 0
count (s ∷ ss) = suc (count ss)

-- How many transitions a state can still make.
abbrev height : FlowState → ℕ
height created = 5
height validated = 4
height instantiated = 3
height running = 2
height draining = 1
height _ = 0

height-falls : (s t : FlowState) → can_transition_to s t ≡ true → height t < height s
unfolding can_transition_to
height-falls s t h = ground arith

count-visited : (s : FlowState) (targets : List FlowState) → count (visited s targets) ≤ height s
unfolding visited transition_to
count-visited s [] = omega arith
count-visited s (t ∷ ts) = ground (arith, height-falls s t, count-visited t ts, count-visited s ts)

-- Whatever transitions are attempted, at most five of them succeed, from any state.
pub visited_bounded : (s : FlowState) (targets : List FlowState) → count (visited s targets) ≤ 5
visited_bounded s targets = ground (arith, count-visited s targets)

-- A state is terminal exactly when no transition out of it is legal, and active exactly when it is
-- not terminal.
pub is_terminal_iff :
    (s : FlowState)
    → ((is_terminal s ≡ true) ↔ ((t : FlowState) → can_transition_to s t ≡ false))
      × (is_active s ≡ not (is_terminal s))
unfolding is_terminal is_active can_transition_to
is_terminal_iff created = ((λ h. cc, λ h. cc (h validated)), refl)
is_terminal_iff validated = ((λ h. cc, λ h. cc (h failed)), refl)
is_terminal_iff instantiated = ((λ h. cc, λ h. cc (h running)), refl)
is_terminal_iff running = ((λ h. cc, λ h. cc (h draining)), refl)
is_terminal_iff draining = ((λ h. cc, λ h. cc (h failed)), refl)
is_terminal_iff completed = ((λ h t. refl, λ h. refl), refl)
is_terminal_iff cancelled = ((λ h t. refl, λ h. refl), refl)
is_terminal_iff failed = ((λ h t. refl, λ h. refl), refl)

-- A chain of successful transitions that ends in `completed`.
abbrev pub Completes : FlowState → List FlowState → Type 0
Completes s [] = s ≡ completed
Completes s (t ∷ ts) = (transition_to s t ≡ ok t) × Completes t ts

abbrev stages_after : FlowState → List FlowState
stages_after created = validated ∷ instantiated ∷ running ∷ draining ∷ completed ∷ []
stages_after validated = instantiated ∷ running ∷ draining ∷ completed ∷ []
stages_after instantiated = running ∷ draining ∷ completed ∷ []
stages_after running = draining ∷ completed ∷ []
stages_after draining = completed ∷ []
stages_after _ = []

Completes-stages_after :
    (s : FlowState) (ts : List FlowState) → Completes s ts → ts ≡ stages_after s
unfolding transition_to can_transition_to
Completes-stages_after s [] h = ground arith
Completes-stages_after s (t ∷ ts) h = ground (arith, Completes-stages_after t ts h.1)

-- A chain of successful transitions from `created` to `completed` is the one through every stage of
-- the lifecycle: validated, instantiated, running, draining, completed.
pub completed_path :
    (targets : List FlowState)
    → Completes created targets
    → targets ≡ validated ∷ instantiated ∷ running ∷ draining ∷ completed ∷ []
completed_path targets h = Completes-stages_after created targets h

-- ===== src/Types/FlowState.antt =====
-- FlowState of crates/torvyn-types/src/state.rs.
pub mod Lifecycle
use torvyn.Common.{Bool, true, false, if◌then◌else◌}

pub data FlowState : Type 0 where
  created validated instantiated running draining completed cancelled failed : FlowState

unfoldable pub can_transition_to : FlowState → FlowState → Bool
can_transition_to created validated = true
can_transition_to created failed = true
can_transition_to validated instantiated = true
can_transition_to validated failed = true
can_transition_to instantiated running = true
can_transition_to running draining = true
can_transition_to draining completed = true
can_transition_to draining cancelled = true
can_transition_to draining failed = true
can_transition_to _ _ = false

-- The two states that `InvalidTransition` prints.
pub record InvalidTransition : Type 0 where
  pub from : FlowState
  pub to : FlowState

pub data Outcome : Type 0 where
  ok : FlowState → Outcome
  err : InvalidTransition → Outcome

unfoldable pub transition_to : FlowState → FlowState → Outcome
unfolding can_transition_to
transition_to s target =
    if can_transition_to s target then ok target else err (record { from = s; to = target })

unfoldable pub is_terminal : FlowState → Bool
is_terminal completed = true
is_terminal cancelled = true
is_terminal failed = true
is_terminal _ = false

unfoldable pub is_active : FlowState → Bool
is_active created = true
is_active validated = true
is_active instantiated = true
is_active running = true
is_active draining = true
is_active _ = false

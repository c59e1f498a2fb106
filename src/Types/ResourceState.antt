-- ===== src/Types/ResourceState.antt =====
-- ResourceState of crates/torvyn-types/src/state.rs.
pub mod Lifecycle
use torvyn.Common.{Bool, true, false, if◌then◌else◌}

pub data ResourceState : Type 0 where
  pooled owned borrowed leased transit freed : ResourceState

unfoldable pub can_transition_to : ResourceState → ResourceState → Bool
can_transition_to _ freed = true
can_transition_to pooled owned = true
can_transition_to owned borrowed = true
can_transition_to owned leased = true
can_transition_to owned transit = true
can_transition_to owned pooled = true
can_transition_to borrowed owned = true
can_transition_to borrowed borrowed = true
can_transition_to leased owned = true
can_transition_to transit owned = true
can_transition_to _ _ = false

-- The two states that `InvalidTransition` prints.
pub record InvalidTransition : Type 0 where
  pub from : ResourceState
  pub to : ResourceState

pub data Outcome : Type 0 where
  ok : ResourceState → Outcome
  err : InvalidTransition → Outcome

unfoldable pub transition_to : ResourceState → ResourceState → Outcome
unfolding can_transition_to
transition_to s target =
    if can_transition_to s target then ok target else err (record { from = s; to = target })

unfoldable pub is_terminal : ResourceState → Bool
is_terminal freed = true
is_terminal _ = false

unfoldable pub is_available : ResourceState → Bool
is_available pooled = true
is_available _ = false

unfoldable pub is_active : ResourceState → Bool
is_active owned = true
is_active borrowed = true
is_active leased = true
is_active transit = true
is_active _ = false

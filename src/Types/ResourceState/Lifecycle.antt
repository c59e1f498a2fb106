-- ===== src/Types/ResourceState/Lifecycle.antt =====
-- The lifecycle that ResourceState of crates/torvyn-types/src/state.rs allows.
use torvyn.Common.{◌≡◌, refl, ◌↔◌, true, false, not, ◌&&◌, ◌||◌, arith}
use torvyn.Types.ResourceState.{
  ResourceState, pooled, owned, borrowed, leased, transit, freed, can_transition_to, is_terminal,
  is_available, is_active,
}

-- A state is terminal exactly when only `freed` may follow it, and every state is exactly one of
-- available, active and terminal.
pub state_classes :
    (s : ResourceState)
    → ((is_terminal s ≡ true) ↔ ((t : ResourceState) → can_transition_to s t ≡ true → t ≡ freed))
      × ((is_available s && is_terminal s) ≡ false)
      × (is_active s ≡ not (is_available s || is_terminal s))
unfolding is_terminal is_available is_active can_transition_to
state_classes pooled = ((λ h. cc, λ h. cc (h owned refl)), refl, refl)
state_classes owned = ((λ h. cc, λ h. cc (h pooled refl)), refl, refl)
state_classes borrowed = ((λ h. cc, λ h. cc (h owned refl)), refl, refl)
state_classes leased = ((λ h. cc, λ h. cc (h owned refl)), refl, refl)
state_classes transit = ((λ h. cc, λ h. cc (h owned refl)), refl, refl)
state_classes freed = ((λ h t e. ground arith, λ h. refl), refl, refl)

-- ===== src/Security/Guard/Checks.antt =====
-- What the flags and the guard of crates/torvyn-security/src/guard.rs let through.
use torvyn.Common.{ℕ, none, List, [], ◌∷◌, ◌++◌, ◌||◌, Text, any, map, sym, ◌∙◌, ◌≡◌, arith}
use mathlib.Core.List.{append_assoc, append-nil}
use torvyn.Security.Capabilities.{
  Capability, resource_allocate, emit_backpressure, inspect_flow_meta, custom_metrics, satisfies,
  same_kind,
}
use torvyn.Security.Guard.{
  HotPathCapabilities, deny_all, note_capability, note_all, from_capabilities, new_set, permits,
  event_of, check, CapabilityGuard,
}

-- The flags after more capabilities are those before, or a capability of the kind came by.
note_all_lem :
    (h : HotPathCapabilities) (capabilities : List Capability)
    → let flags = note_all h capabilities in
      (flags.resource_allocate_flag ≡ (
        h.resource_allocate_flag || any (λ c. same_kind c (resource_allocate none)) capabilities))
      × (flags.emit_backpressure_flag
          ≡ (h.emit_backpressure_flag || any (λ c. satisfies c emit_backpressure) capabilities))
      × (flags.custom_metrics_flag
          ≡ (h.custom_metrics_flag || any (λ c. satisfies c custom_metrics) capabilities))
      × (flags.inspect_flow_meta_flag
          ≡ (h.inspect_flow_meta_flag || any (λ c. satisfies c inspect_flow_meta) capabilities))
unfolding note_all any note_capability same_kind satisfies
note_all_lem h [] = ground arith
note_all_lem h (resource_allocate pool ∷ capabilities) =
    ground (arith, note_all_lem (note_capability h (resource_allocate pool)) capabilities)
note_all_lem h (c ∷ capabilities) = ground (arith, note_all_lem (note_capability h c) capabilities)

-- The flags for signals, metrics and metadata say what the whole set permits; the flag for buffers is
-- up when some grant is for buffers, whatever pool it is limited to.
pub from_capabilities-permits :
    (capabilities : List Capability)
    → let resolved = new_set capabilities in
      (resolved.hot_path.emit_backpressure_flag ≡ permits resolved emit_backpressure)
      × (resolved.hot_path.custom_metrics_flag ≡ permits resolved custom_metrics)
      × (resolved.hot_path.inspect_flow_meta_flag ≡ permits resolved inspect_flow_meta)
      × (resolved.hot_path.resource_allocate_flag
          ≡ any (λ c. same_kind c (resource_allocate none)) capabilities)
unfolding new_set permits from_capabilities
from_capabilities-permits capabilities =
    let (a, b, c, d) = note_all_lem deny_all capabilities in (b, c, d, a)

-- The guard after checks of some capabilities, one after the other.
unfoldable pub check_all : (ℕ → Text) → CapabilityGuard → List Capability → CapabilityGuard
unfolding check
check_all decimal guard [] = guard
check_all decimal guard (c ∷ capabilities) =
    check_all decimal (check decimal guard c).0 capabilities

-- The log of a guard grows by one event for each check, in the order of the checks, with the verdict
-- that the set gave from the start: whatever was checked before.
pub check-audit_sink :
    (decimal : ℕ → Text) (guard : CapabilityGuard) (capabilities : List Capability)
    → (check_all decimal guard capabilities).audit_sink
      ≡ guard.audit_sink
        ++ map (λ c. event_of decimal guard.component_id c (permits guard.resolved c)) capabilities
unfolding check_all check
check-audit_sink decimal guard [] = sym (append-nil guard.audit_sink)
check-audit_sink decimal guard (c ∷ capabilities) =
    check-audit_sink decimal (check decimal guard c).0 capabilities
    ∙ append_assoc guard.audit_sink
        (event_of decimal guard.component_id c (permits guard.resolved c) ∷ [])
        (map (λ d. event_of decimal guard.component_id d (permits guard.resolved d)) capabilities)

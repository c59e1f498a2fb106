-- ===== src/Security/Guard.antt =====
-- The resolved capabilities of crates/torvyn-security/src/resolver.rs, with the precomputed flags and
-- the guard of crates/torvyn-security/src/guard.rs.
pub mod Checks
use torvyn.Common.{
  ℕ, Bool, true, false, Option, none, some, List, [], ◌∷◌, ◌++◌, if◌then◌else◌, Text, codes, any,
}
use torvyn.Security.Capabilities.{
  Capability, resource_allocate, emit_backpressure, inspect_flow_meta, custom_metrics, satisfies,
}
use torvyn.Security.Capabilities.Display.{to_string}

pub record HotPathCapabilities : Type 0 where
  pub resource_allocate_flag : Bool
  pub emit_backpressure_flag : Bool
  pub custom_metrics_flag : Bool
  pub inspect_flow_meta_flag : Bool

abbrev pub deny_all : HotPathCapabilities
deny_all = record {
  resource_allocate_flag = false;
  emit_backpressure_flag = false;
  custom_metrics_flag = false;
  inspect_flow_meta_flag = false;
}

unfoldable pub note_capability : HotPathCapabilities → Capability → HotPathCapabilities
note_capability h (resource_allocate _) = record h { resource_allocate_flag = true }
note_capability h emit_backpressure = record h { emit_backpressure_flag = true }
note_capability h custom_metrics = record h { custom_metrics_flag = true }
note_capability h inspect_flow_meta = record h { inspect_flow_meta_flag = true }
note_capability h _ = h

unfoldable pub note_all : HotPathCapabilities → List Capability → HotPathCapabilities
unfolding note_capability
note_all h [] = h
note_all h (c ∷ capabilities) = note_all (note_capability h c) capabilities

unfoldable pub from_capabilities : List Capability → HotPathCapabilities
unfolding note_all
from_capabilities capabilities = note_all deny_all capabilities

pub record ResolvedCapabilitySet : Type 0 where
  pub capabilities : List Capability
  pub hot_path : HotPathCapabilities

unfoldable pub new_set : List Capability → ResolvedCapabilitySet
unfolding from_capabilities
new_set capabilities = record {
  capabilities = capabilities;
  hot_path = from_capabilities capabilities;
}

unfoldable pub permits : ResolvedCapabilitySet → Capability → Bool
unfolding any satisfies
permits resolved requested = any (λ granted. satisfies granted requested) resolved.capabilities

pub data AuditSeverity : Type 0 where
  info : AuditSeverity
  warning : AuditSeverity
  critical : AuditSeverity

-- The two kinds of events that a guard emits.
pub data AuditEventKind : Type 0 where
  capability_exercised : (capability : Text) → (detail : Option Text) → AuditEventKind
  capability_denied_at_runtime : (capability : Text) → (detail : Text) → AuditEventKind

-- The sequence number and the clock's reading are left out, as are the flow and the tenant: a guard
-- leaves them empty.
pub record AuditEvent : Type 0 where
  pub severity : AuditSeverity
  pub component_id : Option ℕ
  pub event : AuditEventKind

pub record CapabilityDenied : Type 0 where
  pub component_id : ℕ
  pub capability : Capability

-- The sink is the list of the events that it was given, the oldest first.
pub record CapabilityGuard : Type 0 where
  pub component_id : ℕ
  pub resolved : ResolvedCapabilitySet
  pub audit_sink : List AuditEvent

pub data CheckResult : Type 0 where
  authorized : CheckResult
  denied : CapabilityDenied → CheckResult

module _ (decimal : ℕ → Text) where
  unfoldable pub event_of : ℕ → Capability → Bool → AuditEvent
  unfolding to_string
  event_of id capability allowed =
      if allowed
      then record {
        severity = info;
        component_id = some id;
        event = capability_exercised (to_string decimal capability) none;
      }
      else record {
        severity = critical;
        component_id = some id;
        event =
            capability_denied_at_runtime (to_string decimal capability)
              (codes "capability not in resolved set");
      }

  unfoldable pub check : CapabilityGuard → Capability → CapabilityGuard × CheckResult
  unfolding permits event_of
  check guard capability =
      let allowed = permits guard.resolved capability in
      let recorded = record guard {
        audit_sink = guard.audit_sink ++ event_of guard.component_id capability allowed ∷ [];
      } in
      (
        recorded,
        if allowed
            then authorized
            else denied (record { component_id = guard.component_id; capability = capability }),
      )

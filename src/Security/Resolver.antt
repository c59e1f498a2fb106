-- ===== src/Security/Resolver.antt =====
-- The resolution of a component's requests against the operator's grants, in
-- crates/torvyn-security/src/resolver.rs.
pub mod Access
pub mod Loops
pub mod Reaches
pub mod Reference
use torvyn.Common.{
  ℕ, suc, Bool, not, Option, none, some, List, [], ◌∷◌, ◌++◌, if◌then◌else◌, ◌==◌, Text, codes, any,
}
use torvyn.Security.Scopes.{is_empty}
use torvyn.Security.Capabilities.{Capability, intersect, same_kind}
use torvyn.Security.Capabilities.Display.{to_string}
use torvyn.Security.Guard.{ResolvedCapabilitySet, new_set}

pub record ComponentCapabilities : Type 0 where
  pub required : List Capability
  pub optional : List Capability

pub record OperatorGrants : Type 0 where
  pub grants : List Capability

pub data CapabilityResolutionError : Type 0 where
  missing_required : (capability : Text) → CapabilityResolutionError
  incompatible_scope : (capability : Text) → (detail : Text) → CapabilityResolutionError

pub data ResolutionWarning : Type 0 where
  optional_not_granted : (capability : Text) → ResolutionWarning
  unused_grant : (capability : Text) → ResolutionWarning

pub record ResolutionResult : Type 0 where
  pub resolved : ResolvedCapabilitySet
  pub warnings : List ResolutionWarning

pub data Resolution : Type 0 where
  resolution : ResolutionResult → Resolution
  refused : List CapabilityResolutionError → Resolution

-- The loop of `find_matching_grant` on the grants from an index on.
unfoldable pub find_from : ℕ → Capability → List Capability → Option (ℕ × Capability)
unfolding intersect
find_from idx request [] = none
find_from idx request (grant ∷ grants) =
    let rest = find_from (suc idx) request grants in
    elim (intersect grant request) [ some effective ↦ some (idx, effective) | none ↦ rest ]

unfoldable pub find_matching_grant : Capability → OperatorGrants → Option (ℕ × Capability)
unfolding find_from
find_matching_grant request operator = find_from 0 request operator.grants

-- The local variables of `resolve`; the set of indices is a list.
pub record Progress : Type 0 where
  pub errors : List CapabilityResolutionError
  pub warnings : List ResolutionWarning
  pub resolved : List Capability
  pub matched_grant_indices : List ℕ

unfoldable pub add_match : Progress → ℕ × Capability → Progress
add_match p (grant_idx, effective) = record p {
  matched_grant_indices = grant_idx ∷ p.matched_grant_indices;
  resolved = p.resolved ++ effective ∷ [];
}

abbrev pub start : Progress
start = record { errors = []; warnings = []; resolved = []; matched_grant_indices = [] }

unfoldable pub finish : Progress → Resolution
unfolding is_empty new_set
finish p =
    if not (is_empty p.errors)
    then refused p.errors
    else resolution (record { resolved = new_set p.resolved; warnings = p.warnings })

module _ (decimal : ℕ → Text) (operator : OperatorGrants) where
  unfoldable pub error_of : Capability → CapabilityResolutionError
  unfolding any same_kind to_string
  error_of required =
      if any (λ g. same_kind g required) operator.grants
      then incompatible_scope (to_string decimal required) (
          codes "a grant of the same kind exists but its scope does not cover the requested scope '"
          ++ to_string decimal required
          ++ codes "'")
      else missing_required (to_string decimal required)

  unfoldable pub resolve_required : List Capability → Progress → Progress
  unfolding find_matching_grant add_match error_of
  resolve_required [] p = p
  resolve_required (required ∷ more) p =
      resolve_required more (elim (find_matching_grant required operator) [
        | some found ↦ add_match p found
        | none ↦ record p { errors = p.errors ++ error_of required ∷ [] }
      ])

  unfoldable pub resolve_optional : List Capability → Progress → Progress
  unfolding find_matching_grant add_match to_string
  resolve_optional [] p = p
  resolve_optional (optional ∷ more) p =
      resolve_optional more (elim (find_matching_grant optional operator) [
        | some found ↦ add_match p found
        | none ↦ record p {
          warnings = p.warnings ++ optional_not_granted (to_string decimal optional) ∷ [];
        }
      ])

  unfoldable pub warn_unused : ℕ → List Capability → Progress → Progress
  unfolding any to_string
  warn_unused idx [] p = p
  warn_unused idx (grant ∷ more) p = warn_unused (suc idx) more (
      if any (λ i. i == idx) p.matched_grant_indices
      then p
      else record p { warnings = p.warnings ++ unused_grant (to_string decimal grant) ∷ [] })

  unfoldable pub resolve : ComponentCapabilities → Resolution
  unfolding resolve_required resolve_optional warn_unused finish
  resolve component =
      let after_required = resolve_required component.required start in
      let after_optional = resolve_optional component.optional after_required in
      finish (warn_unused 0 operator.grants after_optional)

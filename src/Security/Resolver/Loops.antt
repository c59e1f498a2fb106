-- ===== src/Security/Resolver/Loops.antt =====
-- The loops of `resolve` in crates/torvyn-security/src/resolver.rs.
use torvyn.Common.{
  ℕ, suc, Bool, true, false, not, none, some, List, [], ◌∷◌, ◌++◌, if◌then◌else◌, Text, any, filter,
  map, ◌≡◌, refl, sym, ap, ◌∙◌, arith, Bool-cases, ◌==◌, inl, inr,
}
use mathlib.Core.List.{append_assoc, append-nil}
use torvyn.Security.Capabilities.{Capability, satisfies}
use torvyn.Security.Capabilities.Coverage.{intersect-satisfies}
use torvyn.Security.Capabilities.Display.{to_string}
use torvyn.Security.Resolver.{
  ComponentCapabilities, OperatorGrants, find_from, find_matching_grant, Progress, add_match,
  error_of, resolve_required, resolve_optional, warn_unused, start, optional_not_granted,
  unused_grant,
}

-- Does some grant cover the request?
unfoldable pub granted : List Capability → Capability → Bool
unfolding any
granted grants request = any (λ grant. satisfies grant request) grants

find_from-granted :
    (idx : ℕ) (request : Capability) (grants : List Capability)
    → granted grants request ≡ true
    → (i : ℕ) × (find_from idx request grants ≡ some (i, request))
unfolding find_from granted any
find_from-granted idx request [] h = absurd (ground (arith, h))
find_from-granted idx request (grant ∷ grants) h = elim (Bool-cases (satisfies grant request)) [
  | inl covers ↦ (idx, ground (arith, covers, intersect-satisfies grant request))
  | inr other ↦
      let (i, found) = find_from-granted (suc idx) request grants (ground (arith, h, other)) in
      (i, ground (arith, other, found, intersect-satisfies grant request))
]

find_from-ungranted :
    (idx : ℕ) (request : Capability) (grants : List Capability)
    → granted grants request ≡ false
    → find_from idx request grants ≡ none
unfolding find_from granted any
find_from-ungranted idx request [] h = refl
find_from-ungranted idx request (grant ∷ grants) h =
    ground
      (arith, h, intersect-satisfies grant request, find_from-ungranted (suc idx) request grants)

module _ (operator : OperatorGrants) where
  abbrev pub covered : Capability → Bool
  covered request = granted operator.grants request

  abbrev pub uncovered : Capability → Bool
  uncovered request = not (granted operator.grants request)

pub filter-keep :
    {A : Type 0} (q : A → Bool) (x : A) (xs : List A)
    → q x ≡ true
    → filter q (x ∷ xs) ≡ x ∷ filter q xs
unfolding filter
filter-keep q x xs h = ground (arith, h)

pub filter-skip :
    {A : Type 0} (q : A → Bool) (x : A) (xs : List A)
    → q x ≡ false
    → filter q (x ∷ xs) ≡ filter q xs
unfolding filter
filter-skip q x xs h = ground (arith, h)

module _ (decimal : ℕ → Text) (operator : OperatorGrants) where
  abbrev after_required : Progress → Capability → Progress
  after_required p r = record p { errors = p.errors ++ error_of decimal operator r ∷ [] }

  abbrev after_optional : Progress → Capability → Progress
  after_optional p r = record p {
    warnings = p.warnings ++ optional_not_granted (to_string decimal r) ∷ [];
  }

  required_step :
      (r : Capability) (requests : List Capability) (p : Progress)
      → covered operator r ≡ true
      → (i : ℕ) × (resolve_required decimal operator (r ∷ requests) p
          ≡ resolve_required decimal operator requests (add_match p (i, r)))
  unfolding resolve_required find_matching_grant
  required_step r requests p h =
      let (i, found) = find_from-granted 0 r operator.grants h in (i, rw found refl)

  required_skip :
      (r : Capability) (requests : List Capability) (p : Progress)
      → covered operator r ≡ false
      → resolve_required decimal operator (r ∷ requests) p
        ≡ resolve_required decimal operator requests (after_required p r)
  unfolding resolve_required find_matching_grant
  required_skip r requests p h = rw (find_from-ungranted 0 r operator.grants h) refl

  optional_step :
      (r : Capability) (requests : List Capability) (p : Progress)
      → covered operator r ≡ true
      → (i : ℕ) × (resolve_optional decimal operator (r ∷ requests) p
          ≡ resolve_optional decimal operator requests (add_match p (i, r)))
  unfolding resolve_optional find_matching_grant
  optional_step r requests p h =
      let (i, found) = find_from-granted 0 r operator.grants h in (i, rw found refl)

  optional_skip :
      (r : Capability) (requests : List Capability) (p : Progress)
      → covered operator r ≡ false
      → resolve_optional decimal operator (r ∷ requests) p
        ≡ resolve_optional decimal operator requests (after_optional p r)
  unfolding resolve_optional find_matching_grant
  optional_skip r requests p h = rw (find_from-ungranted 0 r operator.grants h) refl

  required-errors :
      (requests : List Capability) (p : Progress)
      → (resolve_required decimal operator requests p).errors
        ≡ p.errors ++ map (error_of decimal operator) (filter (uncovered operator) requests)
  unfolding resolve_required filter add_match
  required-errors [] p = sym (append-nil p.errors)
  required-errors (r ∷ requests) p = elim (Bool-cases (covered operator r)) [
    | inl have ↦
        let (i, step) = required_step r requests p have in
        ap (λ (q : Progress). q.errors) step
        ∙ required-errors requests (add_match p (i, r))
        ∙ ap (λ t. p.errors ++ map (error_of decimal operator) t)
            (sym (filter-skip (uncovered operator) r requests (ap not have)))
    | inr lack ↦
        ap (λ (q : Progress). q.errors) (required_skip r requests p lack)
        ∙ required-errors requests (after_required p r)
        ∙ append_assoc p.errors (error_of decimal operator r ∷ [])
            (map (error_of decimal operator) (filter (uncovered operator) requests))
        ∙ ap (λ t. p.errors ++ map (error_of decimal operator) t)
            (sym (filter-keep (uncovered operator) r requests (ap not lack)))
  ]

  required-resolved :
      (requests : List Capability) (p : Progress)
      → (resolve_required decimal operator requests p).resolved
        ≡ p.resolved ++ filter (covered operator) requests
  unfolding resolve_required filter add_match
  required-resolved [] p = sym (append-nil p.resolved)
  required-resolved (r ∷ requests) p = elim (Bool-cases (covered operator r)) [
    | inl have ↦
        let (i, step) = required_step r requests p have in
        ap (λ (q : Progress). q.resolved) step
        ∙ required-resolved requests (add_match p (i, r))
        ∙ append_assoc p.resolved (r ∷ []) (filter (covered operator) requests)
        ∙ ap (λ (t : List Capability). p.resolved ++ t)
            (sym (filter-keep (covered operator) r requests have))
    | inr lack ↦
        ap (λ (q : Progress). q.resolved) (required_skip r requests p lack)
        ∙ required-resolved requests (after_required p r)
        ∙ ap (λ (t : List Capability). p.resolved ++ t)
            (sym (filter-skip (covered operator) r requests lack))
  ]

  optional-resolved :
      (requests : List Capability) (p : Progress)
      → (resolve_optional decimal operator requests p).resolved
        ≡ p.resolved ++ filter (covered operator) requests
  unfolding resolve_optional filter add_match
  optional-resolved [] p = sym (append-nil p.resolved)
  optional-resolved (r ∷ requests) p = elim (Bool-cases (covered operator r)) [
    | inl have ↦
        let (i, step) = optional_step r requests p have in
        ap (λ (q : Progress). q.resolved) step
        ∙ optional-resolved requests (add_match p (i, r))
        ∙ append_assoc p.resolved (r ∷ []) (filter (covered operator) requests)
        ∙ ap (λ (t : List Capability). p.resolved ++ t)
            (sym (filter-keep (covered operator) r requests have))
    | inr lack ↦
        ap (λ (q : Progress). q.resolved) (optional_skip r requests p lack)
        ∙ optional-resolved requests (after_optional p r)
        ∙ ap (λ (t : List Capability). p.resolved ++ t)
            (sym (filter-skip (covered operator) r requests lack))
  ]

  optional-errors :
      (requests : List Capability) (p : Progress)
      → (resolve_optional decimal operator requests p).errors ≡ p.errors
  unfolding resolve_optional add_match
  optional-errors [] p = refl
  optional-errors (r ∷ requests) p = elim (Bool-cases (covered operator r)) [
    | inl have ↦
        let (i, step) = optional_step r requests p have in
        ap (λ (q : Progress). q.errors) step ∙ optional-errors requests (add_match p (i, r))
    | inr lack ↦
        ap (λ (q : Progress). q.errors) (optional_skip r requests p lack)
        ∙ optional-errors requests (after_optional p r)
  ]

  after_grant : Progress → Capability → Bool → Progress
  after_grant p grant used =
      if used
      then p
      else record p { warnings = p.warnings ++ unused_grant (to_string decimal grant) ∷ [] }

  after_grant_keeps :
      (p : Progress) (grant : Capability) (used : Bool)
      → ((after_grant p grant used).errors ≡ p.errors)
        × ((after_grant p grant used).resolved ≡ p.resolved)
  unfolding after_grant
  after_grant_keeps p grant true = (refl, refl)
  after_grant_keeps p grant false = (refl, refl)

  unused_keeps :
      (idx : ℕ) (grants : List Capability) (p : Progress)
      → let q = warn_unused decimal operator idx grants p in
        (q.errors ≡ p.errors) × (q.resolved ≡ p.resolved)
  unfolding warn_unused after_grant
  unused_keeps idx [] p = (refl, refl)
  unused_keeps idx (grant ∷ grants) p =
      let used = any (λ i. i == idx) p.matched_grant_indices in
      let (errors, resolved) = unused_keeps (suc idx) grants (after_grant p grant used) in
      let (here, there) = after_grant_keeps p grant used in (errors ∙ here, resolved ∙ there)

  abbrev pub end : ComponentCapabilities → Progress
  end component = warn_unused decimal operator 0 operator.grants (
      resolve_optional decimal operator component.optional
        (resolve_required decimal operator component.required start))

  pub end-errors :
      (component : ComponentCapabilities)
      → (end component).errors
        ≡ map (error_of decimal operator) (filter (uncovered operator) component.required)
  end-errors component =
      let before = resolve_required decimal operator component.required start in
      let middle = resolve_optional decimal operator component.optional before in
      (unused_keeps 0 operator.grants middle).0
      ∙ optional-errors component.optional before
      ∙ required-errors component.required start

  pub end-resolved :
      (component : ComponentCapabilities)
      → (end component).resolved
        ≡ filter (covered operator) component.required
          ++ filter (covered operator) component.optional
  end-resolved component =
      let before = resolve_required decimal operator component.required start in
      let middle = resolve_optional decimal operator component.optional before in
      (unused_keeps 0 operator.grants middle).1
      ∙ optional-resolved component.optional before
      ∙ ap (λ (t : List Capability). t ++ filter (covered operator) component.optional)
          (required-resolved component.required start)

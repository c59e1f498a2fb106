-- ===== src/Security/Resolver/Reference.antt =====
-- Which capabilities the resolution of crates/torvyn-security/src/resolver.rs lets a component have.
use torvyn.Common.{
  ℕ, true, false, not, List, [], ◌∷◌, ◌++◌, Text, all, filter, map, ◌≡◌, refl, ap, ◌∙◌, arith,
  Bool-cases, inl, inr,
}
use torvyn.Security.Scopes.{is_empty}
use torvyn.Security.Capabilities.{Capability}
use torvyn.Security.Guard.{new_set}
use torvyn.Security.Resolver.{
  ComponentCapabilities, OperatorGrants, CapabilityResolutionError, resolution, refused, Progress,
  error_of, finish, resolve, ResolutionResult,
}
use torvyn.Security.Resolver.Loops.{
  covered, uncovered, filter-keep, filter-skip, end, end-errors, end-resolved,
}

filter-all :
    (operator : OperatorGrants) (requests : List Capability)
    → all (covered operator) requests ≡ true
    → (filter (covered operator) requests ≡ requests) × (filter (uncovered operator) requests ≡ [])
unfolding all filter
filter-all operator [] h = (refl, refl)
filter-all operator (r ∷ requests) h = ground (arith, h, filter-all operator requests)

filter_some :
    (operator : OperatorGrants) (requests : List Capability)
    → all (covered operator) requests ≡ false
    → (r : Capability) × (rest : List Capability) × (filter (uncovered operator) requests
        ≡ r ∷ rest)
unfolding all filter
filter_some operator [] h = absurd (ground (arith, h))
filter_some operator (r ∷ requests) h = elim (Bool-cases (covered operator r)) [
  | inl have ↦
      let (s, rest, at) = filter_some operator requests (ground (arith, h, have)) in
      (s, rest, filter-skip (uncovered operator) r requests (ap not have) ∙ at)
  | inr lack ↦ (
    r,
    filter (uncovered operator) requests,
    filter-keep (uncovered operator) r requests (ap not lack),
  )
]

finish-clean :
    (p : Progress)
    → p.errors ≡ []
    → finish p ≡ resolution (record { resolved = new_set p.resolved; warnings = p.warnings })
unfolding finish is_empty
finish-clean p h = rw h refl

finish-refused :
    (p : Progress) (e : CapabilityResolutionError) (errors : List CapabilityResolutionError)
    → p.errors ≡ e ∷ errors
    → finish p ≡ refused p.errors
unfolding finish is_empty
finish-refused p e errors h = rw h refl

-- Where grants cover all that a component requires, it gets this and the optional capabilities that
-- grants cover, in the order of the requests.
pub resolve-granted :
    (decimal : ℕ → Text) (operator : OperatorGrants) (component : ComponentCapabilities)
    → all (covered operator) component.required ≡ true
    → (result : ResolutionResult) × (resolve decimal operator component ≡ resolution result)
      × (result.resolved
          ≡ new_set (component.required ++ filter (covered operator) component.optional))
unfolding resolve finish is_empty
resolve-granted decimal operator component h =
    let (keep, none_left) = filter-all operator component.required h in
    let p = end decimal operator component in
    let clean : p.errors ≡ [] =
      end-errors decimal operator component ∙ ap (map (error_of decimal operator)) none_left in
    let got : p.resolved ≡ component.required ++ filter (covered operator) component.optional =
      end-resolved decimal operator component
      ∙ ap (λ (t : List Capability). t ++ filter (covered operator) component.optional) keep in
    (
      record { resolved = new_set p.resolved; warnings = p.warnings },
      finish-clean p clean,
      ap new_set got,
    )

-- Where they do not, the resolution is refused, with one error for each required capability that no
-- grant covers.
pub resolve-refused :
    (decimal : ℕ → Text) (operator : OperatorGrants) (component : ComponentCapabilities)
    → all (covered operator) component.required ≡ false
    → resolve decimal operator component
      ≡ refused (map (error_of decimal operator) (filter (uncovered operator) component.required))
unfolding resolve finish is_empty
resolve-refused decimal operator component h =
    let (r, rest, left) = filter_some operator component.required h in
    let errors = end-errors decimal operator component in
    finish-refused (end decimal operator component) (error_of decimal operator r)
      (map (error_of decimal operator) rest) (errors ∙ ap (map (error_of decimal operator)) left)
    ∙ ap refused errors

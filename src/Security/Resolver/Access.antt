-- ===== src/Security/Resolver/Access.antt =====
-- What the resolved capabilities of crates/torvyn-security/src/resolver.rs permit.
use torvyn.Common.{
  ℕ, Bool, true, List, [], ◌∷◌, ◌++◌, Text, any, all, filter, ◌≡◌, refl, sym, ap, ◌∙◌, arith,
  Bool-cases, inl, inr, subst,
}
use torvyn.Security.Capabilities.{Capability, satisfies}
use torvyn.Security.Capabilities.Attenuation.{IsAbsolute, satisfies_trans}
use torvyn.Security.Capabilities.Reflexivity.{satisfies_refl, covers_self}
use torvyn.Security.Guard.{
  ResolvedCapabilitySet, new_set, permits, CapabilityGuard, check, authorized,
}
use torvyn.Security.Resolver.{
  ComponentCapabilities, OperatorGrants, resolution, resolve, ResolutionResult,
}
use torvyn.Security.Resolver.Loops.{granted, covered}
use torvyn.Security.Resolver.Reference.{resolve-granted, resolve-refused}

-- The capabilities of a list that are for files have absolute roots.
unfoldable pub AreAbsolute : List Capability → Type 0
AreAbsolute [] = Unit {0}
AreAbsolute (c ∷ capabilities) = IsAbsolute c × AreAbsolute capabilities

granted_trans :
    (grants : List Capability) (middle request : Capability)
    → AreAbsolute grants
    → granted grants middle ≡ true
    → satisfies middle request ≡ true
    → granted grants request ≡ true
unfolding AreAbsolute granted any
granted_trans [] middle request absolute h k = absurd (ground (arith, h))
granted_trans (g ∷ grants) middle request (here, there) h k =
    ground (
      arith,
      h,
      k,
      satisfies_trans g middle request here,
      granted_trans grants middle request there,
    )

filter_granted :
    (operator : OperatorGrants) (requests : List Capability)
    → all (covered operator) (filter (covered operator) requests) ≡ true
unfolding all filter
filter_granted operator [] = refl
filter_granted operator (r ∷ requests) = ground (arith, filter_granted operator requests)

all-append :
    {A : Type 0} (p : A → Bool) (xs ys : List A)
    → all p xs ≡ true
    → all p ys ≡ true
    → all p (xs ++ ys) ≡ true
unfolding all
all-append p [] ys h k = k
all-append p (x ∷ xs) ys h k = ground (arith, h, all-append p xs ys)

held_granted :
    (operator : OperatorGrants) (held : List Capability) (request : Capability)
    → AreAbsolute operator.grants
    → all (covered operator) held ≡ true
    → any (λ c. satisfies c request) held ≡ true
    → covered operator request ≡ true
unfolding all any
held_granted operator [] request absolute h k = absurd (ground (arith, k))
held_granted operator (c ∷ held) request absolute h k = ground (
  arith,
  h,
  k,
  granted_trans operator.grants c request absolute,
  held_granted operator held request absolute,
)

resolution_inj : (a b : ResolutionResult) → resolution a ≡ resolution b → a ≡ b
resolution_inj a b h = cc

any-append :
    {A : Type 0} (p : A → Bool) (xs ys : List A) → any p xs ≡ true → any p (xs ++ ys) ≡ true
unfolding any
any-append p [] ys h = absurd (ground (arith, h))
any-append p (x ∷ xs) ys h = ground (arith, h, any-append p xs ys)

all_held :
    (held more requests : List Capability)
    → all (λ r. any (λ c. satisfies c r) held) requests ≡ true
    → all (λ r. permits (new_set (held ++ more)) r) requests ≡ true
unfolding all permits new_set
all_held held more [] h = refl
all_held held more (r ∷ requests) h =
    ground (arith, h, any-append (λ c. satisfies c r) held more, all_held held more requests)

module _ (decimal : ℕ → Text) (operator : OperatorGrants) (component : ComponentCapabilities) where
  -- A resolution that succeeds found a grant for each required capability.
  pub resolved_set :
      (result : ResolutionResult)
      → resolve decimal operator component ≡ resolution result
      → (all (covered operator) component.required ≡ true)
        × (result.resolved
            ≡ new_set (component.required ++ filter (covered operator) component.optional))
  resolved_set result run = elim (Bool-cases (all (covered operator) component.required)) [
    | inl have ↦
        let (other, run', set) = resolve-granted decimal operator component have in
        (
          have,
          ap (λ (r : ResolutionResult). r.resolved) (resolution_inj result other (sym run ∙ run'))
              ∙ set,
        )
    | inr lack ↦ absurd (
        let clash = sym run ∙ resolve-refused decimal operator component lack in
        ground (arith, clash))
  ]

  -- A resolved set permits nothing that no grant of the operator covers, where the grants for files
  -- have absolute roots.
  pub permits-covered :
      (result : ResolutionResult) (request : Capability)
      → AreAbsolute operator.grants
      → resolve decimal operator component ≡ resolution result
      → permits result.resolved request ≡ true
      → covered operator request ≡ true
  unfolding permits new_set
  permits-covered result request absolute run h =
      let (have, set) = resolved_set result run in
      held_granted operator (component.required ++ filter (covered operator) component.optional)
        request absolute
        (all-append (covered operator) component.required
          (filter (covered operator) component.optional) have
          (filter_granted operator component.optional))
        (subst (λ (s : ResolvedCapabilitySet). permits s request ≡ true) set h)

  -- A resolution that succeeds permits every capability that the component requires.
  pub resolve-permits :
      (result : ResolutionResult)
      → resolve decimal operator component ≡ resolution result
      → all (permits result.resolved) component.required ≡ true
  resolve-permits result run =
      let (have, set) = resolved_set result run in
      subst (λ (s : ResolvedCapabilitySet). all (permits s) component.required ≡ true) (sym set)
        (all_held component.required (filter (covered operator) component.optional)
          component.required (covers_self satisfies [] component.required satisfies_refl))

  -- A guard with a resolved set authorizes nothing that no grant of the operator covers, where the
  -- grants for files have absolute roots.
  pub check-covered :
      (result : ResolutionResult) (guard : CapabilityGuard) (request : Capability)
      → AreAbsolute operator.grants
      → resolve decimal operator component ≡ resolution result
      → guard.resolved ≡ result.resolved
      → (check decimal guard request).1 ≡ authorized
      → covered operator request ≡ true
  unfolding check
  check-covered result guard request absolute run same h =
      permits-covered result request absolute run (
        subst (λ (s : ResolvedCapabilitySet). permits s request ≡ true) same
          (elim (Bool-cases (permits guard.resolved request)) [
            | inl allowed ↦ allowed
            | inr refused_here ↦ absurd (ground (arith, h, refused_here))
          ]))

-- ===== src/Security/Capabilities/Attenuation.antt =====
-- What a grant of crates/torvyn-security/src/capability.rs covers when it covers a grant.
use torvyn.Common.{
  Bool, true, Option, none, some, ◌≡◌, refl, arith, sym, ◌∙◌, List, [], ◌∷◌, inl, inr, Text,
  same_text, same_text_iff, any, all, strip_prefix, codes, Bool-cases, Option-cases, subst,
}
use torvyn.Security.Capabilities.{
  Capability, filesystem_read, filesystem_write, tcp_connect, tcp_listen, udp_access, http_outgoing,
  wall_clock, monotonic_clock, crypto_random, insecure_random, environment, stdout, stderr,
  resource_allocate, pool_access, emit_backpressure, inspect_flow_meta, runtime_inspect,
  custom_metrics, covers_pool, satisfies, PoolScope,
}
use torvyn.Security.Scopes.{
  contains_path_scope, NetScope, contains_scope, covers_pattern, hosts_ok, ports_ok, under,
  contains_range, is_empty, PortRange,
}
use torvyn.Security.Scopes.Containment.{under_trans, covered}
use torvyn.Security.Scopes.Paths.{contains_path_scope_sound}

covers_pattern_trans :
    (own middle other : Text)
    → covers_pattern own middle ≡ true
    → covers_pattern middle other ≡ true
    → covers_pattern own other ≡ true
unfolding covers_pattern
covers_pattern_trans own middle other a b = elim (Bool-cases (same_text own middle)) [
  | inl same ↦
      subst (λ p. covers_pattern p other ≡ true) (sym ((same_text_iff own middle).0 same)) b
  | inr differs ↦ elim (Bool-cases (same_text middle other)) [
    | inl same ↦ subst (λ p. covers_pattern own p ≡ true) ((same_text_iff middle other).0 same) a
    | inr varies ↦ elim (Option-cases (strip_prefix (codes "*.") own)) [
      | inl exact ↦ absurd (ground (arith, a, differs, exact))
      | inr (suffix, own_wild) ↦ elim (Option-cases (strip_prefix (codes "*.") middle)) [
        | inl exact ↦ absurd (ground (arith, b, varies, exact))
        | inr (middle_suffix, middle_wild) ↦
            let up : under suffix middle_suffix ≡ true =
              ground (arith, a, differs, own_wild, middle_wild) in
            elim (Option-cases (strip_prefix (codes "*.") other)) [
              | inl exact ↦
                  let low : under middle_suffix other ≡ true =
                    ground (arith, b, varies, middle_wild, exact) in
                  ground (arith, own_wild, exact, under_trans suffix middle_suffix other up low)
              | inr (other_suffix, wild) ↦
                  let low : under middle_suffix other_suffix ≡ true =
                    ground (arith, b, varies, middle_wild, wild) in
                  ground
                    (arith, own_wild, wild, under_trans suffix middle_suffix other_suffix up low)
            ]
      ]
    ]
  ]
]

cover_trans :
    {A : Type 0} (covers : A → A → Bool) (own middle others : List A)
    → ((x y z : A) → covers x y ≡ true → covers y z ≡ true → covers x z ≡ true)
    → all (λ y. any (λ x. covers x y) own) middle ≡ true
    → all (λ z. any (λ y. covers y z) middle) others ≡ true
    → all (λ z. any (λ x. covers x z) own) others ≡ true
unfolding all
cover_trans covers own middle [] trans a b = refl
cover_trans covers own middle (z ∷ others) trans a b = ground (
  arith,
  b,
  covered covers covers own middle z (λ x y. trans x y z) a,
  cover_trans covers own middle others trans a,
)

contains_range_trans :
    (a b c : PortRange)
    → contains_range a b ≡ true
    → contains_range b c ≡ true
    → contains_range a c ≡ true
unfolding contains_range
contains_range_trans a b c h k = ground arith

all_empty : {A : Type 0} (p : A → Bool) (xs : List A) → is_empty xs ≡ true → all p xs ≡ true
unfolding all is_empty
all_empty p [] h = refl
all_empty p (x ∷ xs) h = absurd (ground (arith, h))

ports_ok_trans :
    (a b c : List PortRange) → ports_ok a b ≡ true → ports_ok b c ≡ true → ports_ok a c ≡ true
unfolding ports_ok
ports_ok_trans a b c h k = ground (arith, cover_trans contains_range a b c contains_range_trans)

contains_scope_trans :
    (a b c : NetScope)
    → contains_scope a b ≡ true
    → contains_scope b c ≡ true
    → contains_scope a c ≡ true
unfolding contains_scope hosts_ok
contains_scope_trans a b c h k = ground (
  arith,
  ports_ok_trans a.ports b.ports c.ports,
  cover_trans covers_pattern a.hosts b.hosts c.hosts covers_pattern_trans,
)

same_text_trans :
    (a b c : Text) → same_text a b ≡ true → same_text b c ≡ true → same_text a c ≡ true
same_text_trans a b c h k =
    (same_text_iff a c).1 ((same_text_iff a b).0 h ∙ (same_text_iff b c).0 k)

covers_pool_trans :
    (a b c : Option PoolScope)
    → covers_pool a b ≡ true
    → covers_pool b c ≡ true
    → covers_pool a c ≡ true
unfolding covers_pool
covers_pool_trans none b c h k = refl
covers_pool_trans (some a) none c h k = absurd (ground (arith, h))
covers_pool_trans (some a) (some b) none h k = absurd (ground (arith, k))
covers_pool_trans (some a) (some b) (some c) h k =
    same_text_trans a.pool_name b.pool_name c.pool_name h k

-- A capability on files has an absolute root.
unfoldable pub IsAbsolute : Capability → Type 0
IsAbsolute (filesystem_read path) = (rest : Text) × (path.root ≡ b'/' ∷ rest)
IsAbsolute (filesystem_write path) = (rest : Text) × (path.root ≡ b'/' ∷ rest)
IsAbsolute _ = Unit {0}

-- A grant with an absolute root, if it is for files, that satisfies a capability satisfies all that
-- this capability satisfies.
pub satisfies_trans :
    (grant middle request : Capability)
    → IsAbsolute grant
    → satisfies grant middle ≡ true
    → satisfies middle request ≡ true
    → satisfies grant request ≡ true
unfolding satisfies IsAbsolute contains_path_scope
satisfies_trans (filesystem_read a) (filesystem_read b) (filesystem_read c) (rest, at) h k =
    contains_path_scope_sound a b c.root rest at h k
satisfies_trans (filesystem_write a) (filesystem_write b) (filesystem_write c) (rest, at) h k =
    contains_path_scope_sound a b c.root rest at h k
satisfies_trans (tcp_connect a) (tcp_connect b) (tcp_connect c) _ h k =
    contains_scope_trans a b c h k
satisfies_trans (tcp_listen a) (tcp_listen b) (tcp_listen c) _ h k = contains_scope_trans a b c h k
satisfies_trans (udp_access a) (udp_access b) (udp_access c) _ h k = contains_scope_trans a b c h k
satisfies_trans (http_outgoing a) (http_outgoing b) (http_outgoing c) _ h k =
    contains_scope_trans a b c h k
satisfies_trans (resource_allocate a) (resource_allocate b) (resource_allocate c) _ h k =
    covers_pool_trans a b c h k
satisfies_trans (pool_access a) (pool_access b) (pool_access c) _ h k =
    same_text_trans a.pool_name b.pool_name c.pool_name h k
satisfies_trans wall_clock wall_clock wall_clock _ h k = refl
satisfies_trans monotonic_clock monotonic_clock monotonic_clock _ h k = refl
satisfies_trans crypto_random crypto_random crypto_random _ h k = refl
satisfies_trans insecure_random insecure_random insecure_random _ h k = refl
satisfies_trans environment environment environment _ h k = refl
satisfies_trans stdout stdout stdout _ h k = refl
satisfies_trans stderr stderr stderr _ h k = refl
satisfies_trans emit_backpressure emit_backpressure emit_backpressure _ h k = refl
satisfies_trans inspect_flow_meta inspect_flow_meta inspect_flow_meta _ h k = refl
satisfies_trans runtime_inspect runtime_inspect runtime_inspect _ h k = refl
satisfies_trans custom_metrics custom_metrics custom_metrics _ h k = refl
satisfies_trans grant middle request _ h k = ground (arith, h, k)

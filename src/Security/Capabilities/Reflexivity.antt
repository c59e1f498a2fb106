-- ===== src/Security/Capabilities/Reflexivity.antt =====
-- Every capability of crates/torvyn-security/src/capability.rs covers itself.
use torvyn.Common.{
  Bool, true, none, some, ◌≡◌, refl, arith, List, [], ◌∷◌, ◌++◌, Text, same_text, same_text_iff,
  any, all, subst,
}
use mathlib.Core.List.{append_assoc}
use torvyn.Security.Capabilities.{
  Capability, filesystem_read, filesystem_write, tcp_connect, tcp_listen, udp_access, http_outgoing,
  wall_clock, resource_allocate, pool_access, covers_pool, satisfies,
}
use torvyn.Security.Scopes.{
  PathScope, contains_path_scope, NetScope, contains_path, contains_scope, covers_pattern, hosts_ok,
  ports_ok, contains_range, PortRange,
}

same_text_refl : (a : Text) → same_text a a ≡ true
same_text_refl a = (same_text_iff a a).1 refl

any-own :
    {A : Type 0} (covers : A → A → Bool) (before own : List A) (x : A)
    → covers x x ≡ true
    → any (λ y. covers y x) (before ++ x ∷ own) ≡ true
unfolding any
any-own covers [] own x self = ground (arith, self)
any-own covers (b ∷ before) own x self = ground (arith, any-own covers before own x self)

pub covers_self :
    {A : Type 0} (covers : A → A → Bool) (before own : List A)
    → ((x : A) → covers x x ≡ true)
    → all (λ y. any (λ x. covers x y) (before ++ own)) own ≡ true
unfolding all any
covers_self {A = A} covers before [] self = refl
covers_self {A = A} covers before (x ∷ own) self =
    let rest =
      subst (λ (l : List A). all (λ y. any (λ x. covers x y) l) own ≡ true)
        (append_assoc before (x ∷ []) own) (covers_self covers (before ++ x ∷ []) own self) in
    ground (arith, rest, any-own covers before own x (self x))

covers_pattern_refl : (p : Text) → covers_pattern p p ≡ true
unfolding covers_pattern
covers_pattern_refl p = ground (arith, same_text_refl p)

contains_range_refl : (r : PortRange) → contains_range r r ≡ true
unfolding contains_range
contains_range_refl r = ground arith

contains_scope_refl : (s : NetScope) → contains_scope s s ≡ true
unfolding contains_scope hosts_ok ports_ok
contains_scope_refl s = ground (
  arith,
  covers_self covers_pattern [] s.hosts covers_pattern_refl,
  covers_self contains_range [] s.ports contains_range_refl,
)

contains_path_scope_refl : (s : PathScope) → contains_path_scope s s ≡ true
unfolding contains_path_scope contains_path
contains_path_scope_refl s = ground (arith, same_text_refl s.root)

-- A capability satisfies itself.
pub satisfies_refl : (c : Capability) → satisfies c c ≡ true
unfolding satisfies covers_pool
satisfies_refl (filesystem_read path) = contains_path_scope_refl path
satisfies_refl (filesystem_write path) = contains_path_scope_refl path
satisfies_refl (tcp_connect scope) = contains_scope_refl scope
satisfies_refl (tcp_listen scope) = contains_scope_refl scope
satisfies_refl (udp_access scope) = contains_scope_refl scope
satisfies_refl (http_outgoing scope) = contains_scope_refl scope
satisfies_refl (resource_allocate none) = refl
satisfies_refl (resource_allocate (some pool)) = same_text_refl pool.pool_name
satisfies_refl (pool_access pool) = same_text_refl pool.pool_name
satisfies_refl wall_clock = refl
satisfies_refl c = refl

-- ===== src/Security/Resolver/Reaches.antt =====
-- What a capability of crates/torvyn-security/src/capability.rs lets a component reach: files, endpoints of
-- the network and pools; and that a guard lets it reach nothing else.
use torvyn.Common.{
  ℕ, Bool, true, false, ◌≡◌, ◌≢◌, refl, arith, List, [], ◌∷◌, none, some, any, Text, same_text,
  same_text_iff, subst, sym,
}
use torvyn.Security.Scopes.{contains_path}
use torvyn.Security.Scopes.Paths.{contains_path_scope_sound}
use torvyn.Security.Scopes.Containment.{allows, contains_scope_sound}
use torvyn.Security.Capabilities.{
  Capability, filesystem_read, filesystem_write, tcp_connect, tcp_listen, udp_access, http_outgoing,
  resource_allocate, pool_access, covers_pool, satisfies,
}
use torvyn.Security.Capabilities.Attenuation.{IsAbsolute}
use torvyn.Security.Guard.{CapabilityGuard, check, authorized}
use torvyn.Security.Resolver.{
  ComponentCapabilities, OperatorGrants, resolution, resolve, ResolutionResult,
}
use torvyn.Security.Resolver.Loops.{granted}
use torvyn.Security.Resolver.Access.{AreAbsolute, check-covered}

-- One access of a component.
pub data Access : Type 0 where
  reads writes : (path : Text) → Access
  connects listens exchanges requests : (host : Text) (port : ℕ) → Access
  allocates accesses : (pool_name : Text) → Access

module _ (to_lowercase : Text → Text) where
  -- The accesses that a capability means.
  unfoldable pub reaches : Capability → Access → Bool
  unfolding contains_path same_text
  reaches (filesystem_read scope) (reads path) = contains_path scope path
  reaches (filesystem_write scope) (writes path) = contains_path scope path
  reaches (tcp_connect scope) (connects host port) = allows to_lowercase scope host port
  reaches (tcp_listen scope) (listens host port) = allows to_lowercase scope host port
  reaches (udp_access scope) (exchanges host port) = allows to_lowercase scope host port
  reaches (http_outgoing scope) (requests host port) = allows to_lowercase scope host port
  reaches (resource_allocate none) (allocates name) = true
  reaches (resource_allocate (some pool)) (allocates name) = same_text pool.pool_name name
  reaches (pool_access pool) (accesses name) = same_text pool.pool_name name
  reaches _ _ = false

-- A request for the network names its hosts.
unfoldable pub NamesHosts : Capability → Type 0
NamesHosts (tcp_connect scope) = scope.hosts ≢ []
NamesHosts (tcp_listen scope) = scope.hosts ≢ []
NamesHosts (udp_access scope) = scope.hosts ≢ []
NamesHosts (http_outgoing scope) = scope.hosts ≢ []
NamesHosts _ = Unit {0}

same_text_same : (a b c : Text) → same_text a b ≡ true → same_text b c ≡ true → same_text a c ≡ true
same_text_same a b c h k = subst (λ t. same_text t c ≡ true) (sym ((same_text_iff a b).0 h)) k

module _ (to_lowercase : Text → Text) where
  -- A grant that satisfies a request reaches what the request reaches.
  satisfies-reaches :
      (grant request : Capability) (access : Access)
      → IsAbsolute grant
      → NamesHosts request
      → satisfies grant request ≡ true
      → reaches to_lowercase request access ≡ true
      → reaches to_lowercase grant access ≡ true
  unfolding satisfies reaches IsAbsolute NamesHosts covers_pool
  satisfies-reaches (filesystem_read a) (filesystem_read b) (reads path) (rest, at) n h k =
      contains_path_scope_sound a b path rest at h k
  satisfies-reaches (filesystem_write a) (filesystem_write b) (writes path) (rest, at) n h k =
      contains_path_scope_sound a b path rest at h k
  satisfies-reaches (tcp_connect a) (tcp_connect b) (connects host port) _ n h k =
      contains_scope_sound to_lowercase a b h (λ e. absurd (n e)) host port k
  satisfies-reaches (tcp_listen a) (tcp_listen b) (listens host port) _ n h k =
      contains_scope_sound to_lowercase a b h (λ e. absurd (n e)) host port k
  satisfies-reaches (udp_access a) (udp_access b) (exchanges host port) _ n h k =
      contains_scope_sound to_lowercase a b h (λ e. absurd (n e)) host port k
  satisfies-reaches (http_outgoing a) (http_outgoing b) (requests host port) _ n h k =
      contains_scope_sound to_lowercase a b h (λ e. absurd (n e)) host port k
  satisfies-reaches (resource_allocate none) (resource_allocate b) (allocates name) _ n h k = refl
  satisfies-reaches (resource_allocate (some a)) (resource_allocate none) (allocates name) _ n h k =
      absurd (ground (arith, h))
  satisfies-reaches (resource_allocate (some a)) (resource_allocate (some b)) (allocates name) _ n h
        k =
      same_text_same a.pool_name b.pool_name name h k
  satisfies-reaches (pool_access a) (pool_access b) (accesses name) _ n h k =
      same_text_same a.pool_name b.pool_name name h k
  satisfies-reaches grant request access _ n h k = absurd (ground (arith, h, k))

  granted-reaches :
      (grants : List Capability) (request : Capability) (access : Access)
      → AreAbsolute grants
      → NamesHosts request
      → granted grants request ≡ true
      → reaches to_lowercase request access ≡ true
      → any (λ g. reaches to_lowercase g access) grants ≡ true
  unfolding AreAbsolute granted any
  granted-reaches [] request access absolute n h k = absurd (ground (arith, h))
  granted-reaches (g ∷ grants) request access (here, there) n h k =
      let hit = satisfies-reaches g request access here n in
      let rest = granted-reaches grants request access there n in ground (arith, h, k, hit, rest)

  -- Of a request that a guard with a resolved set authorizes, each access to a file, an endpoint of the
  -- network or a pool is one that some grant of the operator reaches, where the grants for files have
  -- absolute roots and a request for the network names its hosts.
  pub check-reaches :
      (decimal : ℕ → Text) (operator : OperatorGrants) (component : ComponentCapabilities)
      (result : ResolutionResult) (guard : CapabilityGuard) (request : Capability) (access : Access)
      → AreAbsolute operator.grants
      → NamesHosts request
      → resolve decimal operator component ≡ resolution result
      → guard.resolved ≡ result.resolved
      → (check decimal guard request).1 ≡ authorized
      → reaches to_lowercase request access ≡ true
      → any (λ g. reaches to_lowercase g access) operator.grants ≡ true
  check-reaches decimal operator component result guard request access absolute n run same h k =
      granted-reaches operator.grants request access absolute n
        (check-covered decimal operator component result guard request absolute run same h) k

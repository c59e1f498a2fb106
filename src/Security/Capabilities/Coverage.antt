-- ===== src/Security/Capabilities/Coverage.antt =====
-- How the relations between the capabilities of crates/torvyn-security/src/capability.rs fit together.
use torvyn.Common.{true, none, some, if◌then◌else◌, ◌≡◌, refl, arith}
use torvyn.Security.Capabilities.{
  Capability, filesystem_read, filesystem_write, tcp_connect, tcp_listen, udp_access, http_outgoing,
  wall_clock, resource_allocate, pool_access, satisfies, intersect_unscoped, intersect, same_kind,
}

-- Intersecting a grant with a request gives the request where the grant satisfies it, and nothing
-- elsewhere.
pub intersect-satisfies :
    (grant request : Capability)
    → intersect grant request ≡ (if satisfies grant request then some request else none)
unfolding intersect intersect_unscoped satisfies
intersect-satisfies (filesystem_read grant) (filesystem_read req) = refl
intersect-satisfies (filesystem_write grant) (filesystem_write req) = refl
intersect-satisfies (tcp_connect grant) (tcp_connect req) = refl
intersect-satisfies (tcp_listen grant) (tcp_listen req) = refl
intersect-satisfies (udp_access grant) (udp_access req) = refl
intersect-satisfies (http_outgoing grant) (http_outgoing req) = refl
intersect-satisfies grant request = refl

pub satisfies-same_kind :
    (grant request : Capability) → satisfies grant request ≡ true → same_kind grant request ≡ true
unfolding satisfies same_kind
satisfies-same_kind (filesystem_read a) (filesystem_read b) h = refl
satisfies-same_kind (filesystem_write a) (filesystem_write b) h = refl
satisfies-same_kind (tcp_connect a) (tcp_connect b) h = refl
satisfies-same_kind (tcp_listen a) (tcp_listen b) h = refl
satisfies-same_kind (udp_access a) (udp_access b) h = refl
satisfies-same_kind (http_outgoing a) (http_outgoing b) h = refl
satisfies-same_kind (resource_allocate a) (resource_allocate b) h = refl
satisfies-same_kind (pool_access a) (pool_access b) h = refl
satisfies-same_kind wall_clock wall_clock h = refl
satisfies-same_kind grant request h = ground (arith, h)

-- ===== src/Security/Capabilities.antt =====
-- The capabilities of crates/torvyn-security/src/capability.rs, and when a grant covers a request.
pub mod Attenuation
pub mod Coverage
pub mod Display
pub mod Parser
pub mod Reflexivity
use torvyn.Common.{Bool, true, false, Option, none, some, if◌then◌else◌, Text, same_text}
use torvyn.Security.Scopes.{PathScope, contains_path_scope, NetScope, contains_scope}

pub record PoolScope : Type 0 where
  pub pool_name : Text

pub data Capability : Type 0 where
  filesystem_read : (path : PathScope) → Capability
  filesystem_write : (path : PathScope) → Capability
  tcp_connect : (scope : NetScope) → Capability
  tcp_listen : (scope : NetScope) → Capability
  udp_access : (scope : NetScope) → Capability
  http_outgoing : (scope : NetScope) → Capability
  wall_clock : Capability
  monotonic_clock : Capability
  crypto_random : Capability
  insecure_random : Capability
  environment : Capability
  stdout : Capability
  stderr : Capability
  resource_allocate : (pool : Option PoolScope) → Capability
  pool_access : (pool : PoolScope) → Capability
  emit_backpressure : Capability
  inspect_flow_meta : Capability
  runtime_inspect : Capability
  custom_metrics : Capability

unfoldable pub is_wasi : Capability → Bool
is_wasi (filesystem_read _) = true
is_wasi (filesystem_write _) = true
is_wasi (tcp_connect _) = true
is_wasi (tcp_listen _) = true
is_wasi (udp_access _) = true
is_wasi (http_outgoing _) = true
is_wasi wall_clock = true
is_wasi monotonic_clock = true
is_wasi crypto_random = true
is_wasi insecure_random = true
is_wasi environment = true
is_wasi stdout = true
is_wasi stderr = true
is_wasi _ = false

unfoldable pub is_hot_path : Capability → Bool
is_hot_path (resource_allocate _) = true
is_hot_path emit_backpressure = true
is_hot_path custom_metrics = true
is_hot_path inspect_flow_meta = true
is_hot_path _ = false

-- The inner match of `satisfies` on two optional pools.
unfoldable pub covers_pool : Option PoolScope → Option PoolScope → Bool
unfolding same_text
covers_pool none _ = true
covers_pool (some _) none = false
covers_pool (some g) (some r) = same_text g.pool_name r.pool_name

unfoldable pub satisfies : Capability → Capability → Bool
unfolding contains_path_scope contains_scope covers_pool same_text
satisfies (filesystem_read grant) (filesystem_read req) = contains_path_scope grant req
satisfies (filesystem_write grant) (filesystem_write req) = contains_path_scope grant req
satisfies (tcp_connect grant) (tcp_connect req) = contains_scope grant req
satisfies (tcp_listen grant) (tcp_listen req) = contains_scope grant req
satisfies (udp_access grant) (udp_access req) = contains_scope grant req
satisfies (http_outgoing grant) (http_outgoing req) = contains_scope grant req
satisfies wall_clock wall_clock = true
satisfies monotonic_clock monotonic_clock = true
satisfies crypto_random crypto_random = true
satisfies insecure_random insecure_random = true
satisfies environment environment = true
satisfies stdout stdout = true
satisfies stderr stderr = true
satisfies (resource_allocate grant_pool) (resource_allocate req_pool) =
    covers_pool grant_pool req_pool
satisfies (pool_access grant_pool) (pool_access req_pool) =
    same_text grant_pool.pool_name req_pool.pool_name
satisfies emit_backpressure emit_backpressure = true
satisfies inspect_flow_meta inspect_flow_meta = true
satisfies runtime_inspect runtime_inspect = true
satisfies custom_metrics custom_metrics = true
satisfies _ _ = false

-- The last two arms of `intersect`.
unfoldable pub intersect_unscoped : Capability → Capability → Option Capability
unfolding satisfies
intersect_unscoped grant request = if satisfies grant request then some request else none

unfoldable pub intersect : Capability → Capability → Option Capability
unfolding contains_path_scope contains_scope intersect_unscoped
intersect (filesystem_read grant) (filesystem_read req) =
    if contains_path_scope grant req then some (filesystem_read req) else none
intersect (filesystem_write grant) (filesystem_write req) =
    if contains_path_scope grant req then some (filesystem_write req) else none
intersect (tcp_connect grant) (tcp_connect req) =
    if contains_scope grant req then some (tcp_connect req) else none
intersect (tcp_listen grant) (tcp_listen req) =
    if contains_scope grant req then some (tcp_listen req) else none
intersect (udp_access grant) (udp_access req) =
    if contains_scope grant req then some (udp_access req) else none
intersect (http_outgoing grant) (http_outgoing req) =
    if contains_scope grant req then some (http_outgoing req) else none
intersect grant request = intersect_unscoped grant request

-- Equality of the constructors: `std::mem::discriminant` of both.
unfoldable pub same_kind : Capability → Capability → Bool
same_kind (filesystem_read _) (filesystem_read _) = true
same_kind (filesystem_write _) (filesystem_write _) = true
same_kind (tcp_connect _) (tcp_connect _) = true
same_kind (tcp_listen _) (tcp_listen _) = true
same_kind (udp_access _) (udp_access _) = true
same_kind (http_outgoing _) (http_outgoing _) = true
same_kind wall_clock wall_clock = true
same_kind monotonic_clock monotonic_clock = true
same_kind crypto_random crypto_random = true
same_kind insecure_random insecure_random = true
same_kind environment environment = true
same_kind stdout stdout = true
same_kind stderr stderr = true
same_kind (resource_allocate _) (resource_allocate _) = true
same_kind (pool_access _) (pool_access _) = true
same_kind emit_backpressure emit_backpressure = true
same_kind inspect_flow_meta inspect_flow_meta = true
same_kind runtime_inspect runtime_inspect = true
same_kind custom_metrics custom_metrics = true
same_kind _ _ = false

-- ===== src/Security/Capabilities/Display.antt =====
-- The printed form of the capabilities of crates/torvyn-security/src/capability.rs. How a u16 is printed
-- is a parameter.
use torvyn.Common.{ℕ, if◌then◌else◌, none, some, List, [], ◌∷◌, ◌++◌, map, ◌==◌, Text, codes}
use torvyn.Security.Scopes.{PortRange, NetScope, is_empty, is_unrestricted}
use torvyn.Security.Capabilities.{
  Capability, filesystem_read, filesystem_write, tcp_connect, tcp_listen, udp_access, http_outgoing,
  wall_clock, monotonic_clock, crypto_random, insecure_random, environment, stdout, stderr,
  resource_allocate, pool_access, emit_backpressure, inspect_flow_meta, runtime_inspect,
  custom_metrics,
}

unfoldable pub join : Text → List Text → Text
join separator [] = []
join separator (s ∷ []) = s
join separator (s ∷ t ∷ texts) = s ++ separator ++ join separator (t ∷ texts)

module _ (decimal : ℕ → Text) where
  unfoldable pub show_range : PortRange → Text
  show_range r =
      if r.first == r.last then decimal r.first else decimal r.first ++ b'-' ∷ decimal r.last

  unfoldable pub show_net : NetScope → Text
  unfolding is_unrestricted is_empty join show_range
  show_net s =
      if is_unrestricted s
      then codes "*:*"
      else (let hosts = if is_empty s.hosts then codes "*" else join (codes ",") s.hosts in
          let ports =
            if is_empty s.ports then codes "*" else join (codes ",") (map show_range s.ports) in
          hosts ++ b':' ∷ ports)

  unfoldable pub to_string : Capability → Text
  unfolding show_net
  to_string (filesystem_read path) = codes "filesystem:read:" ++ path.root
  to_string (filesystem_write path) = codes "filesystem:write:" ++ path.root
  to_string (tcp_connect scope) = codes "network:tcp-connect:" ++ show_net scope
  to_string (tcp_listen scope) = codes "network:tcp-listen:" ++ show_net scope
  to_string (udp_access scope) = codes "network:udp:" ++ show_net scope
  to_string (http_outgoing scope) = codes "network:http-outgoing:" ++ show_net scope
  to_string wall_clock = codes "clock:wall"
  to_string monotonic_clock = codes "clock:monotonic"
  to_string crypto_random = codes "random:crypto"
  to_string insecure_random = codes "random:insecure"
  to_string environment = codes "environment:read"
  to_string stdout = codes "stdio:stdout"
  to_string stderr = codes "stdio:stderr"
  to_string (resource_allocate (some pool)) = codes "torvyn:resource-allocate:" ++ pool.pool_name
  to_string (resource_allocate none) = codes "torvyn:resource-allocate"
  to_string (pool_access pool) = codes "torvyn:pool-access:" ++ pool.pool_name
  to_string emit_backpressure = codes "torvyn:emit-backpressure"
  to_string inspect_flow_meta = codes "torvyn:inspect-flow-meta"
  to_string runtime_inspect = codes "torvyn:runtime-inspect"
  to_string custom_metrics = codes "torvyn:custom-metrics"

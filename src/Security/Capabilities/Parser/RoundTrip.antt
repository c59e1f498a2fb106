-- ===== src/Security/Capabilities/Parser/RoundTrip.antt =====
-- `from_str` of crates/torvyn-security/src/capability.rs reads back what is printed.
use torvyn.Common.{ℕ, ◌≡◌, refl, ap, Option, none, some, Text}
use torvyn.Security.Capabilities.{
  Capability, filesystem_read, filesystem_write, tcp_connect, tcp_listen, udp_access, http_outgoing,
  wall_clock, monotonic_clock, crypto_random, insecure_random, environment, stdout, stderr,
  resource_allocate, pool_access, emit_backpressure, inspect_flow_meta, runtime_inspect,
  custom_metrics,
}
use torvyn.Security.Capabilities.Display.{to_string}
use torvyn.Security.Capabilities.Parser.{from_str, ok}
use torvyn.Security.Capabilities.Parser.Ports.{IsPlain}
use torvyn.Security.Capabilities.Parser.Nets.{scope_read}

module _ (decimal : ℕ → Text) (trim to_lowercase : Text → Text) (parse_u16 : Text → Option ℕ) where
  -- A capability that is printed and parsed again is the same, where its printed form determines it: its
  -- file scope is without trailing slashes, as `new` makes it, and its network scope is the unrestricted
  -- one, or names its ports, each read back as it is printed, and has plain hosts.
  pub from_str-to_string :
      (c : Capability)
      → IsPlain decimal trim to_lowercase parse_u16 c
      → from_str trim to_lowercase parse_u16 (to_string decimal c) ≡ ok c
  unfolding from_str to_string
  from_str-to_string (filesystem_read path) h = ap (λ p. ok (filesystem_read p)) h
  from_str-to_string (filesystem_write path) h = ap (λ p. ok (filesystem_write p)) h
  from_str-to_string (tcp_connect scope) h =
      ap (λ s. ok (tcp_connect s)) (scope_read decimal trim to_lowercase parse_u16 scope h)
  from_str-to_string (tcp_listen scope) h =
      ap (λ s. ok (tcp_listen s)) (scope_read decimal trim to_lowercase parse_u16 scope h)
  from_str-to_string (udp_access scope) h =
      ap (λ s. ok (udp_access s)) (scope_read decimal trim to_lowercase parse_u16 scope h)
  from_str-to_string (http_outgoing scope) h =
      ap (λ s. ok (http_outgoing s)) (scope_read decimal trim to_lowercase parse_u16 scope h)
  from_str-to_string (resource_allocate none) h = refl
  from_str-to_string (resource_allocate (some pool)) h = refl
  from_str-to_string (pool_access pool) h = refl
  from_str-to_string wall_clock h = refl
  from_str-to_string monotonic_clock h = refl
  from_str-to_string crypto_random h = refl
  from_str-to_string insecure_random h = refl
  from_str-to_string environment h = refl
  from_str-to_string stdout h = refl
  from_str-to_string stderr h = refl
  from_str-to_string emit_backpressure h = refl
  from_str-to_string inspect_flow_meta h = refl
  from_str-to_string runtime_inspect h = refl
  from_str-to_string custom_metrics h = refl

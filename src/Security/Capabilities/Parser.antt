-- ===== src/Security/Capabilities/Parser.antt =====
-- `from_str` of crates/torvyn-security/src/capability.rs. Trimming and lowercasing, which follow Unicode,
-- and the reading of a `u16` are parameters.
pub mod Pieces
pub mod Ports
pub mod Nets
pub mod RoundTrip
use torvyn.Common.{
  ℕ, Bool, true, false, not, ◌&&◌, ◌||◌, Option, none, some, List, [], ◌∷◌, ◌==◌, leb,
  if◌then◌else◌, Text, codes, same_text, all, map, filter,
}
use torvyn.Security.Scopes.{new_path, PortRange, NetScope, unrestricted, is_empty}
use torvyn.Security.Capabilities.{
  Capability, filesystem_read, filesystem_write, tcp_connect, tcp_listen, udp_access, http_outgoing,
  wall_clock, monotonic_clock, crypto_random, insecure_random, environment, stdout, stderr,
  resource_allocate, pool_access, emit_backpressure, inspect_flow_meta, runtime_inspect,
  custom_metrics,
}

-- The errors; the reason of an invalid format is one text, and is left out.
pub data CapabilityParseError : Type 0 where
  invalid_format unknown_capability : (input : Text) → CapabilityParseError
  missing_scope : (input expected : Text) → CapabilityParseError

pub data Parsed : Type 0 where
  ok : Capability → Parsed
  err : CapabilityParseError → Parsed

-- `split_once`, at the first separator.
unfoldable pub split_once : ℕ → Text → Option (Text × Text)
split_once separator [] = none
split_once separator (c ∷ s) =
    let rest : Option (Text × Text) = elim (split_once separator s) [
      | none ↦ none
      | some (a, b) ↦ some (c ∷ a, b)
    ] in
    if c == separator then some ([], s) else rest

-- The parts before and after the last separator, as by `rfind`.
unfoldable pub split_last : ℕ → Text → Option (Text × Text)
split_last separator [] = none
split_last separator (c ∷ s) = elim (split_last separator s) [
  | none ↦ if c == separator then some ([], s) else none
  | some (a, b) ↦ some (c ∷ a, b)
]

unfoldable pub onto_first : ℕ → List Text → List Text
onto_first c [] = (c ∷ []) ∷ []
onto_first c (piece ∷ pieces) = (c ∷ piece) ∷ pieces

unfoldable pub split : ℕ → Text → List Text
unfolding onto_first
split separator [] = [] ∷ []
split separator (c ∷ s) =
    let rest = split separator s in if c == separator then [] ∷ rest else onto_first c rest

unfoldable pub is_port_char : ℕ → Bool
is_port_char c = (leb b'0' c && leb c b'9') || (c == b'-' || c == b',')

-- `PortRange::new`.
unfoldable pub port_range : Option ℕ → Option ℕ → Option PortRange
port_range (some start) (some end) =
    if leb start end then some (record { first = start; last = end }) else none
port_range _ _ = none

-- `PortRange::single`.
unfoldable pub single : Option ℕ → Option PortRange
single none = none
single (some port) = some (record { first = port; last = port })

module _ (trim to_lowercase : Text → Text) (parse_u16 : Text → Option ℕ) where
  unfoldable pub host_list : Text → List Text
  unfolding is_empty split same_text filter
  host_list host_part =
      if same_text host_part (codes "*") || is_empty host_part
      then []
      else filter (λ h. not (is_empty h)) (map (λ h. to_lowercase (trim h)) (split b',' host_part))

  unfoldable pub port_segment : Text → Option PortRange
  unfolding is_empty split_once port_range single
  port_segment segment =
      let seg = trim segment in
      if is_empty seg then none else elim (split_once b'-' seg) [
        | some (s, e) ↦ port_range (parse_u16 s) (parse_u16 e)
        | none ↦ single (parse_u16 seg)
      ]

  -- `filter_map` over the segments.
  unfoldable pub port_list : List Text → List PortRange
  unfolding port_segment
  port_list [] = []
  port_list (segment ∷ segments) = elim (port_segment segment) [
    | none ↦ port_list segments
    | some range ↦ range ∷ port_list segments
  ]

  -- `NetScope::new`.
  unfoldable pub new_net : List Text → List PortRange → NetScope
  new_net hosts ports = record { hosts = map to_lowercase hosts; ports = ports }

  unfoldable pub net_scope : Text → NetScope
  unfolding split_last is_empty all is_port_char host_list port_list split new_net
  net_scope scope_str =
      let whole : NetScope = new_net (host_list scope_str) [] in
      elim (split_last b':' scope_str) [
        | none ↦ whole
        | some (before, after) ↦
            if not (is_empty after) && all is_port_char after
            then new_net (host_list before) (port_list (split b',' after))
            else whole
      ]

  unfoldable pub parse_net_scope_str : Option Text → NetScope
  unfolding same_text is_empty net_scope
  parse_net_scope_str none = unrestricted
  parse_net_scope_str (some s) =
      if same_text s (codes "*") || (same_text s (codes "*:*") || is_empty s)
      then unrestricted
      else net_scope s

  -- A scope that has to be there.
  unfoldable pub with_scope : Text → Text → Option Text → (Text → Capability) → Parsed
  with_scope input expected none f = err (missing_scope input expected)
  with_scope input expected (some scope) f = ok (f scope)

  unfoldable pub pool_of : Option Text → Capability
  pool_of none = resource_allocate none
  pool_of (some name) = resource_allocate (some (record { pool_name = name }))

  -- The match on the domain and the action.
  unfoldable pub of_name : Text → Text → Text → Option Text → Parsed
  unfolding same_text new_path parse_net_scope_str with_scope pool_of
  of_name input domain action scope =
      let is = λ (d a : Text). same_text domain d && same_text action a in
      if is (codes "filesystem") (codes "read")
      then with_scope input (codes "path") scope (λ path. filesystem_read (new_path path))
      else if is (codes "filesystem") (codes "write")
      then with_scope input (codes "path") scope (λ path. filesystem_write (new_path path))
      else if is (codes "network") (codes "tcp-connect")
      then ok (tcp_connect (parse_net_scope_str scope))
      else if is (codes "network") (codes "tcp-listen")
      then ok (tcp_listen (parse_net_scope_str scope))
      else if is (codes "network") (codes "udp")
      then ok (udp_access (parse_net_scope_str scope))
      else if is (codes "network") (codes "http-outgoing")
      then ok (http_outgoing (parse_net_scope_str scope))
      else if is (codes "clock") (codes "wall")
      then ok wall_clock
      else if is (codes "clock") (codes "monotonic")
      then ok monotonic_clock
      else if is (codes "random") (codes "crypto")
      then ok crypto_random
      else if is (codes "random") (codes "insecure")
      then ok insecure_random
      else if is (codes "environment") (codes "read")
      then ok environment
      else if is (codes "stdio") (codes "stdout")
      then ok stdout
      else if is (codes "stdio") (codes "stderr")
      then ok stderr
      else if is (codes "torvyn") (codes "resource-allocate")
      then ok (pool_of scope)
      else if is (codes "torvyn") (codes "pool-access")
      then with_scope input (codes "pool name") scope
          (λ name. pool_access (record { pool_name = name }))
      else if is (codes "torvyn") (codes "emit-backpressure")
      then ok emit_backpressure
      else if is (codes "torvyn") (codes "inspect-flow-meta")
      then ok inspect_flow_meta
      else if is (codes "torvyn") (codes "runtime-inspect")
      then ok runtime_inspect
      else if is (codes "torvyn") (codes "custom-metrics")
      then ok custom_metrics
      else err (unknown_capability input)

  -- `splitn(3, ':')`: a domain, an action, and all the rest as the scope.
  unfoldable pub from_str : Text → Parsed
  unfolding split_once of_name
  from_str s = elim (split_once b':' s) [
    | none ↦ err (invalid_format s)
    | some (domain, rest) ↦ elim (split_once b':' rest) [
      | none ↦ of_name s domain rest none
      | some (action, scope) ↦ of_name s domain action (some scope)
    ]
  ]

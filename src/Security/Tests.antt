-- ===== src/Security/Tests.antt =====
-- The theorems about security at a component that requires the wall clock and files below /data, and
-- may use the standard error.
use torvyn.Common.{
  ℕ, ◌≡◌, ◌↔◌, ◌⊎◌, refl, true, false, none, some, List, [], ◌∷◌, ◌++◌, arith, Text, codes, all,
  any, filter, map, if◌then◌else◌, Option, ◌+◌, ◌-◌, ◌*◌, ◌/◌, ◌%◌, inr,
}
use torvyn.Security.Scopes.{NetScope, contains_path, contains_scope, matches_host, matches_port}
use torvyn.Security.Scopes.Containment.{allows, contains_scope_sound}
use torvyn.Security.Scopes.Paths.{contains_path_iff}
use torvyn.Security.Capabilities.{
  Capability, filesystem_read, wall_clock, stderr, custom_metrics, resource_allocate,
  emit_backpressure, inspect_flow_meta, satisfies, intersect, same_kind,
}
use torvyn.Security.Capabilities.Coverage.{intersect-satisfies}
use torvyn.Security.Capabilities.Attenuation.{IsAbsolute}
use torvyn.Security.Scopes.{is_empty}
use torvyn.Security.Capabilities.{tcp_connect}
use torvyn.Security.Capabilities.Display.{to_string}
use torvyn.Security.Capabilities.Parser.{from_str, ok}
use torvyn.Security.Capabilities.Parser.Ports.{IsPort, IsRange, IsHost}
use torvyn.Security.Capabilities.Parser.RoundTrip.{from_str-to_string}
use torvyn.Security.Guard.{new_set, permits, check, authorized, CapabilityGuard}
use torvyn.Security.Guard.Checks.{from_capabilities-permits}
use torvyn.Security.Resolver.{
  ComponentCapabilities, OperatorGrants, ResolutionResult, resolution, refused, resolve, error_of,
  optional_not_granted,
}
use torvyn.Security.Resolver.Loops.{granted, covered, uncovered}
use torvyn.Security.Resolver.Reference.{resolve-granted, resolve-refused}
use torvyn.Security.Resolver.Access.{AreAbsolute, resolve-permits}
use torvyn.Security.Resolver.Reaches.{reads, reaches, NamesHosts, check-reaches}

abbrev data_files : Capability
data_files = filesystem_read (record { root = codes "/data" })

abbrev sub_files : Capability
sub_files = filesystem_read (record { root = codes "/data/in" })

abbrev component : ComponentCapabilities
component = record { required = wall_clock ∷ sub_files ∷ []; optional = stderr ∷ [] }

abbrev operator : OperatorGrants
operator = record { grants = data_files ∷ wall_clock ∷ [] }

abbrev narrow : OperatorGrants
narrow = record { grants = sub_files ∷ [] }

abbrev digits : ℕ → Text
digits n = n ∷ []

all_granted : all (covered operator) component.required ≡ true
unfolding all granted satisfies
all_granted = refl

not_granted : all (covered narrow) component.required ≡ false
unfolding all granted satisfies
not_granted = refl

resolve-granted_example :
    (result : ResolutionResult) × (resolve digits operator component ≡ resolution result)
    × (result.resolved
        ≡ new_set (component.required ++ filter (covered operator) component.optional))
resolve-granted_example = resolve-granted digits operator component all_granted

resolve-refused_example :
    resolve digits narrow component
    ≡ refused (map (error_of digits narrow) (filter (uncovered narrow) component.required))
resolve-refused_example = resolve-refused digits narrow component not_granted

abbrev result : ResolutionResult
unfolding new_set
result = record {
  resolved = new_set (wall_clock ∷ sub_files ∷ []);
  warnings = optional_not_granted (codes "stdio:stderr") ∷ [];
}

resolve_run : resolve digits operator component ≡ resolution result
unfolding resolve
resolve_run = refl

resolve-permits_example : all (permits result.resolved) component.required ≡ true
resolve-permits_example = resolve-permits digits operator component result resolve_run

abbrev guard : CapabilityGuard
guard = record { component_id = 1; resolved = result.resolved; audit_sink = [] }

deep_file : Capability
deep_file = filesystem_read (record { root = codes "/data/in/a" })

passed : (check digits guard deep_file).1 ≡ authorized
unfolding check deep_file result
passed = refl

grants-AreAbsolute : AreAbsolute operator.grants
unfolding AreAbsolute IsAbsolute
grants-AreAbsolute = ((codes "data", refl), (tt, tt))

abbrev same : Text → Text
same s = s

deep_reach : reaches same deep_file (reads (codes "/data/in/a/b")) ≡ true
unfolding reaches deep_file
deep_reach = refl

deep-NamesHosts : NamesHosts deep_file
unfolding NamesHosts deep_file
deep-NamesHosts = tt

check-reaches_example :
    any (λ g. reaches same g (reads (codes "/data/in/a/b"))) operator.grants ≡ true
check-reaches_example =
    check-reaches same digits operator component result guard deep_file
      (reads (codes "/data/in/a/b")) grants-AreAbsolute deep-NamesHosts resolve_run refl passed
      deep_reach

abbrev web : NetScope
web = record { hosts = codes "*.example.com" ∷ []; ports = record { first = 443; last = 443 } ∷ [] }

abbrev api : NetScope
api = record {
  hosts = codes "api.example.com" ∷ [];
  ports = record { first = 443; last = 443 } ∷ [];
}

web-api : contains_scope web api ≡ true
unfolding contains_scope
web-api = refl

api-allows : allows (λ t. t) api (codes "api.example.com") 443 ≡ true
unfolding matches_host matches_port
api-allows = refl

contains_scope_sound_example : allows (λ t. t) web (codes "api.example.com") 443 ≡ true
contains_scope_sound_example =
    contains_scope_sound (λ t. t) web api web-api (λ h. absurd (ground (arith, h)))
      (codes "api.example.com") 443 api-allows

contains_path_iff_example :
    (contains_path (record { root = codes "/data" }) (codes "/database") ≡ true) ↔ (
      (codes "/database" ≡ codes "/data")
      ⊎ ((codes "/data" ≡ codes "/")
          ⊎ ((rest : Text) × (codes "/database" ≡ codes "/data" ++ b'/' ∷ rest))))
contains_path_iff_example = contains_path_iff (record { root = codes "/data" }) (codes "/database")

intersect-satisfies_example :
    intersect data_files sub_files
    ≡ (if satisfies data_files sub_files then some sub_files else none)
intersect-satisfies_example = intersect-satisfies data_files sub_files

abbrev hot : List Capability
hot = resource_allocate (some (record { pool_name = codes "small" })) ∷ custom_metrics ∷ []

from_capabilities-permits_example :
    ((new_set hot).hot_path.emit_backpressure_flag ≡ permits (new_set hot) emit_backpressure)
    × ((new_set hot).hot_path.custom_metrics_flag ≡ permits (new_set hot) custom_metrics)
    × ((new_set hot).hot_path.inspect_flow_meta_flag ≡ permits (new_set hot) inspect_flow_meta)
    × ((new_set hot).hot_path.resource_allocate_flag
        ≡ any (λ c. same_kind c (resource_allocate none)) hot)
from_capabilities-permits_example = from_capabilities-permits hot

abbrev three_digits : ℕ → Text
three_digits n = (b'0' + n / 100) ∷ (b'0' + (n / 10) % 10) ∷ (b'0' + n % 10) ∷ []

abbrev read_three : Text → Option ℕ
read_three (a ∷ b ∷ c ∷ []) = some ((a - b'0') * 100 + (b - b'0') * 10 + (c - b'0'))
read_three _ = none

https-IsPort : IsPort three_digits same same read_three 443
unfolding all is_empty
https-IsPort = record { digits = refl; some_digit = refl; read = refl }

https-IsRange : IsRange three_digits same same read_three (record { first = 443; last = 443 })
https-IsRange = record {
  ordered = omega arith;
  first_read = https-IsPort;
  last_read = https-IsPort;
  trimmed = refl;
}

web-IsHost : IsHost three_digits same same read_three (codes "*.example.com")
unfolding all is_empty
web-IsHost = record { named = refl; not_any = λ h. cc; one = refl; trimmed = refl; lower = refl }

from_str-to_string_example :
    from_str same same read_three (to_string three_digits (tcp_connect web)) ≡ ok (tcp_connect web)
unfolding is_empty
from_str-to_string_example =
    from_str-to_string three_digits same same read_three (tcp_connect web)
      (inr (refl, (web-IsHost, tt), (https-IsRange, tt)))

-- A scope of one host and all ports is read back as a host with a star for its port.
any_port_read :
    from_str same same read_three
      (to_string three_digits (tcp_connect (record { hosts = codes "a.b" ∷ []; ports = [] })))
    ≡ ok (tcp_connect (record { hosts = codes "a.b:*" ∷ []; ports = [] }))
unfolding from_str to_string
any_port_read = refl

-- ===== src/Security/Scopes.antt =====
-- The scopes of crates/torvyn-security/src/capability.rs. A string is the list of its bytes. Unicode
-- lowercasing is a parameter.
pub mod Containment
pub mod Paths
use torvyn.Common.{
  ℕ, Bool, true, false, not, ◌&&◌, ◌||◌, Option, none, some, List, [], ◌∷◌, map, length, get_elem?,
  leb, ◌==◌, if◌then◌else◌, Text, codes, same_text, strip_prefix, ends_with, any, all,
}

pub record PathScope : Type 0 where
  pub root : Text

-- The loop of `new` on the bytes from the last one on.
unfoldable pub pop_slashes : Text → Text
pop_slashes [] = []
pop_slashes (c ∷ []) = c ∷ []
pop_slashes (c ∷ d ∷ s) = let rest = pop_slashes (d ∷ s) in if c == b'/' then rest else c ∷ d ∷ s

unfoldable pub reverse_onto : Text → Text → Text
reverse_onto done [] = done
reverse_onto done (c ∷ s) = reverse_onto (c ∷ done) s

unfoldable pub new_path : Text → PathScope
unfolding pop_slashes reverse_onto
new_path root = record { root = reverse_onto [] (pop_slashes (reverse_onto [] root)) }

-- `path.as_bytes().get(self.root.len()) == Some(&b'/')`.
unfoldable pub slash_at : Text → ℕ → Bool
slash_at path i = elim (get_elem? path i) [ none ↦ false | some c ↦ c == b'/' ]

unfoldable pub starts_with : Text → Text → Bool
unfolding strip_prefix
starts_with p s = elim (strip_prefix p s) [ none ↦ false | some _ ↦ true ]

unfoldable pub contains_path : PathScope → Text → Bool
unfolding same_text starts_with slash_at
contains_path scope path =
    same_text path scope.root
    || (same_text scope.root (codes "/")
        || (starts_with scope.root path && slash_at path (length scope.root)))

unfoldable pub contains_path_scope : PathScope → PathScope → Bool
unfolding contains_path
contains_path_scope scope other = contains_path scope other.root

pub record PortRange : Type 0 where
  pub first : ℕ  -- u16, as is last
  pub last : ℕ

unfoldable pub contains_port : PortRange → ℕ → Bool
contains_port r port = leb r.first port && leb port r.last

unfoldable pub contains_range : PortRange → PortRange → Bool
contains_range r other = leb r.first other.first && leb other.last r.last

pub record NetScope : Type 0 where
  pub hosts : List Text
  pub ports : List PortRange

abbrev pub unrestricted : NetScope
unrestricted = record { hosts = []; ports = [] }

unfoldable pub is_empty {ℓ} : {A : Type ℓ} → List A → Bool
is_empty [] = true
is_empty (x ∷ xs) = false

unfoldable pub is_unrestricted : NetScope → Bool
unfolding is_empty
is_unrestricted s = is_empty s.hosts && is_empty s.ports

-- Is a host the suffix, or a subdomain of it?
unfoldable pub under : Text → Text → Bool
unfolding same_text ends_with
under suffix host = same_text host suffix || ends_with (b'.' ∷ suffix) host

-- The closure of `matches_host` on a pattern and the lowercased host.
unfoldable pub matches_pattern : Text → Text → Bool
unfolding strip_prefix under same_text
matches_pattern pattern host = elim (strip_prefix (codes "*.") pattern) [
  | some suffix ↦ under suffix host
  | none ↦ same_text host pattern
]

unfoldable pub matches_host : (Text → Text) → NetScope → Text → Bool
unfolding is_empty any matches_pattern
matches_host to_lowercase s hostname =
    let hostname_lower = to_lowercase hostname in
    is_empty s.hosts || any (λ pattern. matches_pattern pattern hostname_lower) s.hosts

unfoldable pub matches_port : NetScope → ℕ → Bool
unfolding is_empty any contains_port
matches_port s port = is_empty s.ports || any (λ r. contains_port r port) s.ports

-- The inner closure of `contains_scope`: does one pattern cover another?
unfoldable pub covers_pattern : Text → Text → Bool
unfolding same_text strip_prefix under
covers_pattern own other = same_text own other || (elim (strip_prefix (codes "*.") own) [
  | none ↦ false
  | some suffix ↦ elim (strip_prefix (codes "*.") other) [
    | some other_suffix ↦ under suffix other_suffix
    | none ↦ under suffix other
  ]
])

unfoldable pub hosts_ok : List Text → List Text → Bool
unfolding all any covers_pattern
hosts_ok own others = all (λ other. any (λ pattern. covers_pattern pattern other) own) others

unfoldable pub ports_ok : List PortRange → List PortRange → Bool
unfolding all any is_empty contains_range
ports_ok own others =
    is_empty own
    || (not (is_empty others) && all (λ other. any (λ r. contains_range r other) own) others)

unfoldable pub contains_scope : NetScope → NetScope → Bool
unfolding is_unrestricted hosts_ok ports_ok
contains_scope s other =
    is_unrestricted s
    || (not (is_unrestricted other)
        && (hosts_ok s.hosts other.hosts && ports_ok s.ports other.ports))

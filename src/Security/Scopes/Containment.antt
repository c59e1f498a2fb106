-- ===== src/Security/Scopes/Containment.antt =====
-- What it means in crates/torvyn-security/src/capability.rs that a network scope contains another.
use torvyn.Common.{
  subst, ℕ, Bool, true, false, ◌&&◌, List, [], ◌∷◌, ◌++◌, ◌≡◌, refl, sym, ap, ◌∙◌, ◌≢◌, ◌⊎◌, inl,
  inr, arith, Bool-cases, Option-cases, Text, codes, same_text, same_text_iff, strip_prefix,
  ends_with-split, ends_with-append, any, all, any_mono,
}
use mathlib.Core.List.{append_assoc}
use torvyn.Security.Scopes.{
  PortRange, contains_port, contains_range, NetScope, is_empty, is_unrestricted, under,
  matches_pattern, matches_host, matches_port, covers_pattern, hosts_ok, ports_ok, contains_scope,
}

under-cases :
    (suffix host : Text)
    → under suffix host ≡ true
    → (host ≡ suffix) ⊎ ((front : Text) × (host ≡ front ++ b'.' ∷ suffix))
unfolding under
under-cases suffix host h = elim (Bool-cases (same_text host suffix)) [
  | inl same ↦ inl ((same_text_iff host suffix).0 same)
  | inr other ↦ inr (ends_with-split (b'.' ∷ suffix) host (ground (arith, h, other)))
]

under-front : (suffix front : Text) → under suffix (front ++ b'.' ∷ suffix) ≡ true
unfolding under
under-front suffix front = ground (arith, ends_with-append front (b'.' ∷ suffix))

pub under_trans :
    (outer middle host : Text)
    → under outer middle ≡ true
    → under middle host ≡ true
    → under outer host ≡ true
under_trans outer middle host a b = elim (under-cases middle host b) [
  | inl same ↦ subst (λ t. under outer t ≡ true) (sym same) a
  | inr (front, at) ↦ elim (under-cases outer middle a) [
    | inl same ↦
        subst (λ t. under outer t ≡ true) (sym (at ∙ ap (λ (t : Text). front ++ b'.' ∷ t) same))
          (under-front outer front)
    | inr (more, deeper) ↦
        subst (λ t. under outer t ≡ true)
          (sym (
            at
            ∙ ap (λ (t : Text). front ++ b'.' ∷ t) deeper
            ∙ sym (append_assoc front (b'.' ∷ more) (b'.' ∷ outer))))
          (under-front outer (front ++ b'.' ∷ more))
  ]
]

-- A pattern that covers another matches what it matches.
covers_pattern_sound :
    (own other host : Text)
    → covers_pattern own other ≡ true
    → matches_pattern other host ≡ true
    → matches_pattern own host ≡ true
unfolding covers_pattern matches_pattern
covers_pattern_sound own other host c h = elim (Bool-cases (same_text own other)) [
  | inl same ↦ subst (λ p. matches_pattern p host ≡ true) (sym ((same_text_iff own other).0 same)) h
  | inr differs ↦ elim (Option-cases (strip_prefix (codes "*.") own)) [
    | inl exact ↦ absurd (ground (arith, c, differs, exact))
    | inr (suffix, own_wild) ↦ elim (Option-cases (strip_prefix (codes "*.") other)) [
      | inl exact ↦
          let host_is : host ≡ other = (same_text_iff host other).0 (ground (arith, h, exact)) in
          let below : under suffix other ≡ true = ground (arith, c, differs, own_wild, exact) in
          let matched = subst (λ t. under suffix t ≡ true) (sym host_is) below in
          ground (arith, own_wild, matched)
      | inr (other_suffix, other_wild) ↦
          let below : under suffix other_suffix ≡ true =
            ground (arith, c, differs, own_wild, other_wild) in
          let inside : under other_suffix host ≡ true = ground (arith, h, other_wild) in
          ground (arith, own_wild, under_trans suffix other_suffix host below inside)
    ]
  ]
]

pub covered :
    {A B : Type 0} (covers : A → A → Bool) (matches : A → B → Bool) (own others : List A) (b : B)
    → ((x y : A) → covers x y ≡ true → matches y b ≡ true → matches x b ≡ true)
    → all (λ y. any (λ x. covers x y) own) others ≡ true
    → any (λ y. matches y b) others ≡ true
    → any (λ x. matches x b) own ≡ true
unfolding all any
covered covers matches own [] b sound c m = absurd (ground arith)
covered covers matches own (y ∷ others) b sound c m = elim (Bool-cases (matches y b)) [
  | inl here ↦
      any_mono (λ x. covers x y) (λ x. matches x b) own (λ x cov. sound x y cov here)
        (ground (arith, c))
  | inr there ↦
      covered covers matches own others b sound (ground (arith, c)) (ground (arith, m, there))
]

range_sound :
    (own other : PortRange) (port : ℕ)
    → contains_range own other ≡ true
    → contains_port other port ≡ true
    → contains_port own port ≡ true
unfolding contains_range contains_port
range_sound own other port c h = ground arith

ports_sound :
    (s other : NetScope) (port : ℕ)
    → ports_ok s.ports other.ports ≡ true
    → matches_port other port ≡ true
    → matches_port s port ≡ true
unfolding ports_ok matches_port is_empty
ports_sound s other port c h = ground (
  arith,
  covered contains_range contains_port s.ports other.ports port (λ x y. range_sound x y port),
)

hosts_sound :
    (to_lowercase : Text → Text) (s other : NetScope) (host : Text)
    → hosts_ok s.hosts other.hosts ≡ true
    → (other.hosts ≡ [] → s.hosts ≡ [])
    → matches_host to_lowercase other host ≡ true
    → matches_host to_lowercase s host ≡ true
unfolding hosts_ok matches_host is_empty
hosts_sound to_lowercase s other host c named h = ground (
  arith,
  named,
  covered covers_pattern matches_pattern s.hosts other.hosts (to_lowercase host)
      (λ x y. covers_pattern_sound x y (to_lowercase host)),
)

abbrev pub allows : (Text → Text) → NetScope → Text → ℕ → Bool
allows to_lowercase s host port = matches_host to_lowercase s host && matches_port s port

unrestricted_allows :
    (to_lowercase : Text → Text) (s : NetScope) (host : Text) (port : ℕ)
    → is_unrestricted s ≡ true
    → allows to_lowercase s host port ≡ true
unfolding is_unrestricted matches_host matches_port is_empty
unrestricted_allows to_lowercase s host port u = ground arith

-- A network scope that contains another allows every endpoint that the other allows, unless the other
-- names no host while it names some: however host names are lowercased.
pub contains_scope_sound :
    (to_lowercase : Text → Text) (s other : NetScope)
    → contains_scope s other ≡ true
    → (other.hosts ≡ [] → s.hosts ≡ [])
    → (host : Text) (port : ℕ) → allows to_lowercase other host port ≡ true
    → allows to_lowercase s host port ≡ true
unfolding contains_scope is_unrestricted
contains_scope_sound to_lowercase s other c named host port h = ground (
  arith,
  ports_sound s other port,
  hosts_sound to_lowercase s other host,
  unrestricted_allows to_lowercase s host port,
)

own_range :
    (more rest : List PortRange) (o : PortRange)
    → any (λ r. contains_range r o) (more ++ o ∷ rest) ≡ true
unfolding any contains_range
own_range [] rest o = ground arith
own_range (r ∷ more) rest o = ground (arith, own_range more rest o)

ranges_cover :
    (more ports : List PortRange)
    → all (λ o. any (λ r. contains_range r o) (more ++ ports)) ports ≡ true
unfolding all
ranges_cover more [] = refl
ranges_cover more (o ∷ ports) =
    let rest =
      subst (λ (own : List PortRange). all (λ p. any (λ r. contains_range r p) own) ports ≡ true)
        (append_assoc more (o ∷ []) ports) (ranges_cover (more ++ o ∷ []) ports) in
    ground (arith, own_range more ports o, rest)

is_empty-ne : {A : Type 0} (xs : List A) → xs ≢ [] → is_empty xs ≡ false
unfolding is_empty
is_empty-ne [] ne = absurd (ne refl)
is_empty-ne (x ∷ xs) ne = refl

hosts_ok-none : (others : List Text) → others ≢ [] → hosts_ok [] others ≡ false
unfolding hosts_ok all any
hosts_ok-none [] ne = absurd (ne refl)
hosts_ok-none (h ∷ others) ne = refl

-- A scope that names hosts and ports contains the scope of any host on the same ports, and the scope of
-- any host on some ports contains no scope that names a host on them.
pub any_host_misjudged :
    (s : NetScope)
    → s.hosts ≢ []
    → s.ports ≢ []
    → (contains_scope s (record s { hosts = [] }) ≡ true)
      × (contains_scope (record s { hosts = [] }) s ≡ false)
unfolding contains_scope is_unrestricted hosts_ok ports_ok is_empty all
any_host_misjudged s hosts ports = ground (
  arith,
  ranges_cover [] s.ports,
  is_empty-ne s.hosts hosts,
  is_empty-ne s.ports ports,
  hosts_ok-none s.hosts hosts,
)

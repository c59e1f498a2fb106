-- ===== src/Security/Capabilities/Parser/Nets.antt =====
-- The network scopes that `parse_net_scope_str` of crates/torvyn-security/src/capability.rs reads back.
use torvyn.Common.{
  ℕ, ◌≡◌, refl, sym, ap, subst, ◌∙◌, inl, inr, true, false, not, Option, some, List, [], ◌∷◌, ◌++◌,
  ◌==◌, arith, Text, codes, all, map, filter, Bool-cases, same_text, same_text_iff,
}
use torvyn.Security.Scopes.{PortRange, NetScope, unrestricted, is_empty}
use torvyn.Security.Capabilities.Display.{join, show_net}
use torvyn.Security.Capabilities.Parser.{
  split_last, split, is_port_char, host_list, port_list, new_net, net_scope, parse_net_scope_str,
}
use torvyn.Security.Capabilities.Parser.Pieces.{is_digit, split_last-append, AllLack, split-join}
use torvyn.Security.Capabilities.Parser.Ports.{
  is_empty-append, AllHosts, AllRanges, IsPlainNet, ports_text, ports_all, ports_some, ports_read,
}

head_inj : (a b : Text) (s t : List Text) → a ∷ s ≡ b ∷ t → a ≡ b
head_inj a b s t h = cc

pair_inj : (a b c d : Text) → ◌≡◌ {A = Option (Text × Text)} (some (a, b)) (some (c, d)) → b ≡ d
pair_inj a b c d h = cc

port_digit : (c : ℕ) → is_digit c ≡ true → is_port_char c ≡ true
unfolding is_port_char
port_digit c h = ground (arith, h)

join_some :
    (host : Text) (hosts : List Text)
    → is_empty host ≡ false
    → is_empty (join (codes ",") (host ∷ hosts)) ≡ false
unfolding join
join_some host [] h = h
join_some host (next ∷ hosts) h =
    is_empty-append (host ++ codes ",") (join (codes ",") (next ∷ hosts))
      (is_empty-append host (codes ",") h)

star_split : codes "*" ∷ [] ≡ split b',' (codes "*")
unfolding split
star_split = refl

none_empty :
    (text before ports : Text) → split_last b':' text ≡ some (before, ports) → is_empty text ≡ false
unfolding split_last is_empty
none_empty [] before ports last = absurd (ground (arith, last))
none_empty (c ∷ text) before ports last = refl

-- A text with a colon before its ports is none of the texts for any scope.
module _ (text before ports : Text) (last : split_last b':' text ≡ some (before, ports)) where
  not_star : same_text text (codes "*") ≡ false
  unfolding split_last
  not_star = elim (Bool-cases (same_text text (codes "*"))) [
    | inr other ↦ other
    | inl star ↦ absurd (
        ground (arith, sym (ap (split_last b':') ((same_text_iff text (codes "*")).0 star)) ∙ last))
  ]

  not_stars : all is_port_char ports ≡ true → same_text text (codes "*:*") ≡ false
  unfolding split_last all is_port_char
  not_stars chars = elim (Bool-cases (same_text text (codes "*:*"))) [
    | inr other ↦ other
    | inl stars ↦
        let e =
          pair_inj (codes "*") (codes "*") before ports
            (sym (ap (split_last b':') ((same_text_iff text (codes "*:*")).0 stars)) ∙ last) in
        absurd (ground (arith, subst (λ (t : Text). all is_port_char t ≡ true) (sym e) chars))
  ]

  not_nothing : is_empty text ≡ false
  not_nothing = none_empty text before ports last

module _ (decimal : ℕ → Text) (trim to_lowercase : Text → Text) (parse_u16 : Text → Option ℕ) where
  AllHosts-AllLack :
      (hosts : List Text) → AllHosts decimal trim to_lowercase parse_u16 hosts → AllLack b',' hosts
  AllHosts-AllLack [] v = tt
  AllHosts-AllLack (host ∷ hosts) (here, there) = (here.one, AllHosts-AllLack hosts there)

  lowered :
      (hosts : List Text)
      → AllHosts decimal trim to_lowercase parse_u16 hosts
      → map to_lowercase hosts ≡ hosts
  lowered [] v = refl
  lowered (host ∷ hosts) (here, there) = rw (here.lower, lowered hosts there) refl

  kept :
      (hosts : List Text)
      → AllHosts decimal trim to_lowercase parse_u16 hosts
      → filter (λ h. not (is_empty h)) (map (λ h. to_lowercase (trim h)) hosts) ≡ hosts
  unfolding filter
  kept [] v = refl
  kept (host ∷ hosts) (here, there) =
      rw (here.trimmed, here.lower, here.named, kept hosts there) refl

  host_list-join :
      (host : Text) (hosts : List Text)
      → AllHosts decimal trim to_lowercase parse_u16 (host ∷ hosts)
      → host_list trim to_lowercase parse_u16 (join (codes ",") (host ∷ hosts)) ≡ host ∷ hosts
  unfolding host_list
  host_list-join host hosts v =
      let text = join (codes ",") (host ∷ hosts) in
      let pieces : split b',' text ≡ host ∷ hosts =
        split-join b',' host hosts (AllHosts-AllLack (host ∷ hosts) v) in
      let named : same_text text (codes "*") ≡ false =
        elim (Bool-cases (same_text text (codes "*"))) [
          | inr other ↦ other
          | inl any_host ↦ absurd (
              v.0.not_any (
                sym (
                  head_inj (codes "*") host [] hosts (
                    star_split
                    ∙ ap (split b',') (sym ((same_text_iff text (codes "*")).0 any_host))
                    ∙ pieces))))
        ] in
      rw (named, join_some host hosts v.0.named, pieces) (kept (host ∷ hosts) v)

  star_hosts : host_list trim to_lowercase parse_u16 (codes "*") ≡ []
  unfolding host_list
  star_hosts = refl

  nothing_read :
      parse_net_scope_str trim to_lowercase parse_u16 (some (show_net decimal unrestricted))
      ≡ unrestricted
  unfolding parse_net_scope_str show_net
  nothing_read = refl

  scope_text :
      (text before ports : Text)
      → split_last b':' text ≡ some (before, ports)
      → all is_port_char ports ≡ true
      → parse_net_scope_str trim to_lowercase parse_u16 (some text)
        ≡ net_scope trim to_lowercase parse_u16 text
  unfolding parse_net_scope_str
  scope_text text before ports last chars =
      rw
        (
          not_star text before ports last,
          not_stars text before ports last chars,
          not_nothing text before ports last,
        )
        refl

  net_scope-ports :
      (text before ports : Text)
      → split_last b':' text ≡ some (before, ports)
      → is_empty ports ≡ false
      → all is_port_char ports ≡ true
      → net_scope trim to_lowercase parse_u16 text
        ≡ new_net trim to_lowercase parse_u16
            (host_list trim to_lowercase parse_u16 before)
            (port_list trim to_lowercase parse_u16 (split b',' ports))
  unfolding net_scope
  net_scope-ports text before ports last some_port chars =
      rw (net_scope, last, some_port, chars) refl

  text_read :
      (before : Text) (r : PortRange) (ranges : List PortRange) (hosts : List Text)
      → AllRanges decimal trim to_lowercase parse_u16 (r ∷ ranges)
      → AllHosts decimal trim to_lowercase parse_u16 hosts
      → host_list trim to_lowercase parse_u16 before ≡ hosts
      → parse_net_scope_str trim to_lowercase parse_u16
          (some (before ++ b':' ∷ ports_text decimal trim to_lowercase parse_u16 r ranges))
        ≡ record { hosts = hosts; ports = r ∷ ranges }
  unfolding new_net is_port_char
  text_read before r ranges hosts v w at =
      let ports = ports_text decimal trim to_lowercase parse_u16 r ranges in
      let chars =
        ports_all decimal trim to_lowercase parse_u16 is_port_char r ranges v port_digit refl
          refl in
      let last : split_last b':' (before ++ b':' ∷ ports) ≡ some (before, ports) =
        split_last-append b':' before ports (
          ports_all decimal trim to_lowercase parse_u16 (λ d. not (d == b':')) r ranges v
            (λ c h. ground (arith, h)) refl refl) in
      scope_text (before ++ b':' ∷ ports) before ports last chars
      ∙ net_scope-ports (before ++ b':' ∷ ports) before ports last
          (ports_some decimal trim to_lowercase parse_u16 r ranges v) chars
      ∙ rw (at, ports_read decimal trim to_lowercase parse_u16 r ranges v, lowered hosts w) refl

  net_read :
      (hosts : List Text) (ports : List PortRange)
      → is_empty ports ≡ false
      → AllHosts decimal trim to_lowercase parse_u16 hosts
      → AllRanges decimal trim to_lowercase parse_u16 ports
      → parse_net_scope_str trim to_lowercase parse_u16
          (some (show_net decimal (record { hosts = hosts; ports = ports })))
        ≡ record { hosts = hosts; ports = ports }
  unfolding show_net ports_text
  net_read hosts [] e w v = absurd (ground (arith, e))
  net_read [] (r ∷ ranges) e w v = text_read (codes "*") r ranges [] v tt star_hosts
  net_read (host ∷ hosts) (r ∷ ranges) e w v =
      text_read (join (codes ",") (host ∷ hosts)) r ranges (host ∷ hosts) v w
        (host_list-join host hosts w)

  pub scope_read :
      (scope : NetScope)
      → IsPlainNet decimal trim to_lowercase parse_u16 scope
      → parse_net_scope_str trim to_lowercase parse_u16 (some (show_net decimal scope)) ≡ scope
  scope_read scope (inl all) =
      subst (λ s. parse_net_scope_str trim to_lowercase parse_u16 (some (show_net decimal s)) ≡ s)
        (sym all) nothing_read
  scope_read scope (inr (e, w, v)) = net_read scope.hosts scope.ports e w v

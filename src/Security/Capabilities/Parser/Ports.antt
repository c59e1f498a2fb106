-- ===== src/Security/Capabilities/Parser/Ports.antt =====
-- Ports that `from_str` of crates/torvyn-security/src/capability.rs reads back, and what its text
-- determines.
use torvyn.Common.{
  ℕ, ◌≤◌, ◌≡◌, ◌≢◌, ◌⊎◌, refl, ap, subst, ◌∙◌, inl, inr, Bool, true, false, not, Option, none, some,
  List, [], ◌∷◌, ◌++◌, ◌==◌, leb, arith, Text, codes, all, map, Bool-cases,
}
use torvyn.Security.Scopes.{new_path, PortRange, NetScope, unrestricted, is_empty}
use torvyn.Security.Capabilities.{
  Capability, filesystem_read, filesystem_write, tcp_connect, tcp_listen, udp_access, http_outgoing,
}
use torvyn.Security.Capabilities.Display.{join, show_range}
use torvyn.Security.Capabilities.Parser.{
  split_once, split, port_range, single, port_segment, port_list,
}
use torvyn.Security.Capabilities.Parser.Pieces.{
  Lacks, is_digit, all_mono, all-append, split_once-none, split_once-append, AllLack, split-join,
}

pub is_empty-append : (s t : Text) → is_empty s ≡ false → is_empty (s ++ t) ≡ false
unfolding is_empty
is_empty-append [] t h = absurd (ground (arith, h))
is_empty-append (c ∷ s) t h = refl

module _ (decimal : ℕ → Text) (trim to_lowercase : Text → Text) (parse_u16 : Text → Option ℕ) where
  -- A number that is printed in digits and read back.
  pub record IsPort (port : ℕ) : Type 0 where
    pub digits : all is_digit (decimal port) ≡ true
    pub some_digit : is_empty (decimal port) ≡ false
    pub read : parse_u16 (decimal port) ≡ some port

  pub record IsRange (r : PortRange) : Type 0 where
    pub ordered : r.first ≤ r.last
    pub first_read : IsPort r.first
    pub last_read : IsPort r.last
    pub trimmed : trim (show_range decimal r) ≡ show_range decimal r

  -- A host that stands in a list of hosts as it is.
  pub record IsHost (host : Text) : Type 0 where
    pub named : is_empty host ≡ false
    pub not_any : host ≢ codes "*"
    pub one : Lacks b',' host
    pub trimmed : trim host ≡ host
    pub lower : to_lowercase host ≡ host

  abbrev pub AllHosts : List Text → Type 0
  AllHosts [] = Unit {0}
  AllHosts (host ∷ hosts) = IsHost host × AllHosts hosts

  abbrev pub AllRanges : List PortRange → Type 0
  AllRanges [] = Unit {0}
  AllRanges (r ∷ ranges) = IsRange r × AllRanges ranges

  -- A scope of all hosts and ports, or one that names its ports.
  abbrev pub IsPlainNet : NetScope → Type 0
  IsPlainNet s =
      (s ≡ unrestricted) ⊎ ((is_empty s.ports ≡ false) × AllHosts s.hosts × AllRanges s.ports)

  -- A capability that its printed form determines.
  abbrev pub IsPlain : Capability → Type 0
  IsPlain (filesystem_read path) = new_path path.root ≡ path
  IsPlain (filesystem_write path) = new_path path.root ≡ path
  IsPlain (tcp_connect scope) = IsPlainNet scope
  IsPlain (tcp_listen scope) = IsPlainNet scope
  IsPlain (udp_access scope) = IsPlainNet scope
  IsPlain (http_outgoing scope) = IsPlainNet scope
  IsPlain _ = Unit {0}

  pub digit-Lacks : (c : ℕ) (s : Text) → is_digit c ≡ false → all is_digit s ≡ true → Lacks c s
  digit-Lacks c s other = all_mono is_digit (λ d. not (d == c)) s (λ d h. ground (arith, h, other))

  port_segment-single :
      (text : Text) (port : ℕ)
      → trim text ≡ text
      → is_empty text ≡ false
      → split_once b'-' text ≡ none
      → parse_u16 text ≡ some port
      → port_segment trim to_lowercase parse_u16 text ≡ some (record { first = port; last = port })
  unfolding port_segment single
  port_segment-single text port t e s p = rw (t, e, s, t, p) refl

  port_segment-range :
      (text start end : Text) (first last : ℕ)
      → trim text ≡ text
      → is_empty text ≡ false
      → split_once b'-' text ≡ some (start, end)
      → parse_u16 start ≡ some first
      → parse_u16 end ≡ some last
      → first ≤ last
      → port_segment trim to_lowercase parse_u16 text ≡ some (record { first = first; last = last })
  unfolding port_segment port_range
  port_segment-range text start end first last t e s p q le =
      let in_order : leb first last ≡ true = ground (arith, le) in rw (t, e, s, p, q, in_order) refl

  segment_read :
      (r : PortRange)
      → IsRange r
      → port_segment trim to_lowercase parse_u16 (show_range decimal r) ≡ some r
  unfolding show_range
  segment_read r v = elim (Bool-cases (r.first == r.last)) [
    | inl same ↦
        let trimmed : trim (decimal r.first) ≡ decimal r.first =
          let shown : show_range decimal r ≡ decimal r.first = rw same refl in
          subst (λ (t : Text). trim t ≡ t) shown v.trimmed in
        let e : r.first ≡ r.last = ground (arith, same) in
        rw same (
          port_segment-single (decimal r.first) r.first trimmed v.first_read.some_digit
            (split_once-none b'-' (decimal r.first)
              (digit-Lacks b'-' (decimal r.first) refl v.first_read.digits))
            v.first_read.read
          ∙ ap (λ (n : ℕ). some (record { first = r.first; last = n })) e)
    | inr other ↦
        let text = decimal r.first ++ b'-' ∷ decimal r.last in
        let trimmed : trim text ≡ text =
          let shown : show_range decimal r ≡ text = rw other refl in
          subst (λ (t : Text). trim t ≡ t) shown v.trimmed in
        rw other (
          port_segment-range text (decimal r.first) (decimal r.last) r.first r.last trimmed
            (is_empty-append (decimal r.first) (b'-' ∷ decimal r.last) v.first_read.some_digit)
            (split_once-append b'-' (decimal r.first) (decimal r.last)
              (digit-Lacks b'-' (decimal r.first) refl v.first_read.digits))
            v.first_read.read v.last_read.read v.ordered)
  ]

  -- A test that digits and a dash pass.
  segment_all :
      (p : ℕ → Bool) (r : PortRange)
      → IsRange r
      → ((c : ℕ) → is_digit c ≡ true → p c ≡ true)
      → p b'-' ≡ true
      → all p (show_range decimal r) ≡ true
  unfolding show_range all
  segment_all p r v digits dash =
      let a = all_mono is_digit p (decimal r.first) digits v.first_read.digits in
      let b = all_mono is_digit p (decimal r.last) digits v.last_read.digits in
      elim (Bool-cases (r.first == r.last)) [
        | inl same ↦ rw same a
        | inr other ↦
            rw other
              (ground (arith, a, b, dash, all-append p (decimal r.first) (b'-' ∷ decimal r.last)))
      ]

  segment_some : (r : PortRange) → IsRange r → is_empty (show_range decimal r) ≡ false
  unfolding show_range
  segment_some r v = elim (Bool-cases (r.first == r.last)) [
    | inl same ↦ rw same v.first_read.some_digit
    | inr other ↦
        rw other (is_empty-append (decimal r.first) (b'-' ∷ decimal r.last) v.first_read.some_digit)
  ]

  ranges_lack :
      (ranges : List PortRange) → AllRanges ranges → AllLack b',' (map (show_range decimal) ranges)
  ranges_lack [] v = tt
  ranges_lack (r ∷ ranges) (here, there) = (
    segment_all (λ d. not (d == b',')) r here (λ c h. ground (arith, h)) refl,
    ranges_lack ranges there,
  )

  port_list-show :
      (ranges : List PortRange)
      → AllRanges ranges
      → port_list trim to_lowercase parse_u16 (map (show_range decimal) ranges) ≡ ranges
  unfolding port_list
  port_list-show [] v = refl
  port_list-show (r ∷ ranges) (here, there) =
      rw (segment_read r here, port_list, port_list-show ranges there) refl

  -- The ports as they are printed.
  unfoldable pub ports_text : PortRange → List PortRange → Text
  ports_text r ranges = join (codes ",") (map (show_range decimal) (r ∷ ranges))

  pub ports_all :
      (p : ℕ → Bool) (r : PortRange) (ranges : List PortRange)
      → AllRanges (r ∷ ranges)
      → ((c : ℕ) → is_digit c ≡ true → p c ≡ true)
      → p b'-' ≡ true
      → p b',' ≡ true
      → all p (ports_text r ranges) ≡ true
  unfolding ports_text join all
  ports_all p r [] (here, there) digits dash comma = segment_all p r here digits dash
  ports_all p r (s ∷ ranges) (here, there) digits dash comma =
      let a = segment_all p r here digits dash in
      let b = ports_all p s ranges there digits dash comma in
      let rest = join (codes ",") (map (show_range decimal) (s ∷ ranges)) in
      ground (
        arith,
        a,
        b,
        comma,
        all-append p (show_range decimal r ++ codes ",") rest,
        all-append p (show_range decimal r) (codes ","),
      )

  pub ports_some :
      (r : PortRange) (ranges : List PortRange)
      → AllRanges (r ∷ ranges)
      → is_empty (ports_text r ranges) ≡ false
  unfolding ports_text join
  ports_some r [] (here, there) = segment_some r here
  ports_some r (s ∷ ranges) (here, there) =
      is_empty-append (show_range decimal r ++ codes ",")
        (join (codes ",") (map (show_range decimal) (s ∷ ranges)))
        (is_empty-append (show_range decimal r) (codes ",") (segment_some r here))

  pub ports_read :
      (r : PortRange) (ranges : List PortRange)
      → AllRanges (r ∷ ranges)
      → port_list trim to_lowercase parse_u16 (split b',' (ports_text r ranges)) ≡ r ∷ ranges
  unfolding ports_text
  ports_read r ranges v =
      ap (port_list trim to_lowercase parse_u16) (
        split-join b',' (show_range decimal r) (map (show_range decimal) ranges)
          (ranges_lack (r ∷ ranges) v))
      ∙ port_list-show (r ∷ ranges) v

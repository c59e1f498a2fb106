-- ===== src/Contracts/Compatibility/Chain.antt =====
-- Versions in a row, for crates/torvyn-contracts/src/compatibility.rs.
use torvyn.Common.{
  ◌≡◌, ◌≢◌, ◌∙◌, refl, subst, inl, inr, Bool-cases, Option, none, some, List, [], ◌∷◌, arith, Text,
  same_text, same_text_iff,
}
use torvyn.Contracts.Package.{
  Entries, find, ParsedParam, ParsedFunction, ParsedTypeDefKind, record_kind, variant, enum,
  ParsedInterface, ParsedPackage,
}
use torvyn.Contracts.Compatibility.{
  field_map, case_map, type_def_kind_name, check_compatibility, CompatibilityVerdict,
}
use torvyn.Contracts.Compatibility.Keeps.{
  AllEntries, Kept, IsThere, Among, AllAmong, SameParams, KeepsFunction, KeepsKind, KeepsTypeDef,
  KeepsInterface,
}
use torvyn.Contracts.Compatibility.Verdicts.{verdict-KeepsPackage}

some_inj : {V : Type 0} (a b : V) → some a ≡ some b → a ≡ b
some_inj a b h = cc

AllEntries-find :
    {V : Type 0} (P : Text → V → Type 0) (m : Entries V) (k : Text) (v : V)
    → AllEntries P m
    → find k m ≡ some v
    → P k v
unfolding find
AllEntries-find P [] k v all h = absurd (ground (arith, h))
AllEntries-find P ((j, w) ∷ m) k v (here, there) h = elim (Bool-cases (same_text j k)) [
  | inl same ↦
      subst (λ x. P x v) ((same_text_iff j k).0 same)
        (subst (P j) (some_inj w v (ground (arith, h, same))) here)
  | inr other ↦ AllEntries-find P m k v there (ground (arith, h, other))
]

module _ {U V W : Type 0} (P : U → V → Type 0) (Q : V → W → Type 0) (R : U → W → Type 0)
    (step : (a : U) (b : V) (c : W) → P a b → Q b c → R a c) where
  Kept-chain :
      (old : Entries U) (mid : Entries V) (new : Entries W)
      → AllEntries (λ k a. Kept P a (find k mid)) old
      → AllEntries (λ k b. Kept Q b (find k new)) mid
      → AllEntries (λ k a. Kept R a (find k new)) old
  Kept-chain [] mid new p q = tt
  Kept-chain ((k, a) ∷ old) mid new (here, there) q = (
    at (find k mid) (find k new) here
        (λ b h. AllEntries-find (λ k b. Kept Q b (find k new)) mid k b q h) refl,
    Kept-chain old mid new there q,
  )
    where
      last : (a : U) (b : V) (o : Option W) → P a b → Kept Q b o → Kept R a o
      last a b none p q = absurd q
      last a b (some c) p q = step a b c p q

      at :
          (o : Option V) (o' : Option W)
          → Kept P a o
          → ((b : V) → find k mid ≡ some b → Kept Q b o')
          → find k mid ≡ o
          → Kept R a o'
      at none o' p q e = absurd p
      at (some b) o' p q e = last a b o' p (q b e)

IsThere-chain :
    {U V W : Type 0} (old : Entries U) (mid : Entries V) (new : Entries W)
    → AllEntries (λ k a. IsThere (find k mid)) old
    → AllEntries (λ k b. IsThere (find k new)) mid
    → AllEntries (λ k a. IsThere (find k new)) old
IsThere-chain [] mid new p q = tt
IsThere-chain {V = V} ((k, a) ∷ old) mid new (here, there) q =
    (at (find k mid) here refl, IsThere-chain old mid new there q)
  where
    at : (o : Option V) → IsThere o → find k mid ≡ o → IsThere (find k new)
    at none p e = absurd p
    at (some b) p e = AllEntries-find (λ k b. IsThere (find k new)) mid k b q e

Among-chain :
    (name : Text) (mid new : List Text) → Among name mid → AllAmong mid new → Among name new
Among-chain name [] new h all = absurd h
Among-chain name (other ∷ mid) new h all = elim h [
  | inl same ↦ subst (λ x. Among x new) same all.0
  | inr later ↦ Among-chain name mid new later all.1
]

AllAmong-chain : (old mid new : List Text) → AllAmong old mid → AllAmong mid new → AllAmong old new
AllAmong-chain [] mid new p q = tt
AllAmong-chain (name ∷ old) mid new (here, there) q =
    (Among-chain name mid new here q, AllAmong-chain old mid new there q)

SameParams-chain : (a b c : List ParsedParam) → SameParams a b → SameParams b c → SameParams a c
SameParams-chain [] [] [] p q = tt
SameParams-chain (x ∷ a) (y ∷ b) (z ∷ c) p q = (p.0 ∙ q.0, SameParams-chain a b c p.1 q.1)
SameParams-chain [] (y ∷ b) c p q = absurd p
SameParams-chain (x ∷ a) [] c p q = absurd p
SameParams-chain [] [] (z ∷ c) p q = absurd q
SameParams-chain (x ∷ a) (y ∷ b) [] p q = absurd q

KeepsFunction-chain :
    (a b c : ParsedFunction) → KeepsFunction a b → KeepsFunction b c → KeepsFunction a c
KeepsFunction-chain a b c p q = (SameParams-chain a.params b.params c.params p.0 q.0, p.1 ∙ q.1)

KeepsKind-chain : (a b c : ParsedTypeDefKind) → KeepsKind a b → KeepsKind b c → KeepsKind a c
unfolding type_def_kind_name
KeepsKind-chain (record_kind a) (record_kind b) (record_kind c) p q =
    let old = field_map [] a in
    let mid = field_map [] b in
    let new = field_map [] c in
    (
      Kept-chain ◌≡◌ ◌≡◌ ◌≡◌ (λ x y z e f. e ∙ f) old mid new p.0 q.0,
      IsThere-chain new mid old q.1 p.1,
    )
KeepsKind-chain (variant a) (variant b) (variant c) p q =
    Kept-chain ◌≡◌ ◌≡◌ ◌≡◌ (λ x y z e f. e ∙ f) (case_map [] a) (case_map [] b) (case_map [] c) p q
KeepsKind-chain (enum a) (enum b) (enum c) p q = AllAmong-chain a b c p q
KeepsKind-chain a b c p q = ground (arith, p, q)

KeepsInterface-chain :
    (a b c : ParsedInterface) → KeepsInterface a b → KeepsInterface b c → KeepsInterface a c
KeepsInterface-chain a b c p q = record {
  functions =
      Kept-chain KeepsFunction KeepsFunction KeepsFunction KeepsFunction-chain a.functions
        b.functions c.functions p.functions q.functions;
  resources = AllAmong-chain a.resources b.resources c.resources p.resources q.resources;
  types =
      Kept-chain KeepsTypeDef KeepsTypeDef KeepsTypeDef
        (λ x y z. KeepsKind-chain x.kind y.kind z.kind) a.types b.types c.types p.types q.types;
}

-- Compatible steps add up: where neither of two steps between versions is breaking, the comparison of
-- the last version with the first is not breaking either.
pub check_compatibility_chain :
    {Version : Type 0} (zero_version : Version) (a b c : ParsedPackage Version)
    → (check_compatibility zero_version a b).verdict ≢ CompatibilityVerdict.breaking
    → (check_compatibility zero_version b c).verdict ≢ CompatibilityVerdict.breaking
    → (check_compatibility zero_version a c).verdict ≢ CompatibilityVerdict.breaking
check_compatibility_chain zero_version a b c p q =
    let first = (verdict-KeepsPackage zero_version a b).0 p in
    let second = (verdict-KeepsPackage zero_version b c).0 q in
    (verdict-KeepsPackage zero_version a c).1 (record {
      interfaces =
          Kept-chain KeepsInterface KeepsInterface KeepsInterface KeepsInterface-chain a.interfaces
            b.interfaces c.interfaces first.interfaces second.interfaces;
      worlds = IsThere-chain a.worlds b.worlds c.worlds first.worlds second.worlds;
    })

-- ===== src/Contracts/Compatibility/Preserves.antt =====
-- What the verdict of crates/torvyn-contracts/src/compatibility.rs says of the two versions of a package.
use torvyn.Common.{
  ◌≡◌, ◌≢◌, ◌↔◌, refl, subst, arith, inl, inr, Option, none, some, List, [], ◌∷◌, Text,
}
use torvyn.Contracts.Package.{
  Entries, find, ParsedTypeDefKind, record_kind, variant, enum, flags, resource, alias,
  ParsedTypeDef, ParsedInterface, ParsedPackage,
}
use torvyn.Contracts.Compatibility.{
  field_map, case_map, type_def_kind_name, CompatibilityVerdict, check_compatibility,
}
use torvyn.Contracts.Compatibility.Keeps.{
  AllEntries, Kept, Among, AllAmong, KeepsFunction, KeepsFields, KeepsCases, KeepsKind,
  KeepsTypeDef, KeepsInterface,
}
use torvyn.Contracts.Compatibility.Breaks.{IfThere, Kept-parts}
use torvyn.Contracts.Compatibility.Verdicts.{verdict-KeepsPackage}

-- A definition stays of its kind: a record with the same fields and types, a variant, an enumeration or flags
-- with at least the old cases, an alias of the same type. Fields and cases are maps from their names.
abbrev pub PreservesKind : ParsedTypeDefKind → ParsedTypeDefKind → Type 0
PreservesKind (record_kind old) (record_kind new) =
    KeepsFields (field_map [] old) (field_map [] new)
PreservesKind (variant old) (variant new) = KeepsCases (case_map [] old) (case_map [] new)
PreservesKind (enum old) (enum new) = AllAmong old new
PreservesKind (flags old) (flags new) = AllAmong old new
PreservesKind resource resource = Unit {0}
PreservesKind (alias old) (alias new) = old ≡ new
PreservesKind old new = ⊥

abbrev pub PreservesTypeDef : ParsedTypeDef → ParsedTypeDef → Type 0
PreservesTypeDef old new = PreservesKind old.kind new.kind

pub record PreservesInterface (old new : ParsedInterface) : Type 0 where
  pub functions : AllEntries (λ k f. Kept KeepsFunction f (find k new.functions)) old.functions
  pub resources : AllAmong old.resources new.resources
  pub types : AllEntries (λ k d. Kept PreservesTypeDef d (find k new.types)) old.types

-- All that was built against the older version finds in the newer one: its interfaces, and its worlds as
-- they were.
pub record PreservesPackage {Version : Type 0} (old new : ParsedPackage Version) : Type 0 where
  pub interfaces :
      AllEntries (λ k i. Kept PreservesInterface i (find k new.interfaces)) old.interfaces
  pub worlds : AllEntries (λ k w. Kept ◌≡◌ w (find k new.worlds)) old.worlds

-- Flags that are still flags have the same names, and an alias that is still one has the same type.
abbrev pub SameKind : ParsedTypeDefKind → ParsedTypeDefKind → Type 0
SameKind (flags old) (flags new) = old ≡ new
SameKind (alias old) (alias new) = old ≡ new
SameKind old new = Unit {0}

abbrev pub SameTypes : ParsedInterface → ParsedInterface → Type 0
SameTypes old new =
    AllEntries
      (λ k d. IfThere (λ (o n : ParsedTypeDef). SameKind o.kind n.kind) d (find k new.types))
      old.types

-- What the comparison does not look into is as it was: flags, aliases and worlds that are still there.
pub record AreUnchanged {Version : Type 0} (old new : ParsedPackage Version) : Type 0 where
  pub types : AllEntries (λ k i. IfThere SameTypes i (find k new.interfaces)) old.interfaces
  pub worlds : AllEntries (λ k w. IfThere ◌≡◌ w (find k new.worlds)) old.worlds

module _ {V W : Type 0} (U P Q : V → W → Type 0)
    (step : (a : V) (b : W) → U a b → P a b → Q a b) where
  Kept-with :
      (old : Entries V) (new : Entries W)
      → AllEntries (λ k v. IfThere U v (find k new)) old
      → AllEntries (λ k v. Kept P v (find k new)) old
      → AllEntries (λ k v. Kept Q v (find k new)) old
  Kept-with [] new u p = tt
  Kept-with ((k, v) ∷ old) new u p = (at (find k new) u.0 p.0, Kept-with old new u.1 p.1)
    where
      at : (o : Option W) → IfThere U v o → Kept P v o → Kept Q v o
      at none u p = p
      at (some w) u p = step v w u p

module _ {V W : Type 0} (P Q : V → W → Type 0) (step : (a : V) (b : W) → P a b → Q a b) where
  Kept-mono :
      (old : Entries V) (new : Entries W)
      → AllEntries (λ k v. Kept P v (find k new)) old
      → AllEntries (λ k v. Kept Q v (find k new)) old
  Kept-mono [] new p = tt
  Kept-mono ((k, v) ∷ old) new p = (at (find k new) p.0, Kept-mono old new p.1)
    where
      at : (o : Option W) → Kept P v o → Kept Q v o
      at none p = p
      at (some w) p = step v w p

Among-more : (name other : Text) (names : List Text) → Among name names → Among name (other ∷ names)
Among-more name other names h = inr h

AllAmong-more :
    (names others : List Text) (other : Text)
    → AllAmong names others
    → AllAmong names (other ∷ others)
AllAmong-more [] others other h = tt
AllAmong-more (name ∷ names) others other (here, there) =
    (inr here, AllAmong-more names others other there)

AllAmong-self : (names : List Text) → AllAmong names names
AllAmong-self [] = tt
AllAmong-self (name ∷ names) = (inl refl, AllAmong-more names names name (AllAmong-self names))

preserve_kind : (a b : ParsedTypeDefKind) → SameKind a b → KeepsKind a b → PreservesKind a b
unfolding type_def_kind_name
preserve_kind (record_kind a) (record_kind b) u h = h
preserve_kind (variant a) (variant b) u h = h
preserve_kind (enum a) (enum b) u h = h
preserve_kind (flags a) (flags b) u h = subst (AllAmong a) u (AllAmong-self a)
preserve_kind resource resource u h = tt
preserve_kind (alias a) (alias b) u h = u
preserve_kind a b u h = absurd (ground (arith, h))

keep_kind : (a b : ParsedTypeDefKind) → PreservesKind a b → KeepsKind a b
unfolding type_def_kind_name
keep_kind (record_kind a) (record_kind b) h = h
keep_kind (variant a) (variant b) h = h
keep_kind (enum a) (enum b) h = h
keep_kind (flags a) (flags b) h = refl
keep_kind resource resource h = refl
keep_kind (alias a) (alias b) h = refl
keep_kind a b h = absurd h

preserve_interface :
    (a b : ParsedInterface) → SameTypes a b → KeepsInterface a b → PreservesInterface a b
preserve_interface a b u h = record {
  functions = h.functions;
  resources = h.resources;
  types =
      Kept-with (λ (o n : ParsedTypeDef). SameKind o.kind n.kind) KeepsTypeDef PreservesTypeDef
        (λ o n. preserve_kind o.kind n.kind) a.types b.types u h.types;
}

keep_interface : (a b : ParsedInterface) → PreservesInterface a b → KeepsInterface a b
keep_interface a b h = record {
  functions = h.functions;
  resources = h.resources;
  types =
      Kept-mono PreservesTypeDef KeepsTypeDef (λ o n. keep_kind o.kind n.kind) a.types b.types
        h.types;
}

-- Where the flags, aliases and worlds that are still there are as they were, the verdict on two versions
-- of a package is other than breaking exactly where the newer version preserves the older one: each
-- interface with each function and its types, each resource and each type definition of its kind, and each
-- world.
pub check_compatibility_iff :
    {Version : Type 0} (zero_version : Version) (old new : ParsedPackage Version)
    → AreUnchanged old new
    → ((check_compatibility zero_version old new).verdict ≢ CompatibilityVerdict.breaking)
      ↔ PreservesPackage old new
check_compatibility_iff zero_version old new u =
    let kept = verdict-KeepsPackage zero_version old new in
    let worlds = Kept-parts ◌≡◌ old.worlds new.worlds in
    (
      λ h.
          let k = kept.0 h in
          record {
            interfaces =
                Kept-with SameTypes KeepsInterface PreservesInterface preserve_interface
                  old.interfaces new.interfaces u.types k.interfaces;
            worlds = worlds.0 (k.worlds, u.worlds);
          },
      λ p. kept.1 (record {
        interfaces =
            Kept-mono PreservesInterface KeepsInterface keep_interface old.interfaces new.interfaces
              p.interfaces;
        worlds = (worlds.1 p.worlds).0;
      }),
    )

-- ===== src/Contracts/Compatibility/Keeps.antt =====
-- What crates/torvyn-contracts/src/compatibility.rs compares of a newer version of a package with an
-- older one. Flags, aliases and worlds are looked at less than an older client needs.
use torvyn.Common.{◌≡◌, ◌⊎◌, Option, none, some, List, [], ◌∷◌, Text}
use torvyn.Contracts.Package.{
  ParsedType, TypeOption, Entries, find, ParsedParam, ParsedFunction, ParsedTypeDefKind,
  record_kind, variant, enum, ParsedTypeDef, ParsedInterface, ParsedPackage,
}
use torvyn.Contracts.Compatibility.{field_map, case_map, type_def_kind_name}

abbrev pub AllEntries : {V : Type 0} → (Text → V → Type 0) → Entries V → Type 0
AllEntries P [] = Unit {0}
AllEntries P ((k, v) ∷ m) = P k v × AllEntries P m

-- A key that is there still, with a value that keeps the old one.
abbrev pub Kept : {V W : Type 0} → (V → W → Type 0) → V → Option W → Type 0
Kept P v none = ⊥
Kept P v (some w) = P v w

abbrev pub IsThere : {W : Type 0} → Option W → Type 0
IsThere none = ⊥
IsThere (some w) = Unit {0}

abbrev pub Among : Text → List Text → Type 0
Among name [] = ⊥
Among name (other ∷ others) = (other ≡ name) ⊎ Among name others

abbrev pub AllAmong : List Text → List Text → Type 0
AllAmong [] others = Unit {0}
AllAmong (name ∷ names) others = Among name others × AllAmong names others

-- The parameters have the same types, in the same order; their names may change.
abbrev pub SameParams : List ParsedParam → List ParsedParam → Type 0
SameParams [] [] = Unit {0}
SameParams (old ∷ olds) (new ∷ news) = (old.typ ≡ new.typ) × SameParams olds news
SameParams _ _ = ⊥

abbrev pub KeepsFunction : ParsedFunction → ParsedFunction → Type 0
KeepsFunction old new = SameParams old.params new.params × (old.result ≡ new.result)

-- A record keeps all its fields with their types, and gets no other.
abbrev pub KeepsFields : Entries ParsedType → Entries ParsedType → Type 0
KeepsFields old new =
    AllEntries (λ k t. Kept ◌≡◌ t (find k new)) old × AllEntries (λ k t. IsThere (find k old)) new

-- A variant keeps its cases with their payloads, and may get others.
abbrev pub KeepsCases : Entries TypeOption → Entries TypeOption → Type 0
KeepsCases old new = AllEntries (λ k t. Kept ◌≡◌ t (find k new)) old

-- Of flags, resources and aliases no more is asked than that they remain so.
abbrev pub KeepsKind : ParsedTypeDefKind → ParsedTypeDefKind → Type 0
KeepsKind (record_kind old) (record_kind new) = KeepsFields (field_map [] old) (field_map [] new)
KeepsKind (variant old) (variant new) = KeepsCases (case_map [] old) (case_map [] new)
KeepsKind (enum old) (enum new) = AllAmong old new
KeepsKind old new = type_def_kind_name old ≡ type_def_kind_name new

abbrev pub KeepsTypeDef : ParsedTypeDef → ParsedTypeDef → Type 0
KeepsTypeDef old new = KeepsKind old.kind new.kind

pub record KeepsInterface (old new : ParsedInterface) : Type 0 where
  pub functions : AllEntries (λ k f. Kept KeepsFunction f (find k new.functions)) old.functions
  pub resources : AllAmong old.resources new.resources
  pub types : AllEntries (λ k d. Kept KeepsTypeDef d (find k new.types)) old.types

pub record KeepsPackage {Version : Type 0} (old new : ParsedPackage Version) : Type 0 where
  pub interfaces : AllEntries (λ k i. Kept KeepsInterface i (find k new.interfaces)) old.interfaces
  pub worlds : AllEntries (λ k w. IsThere (find k new.worlds)) old.worlds

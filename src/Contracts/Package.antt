-- ===== src/Contracts/Package.antt =====
-- crates/torvyn-contracts/src/parser.rs: what the parser returns. A HashMap with texts for keys is the
-- list of its entries in the order in which the map is run through.
use torvyn.Common.{
  ◌≡◌, refl, ap, subst, ◌↔◌, Bool, true, false, ◌&&◌, Option, none, some, List, [], ◌∷◌,
  if◌then◌else◌, arith, Text, same_text, same_text_iff,
}

-- Options and lists of types are copies of Option and List.
mutual
  pub data ParsedType : Type 0 where
    primitive named : Text → ParsedType
    list option borrow own : ParsedType → ParsedType
    result : (ok err : TypeOption) → ParsedType
    tuple : TypeList → ParsedType

  pub data TypeOption : Type 0 where
    no_type : TypeOption
    a_type : ParsedType → TypeOption

  pub data TypeList : Type 0 where
    no_types : TypeList
    types : ParsedType → TypeList → TypeList

-- The derived `PartialEq`.
unfoldable mutual
  unfolding same_text

  pub same_type : ParsedType → ParsedType → Bool
  same_type (primitive a) (primitive b) = same_text a b
  same_type (named a) (named b) = same_text a b
  same_type (list a) (list b) = same_type a b
  same_type (option a) (option b) = same_type a b
  same_type (borrow a) (borrow b) = same_type a b
  same_type (own a) (own b) = same_type a b
  same_type (result a b) (result c d) = same_option a c && same_option b d
  same_type (tuple a) (tuple b) = same_list a b
  same_type _ _ = false

  pub same_option : TypeOption → TypeOption → Bool
  same_option no_type no_type = true
  same_option (a_type a) (a_type b) = same_type a b
  same_option _ _ = false

  pub same_list : TypeList → TypeList → Bool
  same_list no_types no_types = true
  same_list (types a rest) (types b others) = same_type a b && same_list rest others
  same_list _ _ = false

-- The laws of the equality tests: they are exact.
mutual
  unfolding same_type same_option same_list

  same_type_eq : (a b : ParsedType) → same_type a b ≡ true → a ≡ b
  same_type_eq (primitive a) (primitive b) h = ap primitive ((same_text_iff a b).0 h)
  same_type_eq (named a) (named b) h = ap named ((same_text_iff a b).0 h)
  same_type_eq (list a) (list b) h = ap list (same_type_eq a b h)
  same_type_eq (option a) (option b) h = ap option (same_type_eq a b h)
  same_type_eq (borrow a) (borrow b) h = ap borrow (same_type_eq a b h)
  same_type_eq (own a) (own b) h = ap own (same_type_eq a b h)
  same_type_eq (result a b) (result c d) h =
      ground (arith, h, same_option_eq a c, same_option_eq b d)
  same_type_eq (tuple a) (tuple b) h = ap tuple (same_list_eq a b h)
  same_type_eq _ _ h = ground (arith, h)

  same_option_eq : (a b : TypeOption) → same_option a b ≡ true → a ≡ b
  same_option_eq no_type no_type h = refl
  same_option_eq (a_type a) (a_type b) h = ap a_type (same_type_eq a b h)
  same_option_eq no_type (a_type b) h = ground (arith, h)
  same_option_eq (a_type a) no_type h = ground (arith, h)

  same_list_eq : (a b : TypeList) → same_list a b ≡ true → a ≡ b
  same_list_eq no_types no_types h = refl
  same_list_eq (types a rest) (types b others) h =
      ground (arith, h, same_type_eq a b, same_list_eq rest others)
  same_list_eq no_types (types b others) h = ground (arith, h)
  same_list_eq (types a rest) no_types h = ground (arith, h)

mutual
  unfolding same_type same_option same_list

  same_type_self : (a : ParsedType) → same_type a a ≡ true
  same_type_self (primitive a) = (same_text_iff a a).1 refl
  same_type_self (named a) = (same_text_iff a a).1 refl
  same_type_self (list a) = same_type_self a
  same_type_self (option a) = same_type_self a
  same_type_self (borrow a) = same_type_self a
  same_type_self (own a) = same_type_self a
  same_type_self (result a b) = ground (arith, same_option_self a, same_option_self b)
  same_type_self (tuple a) = same_list_self a

  same_option_self : (a : TypeOption) → same_option a a ≡ true
  same_option_self no_type = refl
  same_option_self (a_type a) = same_type_self a

  same_list_self : (a : TypeList) → same_list a a ≡ true
  same_list_self no_types = refl
  same_list_self (types a rest) = ground (arith, same_type_self a, same_list_self rest)

pub same_type_iff : (a b : ParsedType) → (same_type a b ≡ true) ↔ (a ≡ b)
same_type_iff a b = (same_type_eq a b, λ e. subst (λ x. same_type a x ≡ true) e (same_type_self a))

pub same_option_iff : (a b : TypeOption) → (same_option a b ≡ true) ↔ (a ≡ b)
same_option_iff a b =
    (same_option_eq a b, λ e. subst (λ x. same_option a x ≡ true) e (same_option_self a))

-- The entries of a HashMap.
abbrev pub Entries : Type 0 → Type 0
Entries V = List (Text × V)

module _ {V : Type 0} where
  unfoldable pub find : Text → Entries V → Option V
  unfolding same_text
  find k [] = none
  find k ((j, v) ∷ m) = if same_text j k then some v else find k m

  unfoldable pub put : Text → V → Entries V → Entries V
  unfolding same_text
  put k v [] = (k, v) ∷ []
  put k v ((j, w) ∷ m) = let rest = put k v m in if same_text j k then (k, v) ∷ m else (j, w) ∷ rest

pub record ParsedParam : Type 0 where
  pub name : Text
  pub typ : ParsedType

pub record ParsedFunction : Type 0 where
  pub name : Text
  pub params : List ParsedParam
  pub result : TypeOption

pub record ParsedField : Type 0 where
  pub name : Text
  pub typ : ParsedType

pub record ParsedCase : Type 0 where
  pub name : Text
  pub typ : TypeOption

pub data ParsedTypeDefKind : Type 0 where
  record_kind : List ParsedField → ParsedTypeDefKind
  variant : List ParsedCase → ParsedTypeDefKind
  enum flags : List Text → ParsedTypeDefKind
  resource : ParsedTypeDefKind
  alias : ParsedType → ParsedTypeDefKind

pub record ParsedTypeDef : Type 0 where
  pub name : Text
  pub kind : ParsedTypeDefKind

pub record ParsedInterface : Type 0 where
  pub name : Text
  pub functions : Entries ParsedFunction
  pub types : Entries ParsedTypeDef
  pub resources : List Text

pub data WorldImportExport : Type 0 where
  interface : Text → WorldImportExport
  function : ParsedFunction → WorldImportExport

pub record ParsedWorld : Type 0 where
  pub name : Text
  pub imports : Entries WorldImportExport
  pub exports : Entries WorldImportExport

-- The type of versions is that of another library.
pub record ParsedPackage (Version : Type 0) : Type 0 where
  pub name : Text
  pub version : Option Version
  pub interfaces : Entries ParsedInterface
  pub worlds : Entries ParsedWorld

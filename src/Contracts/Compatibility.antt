-- ===== src/Contracts/Compatibility.antt =====
-- crates/torvyn-contracts/src/compatibility.rs: what changed between two versions of a package. The
-- text of a change is kept as its kind and what it prints. What a function pushes onto the changes is
-- the list that it returns.
pub mod Breaks
pub mod Chain
pub mod Functions
pub mod Keeps
pub mod Kinds
pub mod Preserves
pub mod Verdicts
use torvyn.Common.{
  ℕ, Bool, true, false, not, ◌||◌, Option, none, some, List, [], ◌∷◌, ◌++◌, ◌==◌, if◌then◌else◌,
  length, Text, codes, same_text, any,
}
use torvyn.Contracts.Package.{
  same_type, same_option, ParsedType, TypeOption, Entries, find, put, ParsedParam, ParsedFunction,
  ParsedField, ParsedCase, ParsedTypeDefKind, record_kind, variant, enum, flags, resource, alias,
  ParsedTypeDef, ParsedInterface, ParsedWorld, ParsedPackage,
}

pub data ChangeSeverity : Type 0 where
  patch minor breaking : ChangeSeverity

pub data CompatibilityVerdict : Type 0 where
  compatible compatible_with_additions breaking : CompatibilityVerdict

-- The descriptions.
pub data Change : Type 0 where
  interface_removed interface_added function_removed function_added : Text → Change
  parameter_count : (function : Text) (old new : ℕ) → Change
  parameter_type : (function parameter : Text) → Change
  return_type resource_removed type_removed type_added : Text → Change
  enum_case_removed enum_case_added : Text → Change
  kind_changed : (old new : Text) → Change
  field_removed field_added field_type : Text → Change
  case_removed case_added case_type world_removed world_added : Text → Change

pub record ChangeEntry : Type 0 where
  pub description : Change
  pub severity : ChangeSeverity
  pub path : Text

-- `format!("{}.{}", path, name)`.
unfoldable pub dotted : Text → Text → Text
dotted path name = path ++ b'.' ∷ name

module _ {V W : Type 0} where
  -- A loop over a map that looks each key up in another one.
  unfoldable pub each :
      (Text → V → Option W → List ChangeEntry) → Entries V → Entries W → List ChangeEntry
  unfolding find
  each f [] other = []
  each f ((k, v) ∷ m) other = f k v (find k other) ++ each f m other

  -- `if !other.contains_key(name)`.
  unfoldable pub unless_there : (Text → ChangeEntry) → Text → V → Option W → List ChangeEntry
  unless_there entry k v none = entry k ∷ []
  unless_there entry k v (some w) = []

  -- `if let Some(new) = other.get(name)`.
  unfoldable pub if_there :
      (Text → V → W → List ChangeEntry) → Text → V → Option W → List ChangeEntry
  if_there f k v none = []
  if_there f k v (some w) = f k v w

-- A loop over names that a list may lack.
unfoldable pub each_name : (Text → ChangeEntry) → List Text → List Text → List ChangeEntry
unfolding same_text any
each_name entry [] others = []
each_name entry (name ∷ names) others =
    (if any (λ other. same_text other name) others then [] else entry name ∷ [])
    ++ each_name entry names others

unfoldable pub compare_params : Text → Text → List ParsedParam → List ParsedParam → List ChangeEntry
unfolding same_type dotted
compare_params path name (old ∷ olds) (new ∷ news) =
    (if same_type old.typ new.typ
      then []
      else record {
        description = parameter_type name old.name;
        severity = ChangeSeverity.breaking;
        path = dotted (dotted path name) old.name;
      }
        ∷ [])
    ++ compare_params path name olds news
compare_params path name _ _ = []

unfoldable pub compare_functions : Text → Text → ParsedFunction → ParsedFunction → List ChangeEntry
unfolding compare_params same_option dotted
compare_functions path name old new =
    (if length old.params == length new.params
      then compare_params path name old.params new.params
      else record {
        description = parameter_count name (length old.params) (length new.params);
        severity = ChangeSeverity.breaking;
        path = dotted path name;
      }
        ∷ [])
    ++ (if same_option old.result new.result
        then []
        else record {
          description = return_type name;
          severity = ChangeSeverity.breaking;
          path = dotted path name;
        }
          ∷ [])

-- `collect` into a HashMap: a later entry of a name takes the place of an earlier one.
unfoldable pub field_map : Entries ParsedType → List ParsedField → Entries ParsedType
unfolding put
field_map m [] = m
field_map m (field ∷ fields) = field_map (put field.name field.typ m) fields

unfoldable pub case_map : Entries TypeOption → List ParsedCase → Entries TypeOption
unfolding put
case_map m [] = m
case_map m (c ∷ cases) = case_map (put c.name c.typ m) cases

unfoldable pub note : (Text → Change) → ChangeSeverity → Text → Text → ChangeEntry
unfolding dotted
note kind severity path name = record {
  description = kind name;
  severity = severity;
  path = dotted path name;
}

unfoldable pub compare_field : Text → Text → ParsedType → ParsedType → List ChangeEntry
unfolding same_type note
compare_field path name old new =
    if same_type old new then [] else note field_type ChangeSeverity.breaking path name ∷ []

unfoldable pub compare_case : Text → Text → TypeOption → TypeOption → List ChangeEntry
unfolding same_option note
compare_case path name old new =
    if same_option old new then [] else note case_type ChangeSeverity.breaking path name ∷ []

unfoldable pub compare_record_fields : List ParsedField → List ParsedField → Text → List ChangeEntry
unfolding field_map each unless_there if_there compare_field note
compare_record_fields old new path =
    let old_map = field_map [] old in
    let new_map = field_map [] new in
    each (unless_there (note field_removed ChangeSeverity.breaking path)) old_map new_map
    ++ each (unless_there (note field_added ChangeSeverity.breaking path)) new_map old_map
    ++ each (if_there (compare_field path)) old_map new_map

unfoldable pub compare_variant_cases : List ParsedCase → List ParsedCase → Text → List ChangeEntry
unfolding case_map each unless_there if_there compare_case note
compare_variant_cases old new path =
    let old_map = case_map [] old in
    let new_map = case_map [] new in
    each (unless_there (note case_removed ChangeSeverity.breaking path)) old_map new_map
    ++ each (unless_there (note case_added minor path)) new_map old_map
    ++ each (if_there (compare_case path)) old_map new_map

unfoldable pub type_def_kind_name : ParsedTypeDefKind → Text
type_def_kind_name (record_kind _) = codes "record"
type_def_kind_name (variant _) = codes "variant"
type_def_kind_name (enum _) = codes "enum"
type_def_kind_name (flags _) = codes "flags"
type_def_kind_name resource = codes "resource"
type_def_kind_name (alias _) = codes "alias"

-- The last arm of the match in `compare_type_defs`.
unfoldable pub compare_kinds : ParsedTypeDefKind → ParsedTypeDefKind → Text → List ChangeEntry
unfolding type_def_kind_name same_text
compare_kinds old new path =
    if same_text (type_def_kind_name old) (type_def_kind_name new)
    then []
    else record {
      description = kind_changed (type_def_kind_name old) (type_def_kind_name new);
      severity = ChangeSeverity.breaking;
      path = path;
    }
      ∷ []

unfoldable pub compare_type_defs : ParsedTypeDefKind → ParsedTypeDefKind → Text → List ChangeEntry
unfolding compare_record_fields compare_variant_cases each_name note compare_kinds
compare_type_defs (record_kind old) (record_kind new) path = compare_record_fields old new path
compare_type_defs (variant old) (variant new) path = compare_variant_cases old new path
compare_type_defs (enum old) (enum new) path =
    each_name (note enum_case_removed ChangeSeverity.breaking path) old new
    ++ each_name (note enum_case_added minor path) new old
compare_type_defs old new path = compare_kinds old new path

unfoldable pub compare_type : Text → Text → ParsedTypeDef → Option ParsedTypeDef → List ChangeEntry
unfolding compare_type_defs note dotted
compare_type path name old none = note type_removed ChangeSeverity.breaking path name ∷ []
compare_type path name old (some new) = compare_type_defs old.kind new.kind (dotted path name)

unfoldable pub compare_interface_contents :
    Text → ParsedInterface → ParsedInterface → List ChangeEntry
unfolding each unless_there if_there each_name compare_functions compare_type note
compare_interface_contents path old new =
    each (unless_there (note function_removed ChangeSeverity.breaking path)) old.functions
      new.functions
    ++ each (unless_there (note function_added minor path)) new.functions old.functions
    ++ each (if_there (compare_functions path)) old.functions new.functions
    ++ each_name (note resource_removed ChangeSeverity.breaking path) old.resources new.resources
    ++ each (compare_type path) old.types new.types
    ++ each (unless_there (note type_added minor path)) new.types old.types

unfoldable pub note_top : (Text → Change) → ChangeSeverity → Text → Text → ChangeEntry
note_top kind severity prefix name = record {
  description = kind name;
  severity = severity;
  path = prefix ++ name;
}

unfoldable pub compare_interfaces :
    Entries ParsedInterface → Entries ParsedInterface → List ChangeEntry
unfolding each unless_there if_there compare_interface_contents note_top
compare_interfaces old new =
    each (unless_there (note_top interface_removed ChangeSeverity.breaking [])) old new
    ++ each (unless_there (note_top interface_added minor [])) new old
    ++ each (if_there compare_interface_contents) old new

unfoldable pub compare_worlds : Entries ParsedWorld → Entries ParsedWorld → List ChangeEntry
unfolding each unless_there note_top
compare_worlds old new =
    each (unless_there (note_top world_removed ChangeSeverity.breaking (codes "world:"))) old new
    ++ each (unless_there (note_top world_added minor (codes "world:"))) new old

unfoldable pub is_breaking : ChangeEntry → Bool
is_breaking entry = elim entry.severity [ ChangeSeverity.breaking ↦ true | _ ↦ false ]

unfoldable pub is_minor : ChangeEntry → Bool
is_minor entry = elim entry.severity [ minor ↦ true | _ ↦ false ]

unfoldable pub verdict_of : List ChangeEntry → CompatibilityVerdict
unfolding is_breaking is_minor any
verdict_of changes =
    if any is_breaking changes
    then CompatibilityVerdict.breaking
    else if any is_minor changes
    then compatible_with_additions
    else compatible

pub record CompatibilityReport (Version : Type 0) : Type 0 where
  pub verdict : CompatibilityVerdict
  pub changes : List ChangeEntry
  pub old_version : Version
  pub new_version : Version

unfoldable pub unwrap_or : {V : Type 0} → V → Option V → V
unwrap_or zero_version none = zero_version
unwrap_or zero_version (some version) = version

-- The version 0.0.0 is a parameter.
unfoldable pub check_compatibility :
    {V : Type 0} → V → ParsedPackage V → ParsedPackage V → CompatibilityReport V
unfolding compare_interfaces compare_worlds verdict_of unwrap_or
check_compatibility zero_version old new =
    let changes =
      compare_interfaces old.interfaces new.interfaces ++ compare_worlds old.worlds new.worlds in
    record {
      verdict = verdict_of changes;
      changes = changes;
      old_version = unwrap_or zero_version old.version;
      new_version = unwrap_or zero_version new.version;
    }

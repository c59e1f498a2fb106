-- ===== src/Contracts/Compatibility/Kinds.antt =====
-- The comparison of type definitions in crates/torvyn-contracts/src/compatibility.rs.
use torvyn.Common.{
  ◌≡◌, refl, ◌↔◌, inl, inr, List, [], ◌++◌, arith, Text, same_text, same_text_iff, any, Bool-cases,
}
use torvyn.Contracts.Package.{
  ParsedType, TypeOption, Entries, find, same_type, same_type_iff, same_option, same_option_iff,
  ParsedTypeDefKind, record_kind, variant, enum, ParsedField, ParsedCase,
}
use torvyn.Contracts.Compatibility.{
  ChangeEntry, ChangeSeverity, minor, is_breaking, each, unless_there, if_there, each_name,
  field_map, case_map, note, compare_field, compare_case, compare_record_fields,
  compare_variant_cases, compare_kinds, compare_type_defs, type_def_kind_name, field_removed,
  field_added, case_removed, case_added, enum_case_removed, enum_case_added, Change,
}
use torvyn.Contracts.Compatibility.Keeps.{
  AllEntries, IsThere, AllAmong, KeepsFields, KeepsCases, KeepsKind,
}
use torvyn.Contracts.Compatibility.Breaks.{
  IsCalm, IsCalm-append, each-IsCalm, each-silent, IfThere, unless_there-IsCalm,
  unless_there-silent, if_there-IsCalm, Kept-parts, each_name-IsCalm, each_name-silent,
}

module _ {V W : Type 0} where
  -- A loop that finds the missing keys breaking.
  pub removed-IsCalm :
      (kind : Text → Change) (path : Text) (m : Entries V) (other : Entries W)
      → IsCalm (each (unless_there (note kind ChangeSeverity.breaking path)) m other)
        ↔ AllEntries (λ k v. IsThere (find k other)) m
  unfolding note is_breaking
  removed-IsCalm kind path m other =
      each-IsCalm (unless_there (note kind ChangeSeverity.breaking path)) (λ k v o. IsThere o)
        (unless_there-IsCalm (note kind ChangeSeverity.breaking path) (λ k. refl)) m other

  -- A loop that finds the new keys additions.
  pub added-IsCalm :
      (kind : Text → Change) (path : Text) (m : Entries V) (other : Entries W)
      → IsCalm (each (unless_there (note kind minor path)) m other)
  unfolding note is_breaking
  added-IsCalm kind path m other =
      each-silent (unless_there (note kind minor path))
        (unless_there-silent (note kind minor path) (λ k. refl)) m other

  -- Such a loop, with one over the keys that are still there.
  pub kept-IsCalm :
      (f : Text → V → W → List ChangeEntry) (P : V → W → Type 0)
      → ((k : Text) (v : V) (w : W) → IsCalm (f k v w) ↔ P v w)
      → (m : Entries V) (other : Entries W)
      → IsCalm (each (if_there f) m other) ↔ AllEntries (λ k v. IfThere P v (find k other)) m
  kept-IsCalm f P h m other =
      each-IsCalm (if_there f) (λ k v o. IfThere P v o) (if_there-IsCalm f P h) m other

compare_field-IsCalm :
    (path k : Text) (old new : ParsedType) → IsCalm (compare_field path k old new) ↔ (old ≡ new)
unfolding compare_field note any is_breaking
compare_field-IsCalm path k old new =
    let same = same_type_iff old new in
    elim (Bool-cases (same_type old new)) [
      | inl equal ↦ rw equal ((λ _. same.0 equal), (λ _. refl))
      | inr differs ↦
          rw differs ((λ h. ground (arith, h)), (λ h. ground (arith, same.1 h, differs)))
    ]

compare_case-IsCalm :
    (path k : Text) (old new : TypeOption) → IsCalm (compare_case path k old new) ↔ (old ≡ new)
unfolding compare_case note any is_breaking
compare_case-IsCalm path k old new =
    let same = same_option_iff old new in
    elim (Bool-cases (same_option old new)) [
      | inl equal ↦ rw equal ((λ _. same.0 equal), (λ _. refl))
      | inr differs ↦
          rw differs ((λ h. ground (arith, h)), (λ h. ground (arith, same.1 h, differs)))
    ]

compare_record_fields-IsCalm :
    (old new : List ParsedField) (path : Text)
    → IsCalm (compare_record_fields old new path)
      ↔ KeepsFields (field_map [] old) (field_map [] new)
unfolding compare_record_fields
compare_record_fields-IsCalm old new path =
    let old_map = field_map [] old in
    let new_map = field_map [] new in
    let gone =
      each (unless_there (note field_removed ChangeSeverity.breaking path)) old_map new_map in
    let more =
      each (unless_there (note field_added ChangeSeverity.breaking path)) new_map old_map in
    let changed = each (if_there (compare_field path)) old_map new_map in
    let outer = IsCalm-append (gone ++ more) changed in
    let inner = IsCalm-append gone more in
    let none_gone = removed-IsCalm field_removed path old_map new_map in
    let none_more = removed-IsCalm field_added path new_map old_map in
    let none_changed =
      kept-IsCalm (compare_field path) ◌≡◌ (compare_field-IsCalm path) old_map new_map in
    let parts = Kept-parts ◌≡◌ old_map new_map in
    (
      λ h.
          let (a, c) = outer.0 h in
          let (g, m) = inner.0 a in (parts.0 (none_gone.0 g, none_changed.0 c), none_more.0 m),
      λ h.
          let (t, i) = parts.1 h.0 in
          outer.1 (inner.1 (none_gone.1 t, none_more.1 h.1), none_changed.1 i),
    )

compare_variant_cases-IsCalm :
    (old new : List ParsedCase) (path : Text)
    → IsCalm (compare_variant_cases old new path) ↔ KeepsCases (case_map [] old) (case_map [] new)
unfolding compare_variant_cases
compare_variant_cases-IsCalm old new path =
    let old_map = case_map [] old in
    let new_map = case_map [] new in
    let gone =
      each (unless_there (note case_removed ChangeSeverity.breaking path)) old_map new_map in
    let more = each (unless_there (note case_added minor path)) new_map old_map in
    let changed = each (if_there (compare_case path)) old_map new_map in
    let outer = IsCalm-append (gone ++ more) changed in
    let inner = IsCalm-append gone more in
    let none_gone = removed-IsCalm case_removed path old_map new_map in
    let none_changed =
      kept-IsCalm (compare_case path) ◌≡◌ (compare_case-IsCalm path) old_map new_map in
    let parts = Kept-parts ◌≡◌ old_map new_map in
    (
      λ h. let (a, c) = outer.0 h in parts.0 (none_gone.0 (inner.0 a).0, none_changed.0 c),
      λ h.
          let (t, i) = parts.1 h in
          outer.1 (
            inner.1 (none_gone.1 t, added-IsCalm case_added path new_map old_map),
            none_changed.1 i,
          ),
    )

compare_enum-IsCalm :
    (old new : List Text) (path : Text)
    → IsCalm (compare_type_defs (enum old) (enum new) path) ↔ AllAmong old new
unfolding compare_type_defs note is_breaking
compare_enum-IsCalm old new path =
    let split =
      IsCalm-append (each_name (note enum_case_removed ChangeSeverity.breaking path) old new)
        (each_name (note enum_case_added minor path) new old) in
    let gone =
      each_name-IsCalm (note enum_case_removed ChangeSeverity.breaking path) (λ k. refl) old new in
    (
      λ h. gone.0 (split.0 h).0,
      λ h.
          split.1
            (gone.1 h, each_name-silent (note enum_case_added minor path) (λ k. refl) new old),
    )

compare_kinds-IsCalm :
    (old new : ParsedTypeDefKind) (path : Text)
    → IsCalm (compare_kinds old new path) ↔ (type_def_kind_name old ≡ type_def_kind_name new)
unfolding compare_kinds any is_breaking
compare_kinds-IsCalm old new path =
    let same = same_text_iff (type_def_kind_name old) (type_def_kind_name new) in
    elim (Bool-cases (same_text (type_def_kind_name old) (type_def_kind_name new))) [
      | inl equal ↦ rw equal ((λ _. same.0 equal), (λ _. refl))
      | inr differs ↦
          rw differs ((λ h. ground (arith, h)), (λ h. ground (arith, same.1 h, differs)))
    ]

pub compare_type_defs-IsCalm :
    (old new : ParsedTypeDefKind) (path : Text)
    → IsCalm (compare_type_defs old new path) ↔ KeepsKind old new
unfolding compare_type_defs
compare_type_defs-IsCalm (record_kind a) (record_kind b) path =
    compare_record_fields-IsCalm a b path
compare_type_defs-IsCalm (variant a) (variant b) path = compare_variant_cases-IsCalm a b path
compare_type_defs-IsCalm (enum a) (enum b) path = compare_enum-IsCalm a b path
compare_type_defs-IsCalm old new path = compare_kinds-IsCalm old new path

-- ===== src/Contracts/Compatibility/Verdicts.antt =====
-- The comparison of interfaces and packages in crates/torvyn-contracts/src/compatibility.rs.
use torvyn.Common.{
  ◌≡◌, refl, ◌↔◌, inl, inr, true, Option, none, some, List, [], ◌++◌, arith, Text, codes, ◌≢◌, any,
  Bool-cases,
}
use torvyn.Contracts.Package.{Entries, find, ParsedTypeDef, ParsedInterface}
use torvyn.Contracts.Compatibility.{
  ChangeEntry, ChangeSeverity, minor, is_breaking, each, unless_there, if_there, each_name,
  compare_functions, dotted, note, compare_type, type_added, function_removed, function_added,
  resource_removed, compare_interface_contents, compare_interfaces, compare_worlds, note_top,
  interface_removed, interface_added, world_removed, world_added, Change,
}
use torvyn.Contracts.Compatibility.Keeps.{
  AllEntries, Kept, IsThere, KeepsFunction, KeepsTypeDef, KeepsInterface, KeepsPackage,
}
use torvyn.Contracts.Compatibility.Breaks.{
  IsCalm, IsCalm-append, each-IsCalm, each-silent, unless_there-IsCalm, unless_there-silent,
  Kept-parts, each_name-IsCalm,
}
use torvyn.Contracts.Package.{ParsedWorld, ParsedPackage}
use torvyn.Contracts.Compatibility.{CompatibilityVerdict, check_compatibility, verdict_of}
use torvyn.Contracts.Compatibility.Functions.{compare_functions-IsCalm}
use torvyn.Contracts.Compatibility.Kinds.{
  removed-IsCalm, added-IsCalm, kept-IsCalm, compare_type_defs-IsCalm,
}

compare_type-IsCalm :
    (path k : Text) (old : ParsedTypeDef) (o : Option ParsedTypeDef)
    → IsCalm (compare_type path k old o) ↔ Kept KeepsTypeDef old o
unfolding compare_type note any is_breaking
compare_type-IsCalm path k old none = (λ h. ground (arith, h), λ h. absurd h)
compare_type-IsCalm path k old (some new) =
    compare_type_defs-IsCalm old.kind new.kind (dotted path k)

removal_breaks :
    (path k : Text) → is_breaking (note resource_removed ChangeSeverity.breaking path k) ≡ true
unfolding note is_breaking
removal_breaks path k = refl

-- The comparison of two interfaces notes no breaking change exactly where the newer one keeps the older.
compare_interface_contents-IsCalm :
    (path : Text) (old new : ParsedInterface)
    → IsCalm (compare_interface_contents path old new) ↔ KeepsInterface old new
unfolding compare_interface_contents
compare_interface_contents-IsCalm path old new =
    let gone =
      each (unless_there (note function_removed ChangeSeverity.breaking path)) old.functions
        new.functions in
    let more = each (unless_there (note function_added minor path)) new.functions old.functions in
    let changed = each (if_there (compare_functions path)) old.functions new.functions in
    let lost =
      each_name (note resource_removed ChangeSeverity.breaking path) old.resources new.resources in
    let defs = each (compare_type path) old.types new.types in
    let others = each (unless_there (note type_added minor path)) new.types old.types in
    let s5 = IsCalm-append ((((gone ++ more) ++ changed) ++ lost) ++ defs) others in
    let s4 = IsCalm-append (((gone ++ more) ++ changed) ++ lost) defs in
    let s3 = IsCalm-append ((gone ++ more) ++ changed) lost in
    let s2 = IsCalm-append (gone ++ more) changed in
    let s1 = IsCalm-append gone more in
    let none_gone = removed-IsCalm function_removed path old.functions new.functions in
    let none_changed =
      kept-IsCalm (compare_functions path) KeepsFunction (compare_functions-IsCalm path)
        old.functions new.functions in
    let parts = Kept-parts KeepsFunction old.functions new.functions in
    let none_lost =
      each_name-IsCalm (note resource_removed ChangeSeverity.breaking path) (removal_breaks path)
        old.resources new.resources in
    let kept_defs =
      each-IsCalm (compare_type path) (λ k d o. Kept KeepsTypeDef d o) (compare_type-IsCalm path)
        old.types new.types in
    (
      λ h.
          let (a5, b5) = s5.0 h in
          let (a4, b4) = s4.0 a5 in
          let (a3, b3) = s3.0 a4 in
          let (a2, b2) = s2.0 a3 in
          record {
            functions = parts.0 (none_gone.0 (s1.0 a2).0, none_changed.0 b2);
            resources = none_lost.0 b3;
            types = kept_defs.0 b4;
          },
      λ h.
          let (t, i) = parts.1 h.functions in
          s5.1 (
            s4.1 (
              s3.1 (
                s2.1 (
                  s1.1
                      (none_gone.1 t, added-IsCalm function_added path new.functions old.functions),
                  none_changed.1 i,
                ),
                none_lost.1 h.resources,
              ),
              kept_defs.1 h.types,
            ),
            added-IsCalm type_added path new.types old.types,
          ),
    )

module _ {V W : Type 0} where
  top_removed-IsCalm :
      (kind : Text → Change) (prefix : Text) (m : Entries V) (other : Entries W)
      → IsCalm (each (unless_there (note_top kind ChangeSeverity.breaking prefix)) m other)
        ↔ AllEntries (λ k v. IsThere (find k other)) m
  unfolding note_top is_breaking
  top_removed-IsCalm kind prefix m other =
      each-IsCalm (unless_there (note_top kind ChangeSeverity.breaking prefix)) (λ k v o. IsThere o)
        (unless_there-IsCalm (note_top kind ChangeSeverity.breaking prefix) (λ k. refl)) m other

  top_added-IsCalm :
      (kind : Text → Change) (prefix : Text) (m : Entries V) (other : Entries W)
      → IsCalm (each (unless_there (note_top kind minor prefix)) m other)
  unfolding note_top is_breaking
  top_added-IsCalm kind prefix m other =
      each-silent (unless_there (note_top kind minor prefix))
        (unless_there-silent (note_top kind minor prefix) (λ k. refl)) m other

compare_interfaces-IsCalm :
    (old new : Entries ParsedInterface)
    → IsCalm (compare_interfaces old new)
      ↔ AllEntries (λ k i. Kept KeepsInterface i (find k new)) old
unfolding compare_interfaces
compare_interfaces-IsCalm old new =
    let gone =
      each (unless_there (note_top interface_removed ChangeSeverity.breaking [])) old new in
    let more = each (unless_there (note_top interface_added minor [])) new old in
    let changed = each (if_there compare_interface_contents) old new in
    let outer = IsCalm-append (gone ++ more) changed in
    let inner = IsCalm-append gone more in
    let none_gone = top_removed-IsCalm interface_removed [] old new in
    let none_changed =
      kept-IsCalm compare_interface_contents KeepsInterface compare_interface_contents-IsCalm old
        new in
    let parts = Kept-parts KeepsInterface old new in
    (
      λ h. let (a, c) = outer.0 h in parts.0 (none_gone.0 (inner.0 a).0, none_changed.0 c),
      λ h.
          let (t, i) = parts.1 h in
          outer.1 (
            inner.1 (none_gone.1 t, top_added-IsCalm interface_added [] new old),
            none_changed.1 i,
          ),
    )

compare_worlds-IsCalm :
    (old new : Entries ParsedWorld)
    → IsCalm (compare_worlds old new) ↔ AllEntries (λ k w. IsThere (find k new)) old
unfolding compare_worlds
compare_worlds-IsCalm old new =
    let gone = top_removed-IsCalm world_removed (codes "world:") old new in
    let split =
      IsCalm-append
        (each (unless_there (note_top world_removed ChangeSeverity.breaking (codes "world:"))) old
          new)
        (each (unless_there (note_top world_added minor (codes "world:"))) new old) in
    (
      λ h. gone.0 (split.0 h).0,
      λ h. split.1 (gone.1 h, top_added-IsCalm world_added (codes "world:") new old),
    )

verdict_of-breaking :
    (changes : List ChangeEntry)
    → (verdict_of changes ≢ CompatibilityVerdict.breaking) ↔ IsCalm changes
unfolding verdict_of
verdict_of-breaking changes = elim (Bool-cases (any is_breaking changes)) [
  | inl broken ↦ (λ h. absurd (h (ground (arith, broken))), λ h q. ground (arith, h, broken))
  | inr calm ↦ (λ _. calm, λ _ q. ground (arith, q, calm))
]

-- The verdict is other than breaking exactly where the newer version keeps what is compared.
pub verdict-KeepsPackage :
    {Version : Type 0} (zero_version : Version) (old new : ParsedPackage Version)
    → ((check_compatibility zero_version old new).verdict ≢ CompatibilityVerdict.breaking)
      ↔ KeepsPackage old new
unfolding check_compatibility
verdict-KeepsPackage zero_version old new =
    let interfaces = compare_interfaces-IsCalm old.interfaces new.interfaces in
    let worlds = compare_worlds-IsCalm old.worlds new.worlds in
    let split =
      IsCalm-append (compare_interfaces old.interfaces new.interfaces)
        (compare_worlds old.worlds new.worlds) in
    let verdict =
      verdict_of-breaking (
        compare_interfaces old.interfaces new.interfaces ++ compare_worlds old.worlds new.worlds) in
    (
      λ h.
          let (a, b) = split.0 (verdict.0 h) in
          record { interfaces = interfaces.0 a; worlds = worlds.0 b },
      λ k. verdict.1 (split.1 (interfaces.1 k.interfaces, worlds.1 k.worlds)),
    )

-- ===== src/Contracts/Compatibility/Functions.antt =====
-- The comparison of functions in crates/torvyn-contracts/src/compatibility.rs.
use torvyn.Common.{
  ◌≡◌, refl, ◌↔◌, inl, inr, true, List, [], ◌∷◌, arith, length, ◌==◌, if◌then◌else◌, Text, any,
  Bool-cases,
}
use torvyn.Contracts.Package.{
  same_type, same_type_iff, same_option, same_option_iff, ParsedParam, ParsedFunction,
}
use torvyn.Contracts.Compatibility.{
  ChangeSeverity, is_breaking, compare_params, compare_functions, parameter_count, return_type,
  dotted,
}
use torvyn.Contracts.Compatibility.Keeps.{SameParams, KeepsFunction}
use torvyn.Contracts.Compatibility.Breaks.{IsCalm, IsCalm-append}

compare_params-IsCalm :
    (path name : Text) (old new : List ParsedParam)
    → (length old == length new) ≡ true
    → IsCalm (compare_params path name old new) ↔ SameParams old new
unfolding compare_params any is_breaking
compare_params-IsCalm path name [] [] l = (λ _. tt, λ _. refl)
compare_params-IsCalm path name [] (q ∷ new) l = absurd (ground (arith, l))
compare_params-IsCalm path name (p ∷ old) [] l = absurd (ground (arith, l))
compare_params-IsCalm path name (p ∷ old) (q ∷ new) l =
    let rest = compare_params-IsCalm path name old new (ground (arith, l)) in
    let same = same_type_iff p.typ q.typ in
    elim (Bool-cases (same_type p.typ q.typ)) [
      | inl yes_same ↦ rw yes_same ((λ h. (same.0 yes_same, rest.0 h)), (λ h. rest.1 h.1))
      | inr differs ↦
          rw differs ((λ h. ground (arith, h)), (λ h. ground (arith, same.1 h.0, differs)))
    ]

SameParams-length : (old new : List ParsedParam) → SameParams old new → length old ≡ length new
SameParams-length [] [] h = refl
SameParams-length [] (q ∷ new) h = absurd h
SameParams-length (p ∷ old) [] h = absurd h
SameParams-length (p ∷ old) (q ∷ new) h = omega (arith, SameParams-length old new h.1)

params-IsCalm :
    (path name : Text) (old new : ParsedFunction)
    → IsCalm (
        if length old.params == length new.params
        then compare_params path name old.params new.params
        else record {
          description = parameter_count name (length old.params) (length new.params);
          severity = ChangeSeverity.breaking;
          path = dotted path name;
        }
          ∷ [])
      ↔ SameParams old.params new.params
unfolding any is_breaking
params-IsCalm path name old new = elim (Bool-cases (length old.params == length new.params)) [
  | inl same ↦ rw same (compare_params-IsCalm path name old.params new.params same)
  | inr differs ↦ rw differs (
    (λ h. ground (arith, h)),
    (λ h. ground (arith, SameParams-length old.params new.params h, differs)),
  )
]

returned-IsCalm :
    (path name : Text) (old new : ParsedFunction)
    → IsCalm (
        if same_option old.result new.result
        then []
        else record {
          description = return_type name;
          severity = ChangeSeverity.breaking;
          path = dotted path name;
        }
          ∷ [])
      ↔ (old.result ≡ new.result)
unfolding any is_breaking
returned-IsCalm path name old new =
    let same = same_option_iff old.result new.result in
    elim (Bool-cases (same_option old.result new.result)) [
      | inl equal ↦ rw equal ((λ _. same.0 equal), (λ _. refl))
      | inr differs ↦
          rw differs ((λ h. ground (arith, h)), (λ h. ground (arith, same.1 h, differs)))
    ]

pub compare_functions-IsCalm :
    (path name : Text) (old new : ParsedFunction)
    → IsCalm (compare_functions path name old new) ↔ KeepsFunction old new
unfolding compare_functions
compare_functions-IsCalm path name old new =
    let params = params-IsCalm path name old new in
    let returned = returned-IsCalm path name old new in
    let split =
      IsCalm-append
        (if length old.params == length new.params
          then compare_params path name old.params new.params
          else record {
            description = parameter_count name (length old.params) (length new.params);
            severity = ChangeSeverity.breaking;
            path = dotted path name;
          }
            ∷ [])
        (if same_option old.result new.result
          then []
          else record {
            description = return_type name;
            severity = ChangeSeverity.breaking;
            path = dotted path name;
          }
            ∷ []) in
    (
      λ h. let (a, b) = split.0 h in (params.0 a, returned.0 b),
      λ h. split.1 (params.1 h.0, returned.1 h.1),
    )

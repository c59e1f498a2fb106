-- ===== src/Contracts/Tests.antt =====
-- The theorems about the comparison of versions at three versions of a package: the second adds a
-- function and a case of a variant, the third a world.
use torvyn.Common.{ℕ, same_text, ◌≡◌, ◌≢◌, ◌↔◌, refl, some, [], ◌∷◌, codes}
use torvyn.Contracts.Package.{
  find, primitive, named, a_type, no_type, ParsedFunction, variant, flags, alias, ParsedInterface,
  ParsedPackage,
}
use torvyn.Contracts.Compatibility.{
  check_compatibility, CompatibilityVerdict, compatible_with_additions, compare_type_defs,
}
use torvyn.Contracts.Compatibility.Preserves.{
  PreservesPackage, AreUnchanged, check_compatibility_iff,
}
use torvyn.Contracts.Compatibility.Chain.{check_compatibility_chain}

abbrev read_function : ParsedFunction
read_function = record {
  name = codes "read";
  params = record { name = codes "count"; typ = primitive (codes "u32") } ∷ [];
  result = a_type (named (codes "state"));
}

abbrev stop_function : ParsedFunction
stop_function = record { name = codes "stop"; params = []; result = no_type }

abbrev first_interface : ParsedInterface
first_interface = record {
  name = codes "types";
  functions = (codes "read", read_function) ∷ [];
  types =
      (
        codes "state",
        record {
          name = codes "state";
          kind = variant (record { name = codes "open"; typ = no_type } ∷ []);
        },
      )
      ∷ [];
  resources = codes "buffer" ∷ [];
}

abbrev second_interface : ParsedInterface
second_interface = record first_interface {
  functions = (codes "stop", stop_function) ∷ (codes "read", read_function) ∷ [];
  types =
      (
        codes "state",
        record {
          name = codes "state";
          kind = variant (
              record { name = codes "closed"; typ = no_type }
              ∷ record { name = codes "open"; typ = no_type }
              ∷ []);
        },
      )
      ∷ [];
}

abbrev offering : ParsedInterface → ParsedPackage ℕ
offering contents = record {
  name = codes "torvyn:streaming";
  version = some 1;
  interfaces = (codes "types", contents) ∷ [];
  worlds = [];
}

abbrev third : ParsedPackage ℕ
third = record (offering second_interface) {
  worlds = (codes "flow", record { name = codes "flow"; imports = []; exports = [] }) ∷ [];
}

additions :
    (check_compatibility 0 (offering first_interface) (offering second_interface)).verdict
    ≡ compatible_with_additions
unfolding check_compatibility
additions = refl

removal :
    (check_compatibility 0 (offering second_interface) (offering first_interface)).verdict
    ≡ CompatibilityVerdict.breaking
unfolding check_compatibility
removal = refl

-- A flag that is gone and an alias of another type are not seen.
unseen_flag : compare_type_defs (flags (codes "a" ∷ [])) (flags []) [] ≡ []
unfolding compare_type_defs
unseen_flag = refl

unseen_alias :
    compare_type_defs (alias (primitive (codes "u8"))) (alias (primitive (codes "u64"))) [] ≡ []
unfolding compare_type_defs
unseen_alias = refl

first_step :
    (check_compatibility 0 (offering first_interface) (offering second_interface)).verdict
    ≢ CompatibilityVerdict.breaking
unfolding check_compatibility
first_step h = cc

second_step :
    (check_compatibility 0 (offering second_interface) third).verdict
    ≢ CompatibilityVerdict.breaking
unfolding check_compatibility
second_step h = cc

steps-AreUnchanged : AreUnchanged (offering first_interface) (offering second_interface)
unfolding find same_text
steps-AreUnchanged = record { types = ((tt, tt), tt); worlds = tt }

check_compatibility_iff_example :
    ((check_compatibility 0 (offering first_interface) (offering second_interface)).verdict
      ≢ CompatibilityVerdict.breaking)
    ↔ PreservesPackage (offering first_interface) (offering second_interface)
check_compatibility_iff_example =
    check_compatibility_iff 0 (offering first_interface) (offering second_interface)
      steps-AreUnchanged

check_compatibility_chain_example :
    (check_compatibility 0 (offering first_interface) third).verdict ≢ CompatibilityVerdict.breaking
check_compatibility_chain_example =
    check_compatibility_chain 0 (offering first_interface) (offering second_interface) third
      first_step second_step

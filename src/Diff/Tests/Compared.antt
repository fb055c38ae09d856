-- ===== src/Diff/Tests/Compared.antt =====
-- Tests of whole comparisons.
use soroban_upgrade_safeguar.Base.{◌≡◌, refl, [], ◌∷◌, IsIn, map_list, str_eq, Every}
use soroban_upgrade_safeguar.Category.{as_str}
use soroban_upgrade_safeguar.Spec.{get, types_equal}
use soroban_upgrade_safeguar.Spec.Entries.{IsWellFormed}
use soroban_upgrade_safeguar.Diff.{call_abi, is_event}
use soroban_upgrade_safeguar.Diff.Detail.{describe_bytesn_size_change, type_change_findings}
use soroban_upgrade_safeguar.Diff.Functions.{compare_functions, function_removed_finding}
use soroban_upgrade_safeguar.Diff.Kinds.{insert_change, kind_change, detect_type_kind_changes}
use soroban_upgrade_safeguar.Diff.Structs.{compare_structs}
use soroban_upgrade_safeguar.Diff.Enums.{compare_enums}
use soroban_upgrade_safeguar.Diff.Unions.{union_case_name, compare_unions}
use soroban_upgrade_safeguar.Diff.ErrorEnums.{compare_error_enums}
use soroban_upgrade_safeguar.Diff.Cascade.{detect_cascading_layout_breaks}
use soroban_upgrade_safeguar.Diff.Severities.{IsStandard}
use soroban_upgrade_safeguar.Diff.Compare.{compare}
use soroban_upgrade_safeguar.Diff.Compare.Standard.{compare-IsStandard}
use soroban_upgrade_safeguar.Diff.Compare.Identity.{HasDistinctMembers, compare-same}
use soroban_upgrade_safeguar.Diff.Compare.Survival.{compare-function_removed}
use soroban_upgrade_safeguar.Diff.Tests.{old_spec, new_spec, ping}

-- The upgrade removes a function, widens a type that two others embed, and changes a kind.
categories_test :
    map_list (λ f. f.category) (compare old_spec new_spec)
    ≡ "Function Removed" ∷ "Struct Field Type Changed" ∷ "Type Kind Changed"
      ∷ "Cascading Layout Break" ∷ "Cascading Layout Break" ∷ []
unfolding compare get type_change_findings insert_change kind_change as_str is_event
    detect_cascading_layout_breaks detect_type_kind_changes str_eq compare_functions types_equal
    compare_structs describe_bytesn_size_change compare_enums compare_unions union_case_name
    compare_error_enums
categories_test = refl

compare-function_removed_example :
    IsIn
      (record (function_removed_finding "ping") { axes = call_abi ∷ [] })
      (compare old_spec new_spec)
unfolding get str_eq
compare-function_removed_example = compare-function_removed old_spec new_spec "ping" ping refl refl

old_spec-IsWellFormed : IsWellFormed old_spec
unfolding get str_eq
old_spec-IsWellFormed = record {
  functions_distinct = (refl, (refl, tt));
  structs_distinct = (refl, (refl, tt));
  enums_distinct = (refl, tt);
  unions_distinct = (refl, tt);
  error_enums_distinct = (refl, tt);
}

old_spec-HasDistinctMembers : HasDistinctMembers old_spec
unfolding str_eq union_case_name
old_spec-HasDistinctMembers = record {
  fields_distinct = ((refl, (refl, tt)), ((refl, tt), tt));
  values_distinct = ((refl, (refl, tt)), tt);
  cases_distinct = ((refl, (refl, tt)), tt);
  codes_distinct = ((refl, tt), tt);
}

compare-same_example : compare old_spec old_spec ≡ []
compare-same_example = compare-same old_spec old_spec-IsWellFormed old_spec-HasDistinctMembers

compare-IsStandard_example : Every IsStandard (compare old_spec new_spec)
compare-IsStandard_example = compare-IsStandard old_spec new_spec

-- ===== src/Diff/Tests/Members.antt =====
-- Tests of the comparisons of structs, enums, unions, error enums and single types.
use soroban_upgrade_safeguar.Base.{◌++◌, ◌≡◌, refl, ◌↔◌, [], ◌∷◌, some, str_eq}
use soroban_upgrade_safeguar.Category.{
  struct_field_type_changed, map_key_type_changed, map_value_type_changed,
}
use soroban_upgrade_safeguar.Spec.{u64, u128, address, primitive, map, UdtEnum}
use soroban_upgrade_safeguar.Diff.Detail.{emit_map_specific_findings, type_change_findings}
use soroban_upgrade_safeguar.Diff.Detail.Laws.{
  headings, when_changed, type_change_findings-nil_iff, headings-emit_map_specific_findings,
}
use soroban_upgrade_safeguar.Diff.Structs.{check_struct_fields}
use soroban_upgrade_safeguar.Diff.Structs.Layout.{SameLayout, check_struct_fields-nil_iff}
use soroban_upgrade_safeguar.Diff.Enums.{check_enum_cases}
use soroban_upgrade_safeguar.Diff.Enums.Values.{SameCases}
use soroban_upgrade_safeguar.Diff.Enums.Silence.{check_enum_cases-nil_iff}
use soroban_upgrade_safeguar.Diff.Unions.{union_case_name, check_union_cases}
use soroban_upgrade_safeguar.Diff.Unions.Silence.{SameUnion, check_union_cases-nil_iff}
use soroban_upgrade_safeguar.Diff.ErrorEnums.{check_error_enum_cases}
use soroban_upgrade_safeguar.Diff.ErrorEnums.Silence.{check_error_enum_cases-nil_iff}
use soroban_upgrade_safeguar.Diff.Tests.{limits, wide_limits, case_of, mode, choice, fault}

check_struct_fields-nil_iff_example :
    (check_struct_fields "Limits" limits wide_limits ≡ [])
    ↔ SameLayout limits.fields wide_limits.fields
check_struct_fields-nil_iff_example =
    check_struct_fields-nil_iff "Limits" limits wide_limits (refl, tt) (refl, tt)

-- The cases of `mode` in another order.
abbrev turned_mode : UdtEnum
turned_mode = record mode { cases = case_of "Shut" 1 ∷ case_of "Open" 0 ∷ [] }

check_enum_cases-nil_iff_example :
    (check_enum_cases "Mode" mode turned_mode ≡ []) ↔ SameCases mode.cases turned_mode.cases
unfolding str_eq
check_enum_cases-nil_iff_example =
    check_enum_cases-nil_iff "Mode" mode turned_mode (refl, (refl, tt))

check_union_cases-nil_iff_example :
    (check_union_cases "Choice" choice choice ≡ []) ↔ SameUnion choice.cases choice.cases
unfolding str_eq union_case_name
check_union_cases-nil_iff_example =
    check_union_cases-nil_iff "Choice" choice choice (refl, (refl, tt))

check_error_enum_cases-nil_iff_example :
    (check_error_enum_cases "Fault" fault fault ≡ []) ↔ SameCases fault.cases fault.cases
check_error_enum_cases-nil_iff_example =
    check_error_enum_cases-nil_iff "Fault" fault fault (refl, tt)

type_change_findings-nil_iff_example :
    (type_change_findings
        (primitive u64)
        (primitive u128)
        struct_field_type_changed
        "changed from"
        "Limits.daily"
        (some "Limits")
        "field"
      ≡ [])
    ↔ (primitive u64 ≡ primitive u128)
type_change_findings-nil_iff_example =
    type_change_findings-nil_iff (primitive u64) (primitive u128) struct_field_type_changed
      "changed from" "Limits.daily" (some "Limits") "field"

headings-emit_map_specific_findings_example :
    headings (
      emit_map_specific_findings
        (map (primitive u64) (primitive u64))
        (map (primitive address) (primitive u64))
        "Limits.daily"
        (some "Limits")
        "field")
    ≡ when_changed (primitive u64) (primitive address) map_key_type_changed "Limits.daily"
      ++ when_changed (primitive u64) (primitive u64) map_value_type_changed "Limits.daily"
headings-emit_map_specific_findings_example =
    headings-emit_map_specific_findings (primitive u64) (primitive u64) (primitive address)
      (primitive u64) "Limits.daily" (some "Limits") "field"

-- ===== src/Diff/ErrorEnums.antt =====
-- src/diff.rs: `compare_error_enums` and `check_error_enum_cases`.
pub mod Silence
use soroban_upgrade_safeguar.Base.{
  ℕ, String, List, [], ◌∷◌, ◌++◌, Bool, true, false, not, Option, none, some, any, for_each, format,
  decimal, ◌==◌, str_eq, if◌then◌else◌, push_if,
}
use soroban_upgrade_safeguar.Category.{
  critical, info, error_enum_removed, error_enum_added, error_enum_case_removed,
  error_enum_case_value_changed, error_enum_case_added,
}
use soroban_upgrade_safeguar.Spec.{EnumCase, UdtErrorEnum, ContractSpec, get, contains_key}
use soroban_upgrade_safeguar.Diff.{Finding, direct}
use soroban_upgrade_safeguar.Diff.Enums.{find_case}

abbrev error_member : String → String → Option String
error_member name case = some (format (name ∷ "." ∷ case ∷ []))

-- One round of the loop over the old cases.
unfoldable pub old_error_findings : String → List EnumCase → EnumCase → List Finding
unfolding find_case format
old_error_findings name new_cases o = elim (find_case o.name new_cases) [
  | none ↦
      direct error_enum_case_removed critical
        (format (
          "Error enum '"
          ∷ name
          ∷ "': case '"
          ∷ o.name
          ∷ "' (value: "
          ∷ decimal o.value
          ∷ ") was removed. Clients matching on this error code will break."
          ∷ []))
        (some name) (error_member name o.name)
      ∷ []
  | some n ↦ push_if (not (o.value == n.value)) (
      direct error_enum_case_value_changed critical
        (format (
          "Error enum '"
          ∷ name
          ∷ "': case '"
          ∷ o.name
          ∷ "' value changed from "
          ∷ decimal o.value
          ∷ " to "
          ∷ decimal n.value
          ∷ ". This breaks error-code compatibility."
          ∷ []))
        (some name) (error_member name o.name))
]

unfoldable pub new_error_findings : String → List EnumCase → EnumCase → List Finding
unfolding format
new_error_findings name old_cases n = push_if (not (any (λ c. str_eq c.name n.name) old_cases)) (
    direct error_enum_case_added info
      (format (
        "Error enum '"
        ∷ name
        ∷ "': new case '"
        ∷ n.name
        ∷ "' (value "
        ∷ decimal n.value
        ∷ ") added."
        ∷ []))
      (some name) (error_member name n.name))

unfoldable pub check_error_enum_cases : String → UdtErrorEnum → UdtErrorEnum → List Finding
unfolding old_error_findings new_error_findings
check_error_enum_cases name old_error_enum new_error_enum =
    for_each (old_error_findings name new_error_enum.cases) old_error_enum.cases
    ++ for_each (new_error_findings name old_error_enum.cases) new_error_enum.cases

abbrev error_enum_removed_finding : String → Finding
error_enum_removed_finding name =
    direct error_enum_removed critical
      (format (
        "Error enum '" ∷ name ∷ "' was removed. Clients matching on these errors will break." ∷ []))
      (some name) (some name)

unfoldable pub compare_error_enum : ContractSpec → String × UdtErrorEnum → List Finding
unfolding check_error_enum_cases format
compare_error_enum new (name, old_error_enum) = elim (get name new.error_enums) [
  | none ↦ error_enum_removed_finding name ∷ []
  | some new_error_enum ↦ check_error_enum_cases name old_error_enum new_error_enum
]

unfoldable pub added_error_enum : ContractSpec → String × UdtErrorEnum → List Finding
unfolding format
added_error_enum old (name, new_error_enum) = push_if (not (contains_key name old.error_enums)) (
    direct error_enum_added info (format ("New error enum '" ∷ name ∷ "' added." ∷ [])) (some name)
      (some name))

unfoldable pub compare_error_enums : ContractSpec → ContractSpec → List Finding
unfolding compare_error_enum added_error_enum
compare_error_enums old new =
    for_each (compare_error_enum new) old.error_enums
    ++ for_each (added_error_enum old) new.error_enums

-- ===== src/Diff/Enums.antt =====
-- src/diff.rs: `compare_enums` and `check_enum_cases`.
pub mod Values
pub mod Silence
use soroban_upgrade_safeguar.Base.{
  ℕ, suc, String, List, [], ◌∷◌, ◌++◌, Bool, true, false, not, Option, none, some, any, find,
  length, for_each, format, decimal, ◌==◌, ltb, str_eq, if◌then◌else◌, push_if,
}
use soroban_upgrade_safeguar.Category.{
  critical, info, event_enum_removed, enum_removed, enum_documentation_changed, enum_added,
  enum_case_removed, enum_case_value_changed, enum_case_added, event_enum_case_removed,
  event_enum_case_value_changed, event_enum_case_added,
}
use soroban_upgrade_safeguar.Spec.{EnumCase, UdtEnum, ContractSpec, get, contains_key}
use soroban_upgrade_safeguar.Diff.{Finding, direct, is_event}
use soroban_upgrade_safeguar.Diff.Functions.{doc_message}

abbrev enum_prefix : String → String
enum_prefix name = if is_event name then "Event enum" else "Enum"

abbrev enum_member : String → String → Option String
enum_member name case = some (format (name ∷ "." ∷ case ∷ []))

-- The first case of this name.
unfoldable pub find_case : String → List EnumCase → Option EnumCase
find_case n cases = find (λ c. str_eq c.name n) cases

-- One round of the loop over the old cases.
unfoldable pub old_case_findings : String → List EnumCase → EnumCase → List Finding
unfolding find_case format
old_case_findings name new_cases o = elim (find_case o.name new_cases) [
  | none ↦
      direct (if is_event name then event_enum_case_removed else enum_case_removed) critical
        (format (
          enum_prefix name
          ∷ " '"
          ∷ name
          ∷ "': case '"
          ∷ o.name
          ∷ "' (value: "
          ∷ decimal o.value
          ∷ ") was removed. On-chain data or events relying on this value will be invalid."
          ∷ []))
        (some name) (enum_member name o.name)
      ∷ []
  | some n ↦ push_if (not (o.value == n.value)) (
      direct (if is_event name then event_enum_case_value_changed else enum_case_value_changed)
        critical
        (format (
          enum_prefix name
          ∷ " '"
          ∷ name
          ∷ "': case '"
          ∷ o.name
          ∷ "' value changed from "
          ∷ decimal o.value
          ∷ " to "
          ∷ decimal n.value
          ∷ ". This breaks data serialization."
          ∷ []))
        (some name) (enum_member name o.name))
]

unfoldable pub new_case_findings : String → List EnumCase → EnumCase → List Finding
unfolding format
new_case_findings name old_cases n = push_if (not (any (λ c. str_eq c.name n.name) old_cases)) (
    direct (if is_event name then event_enum_case_added else enum_case_added) info
      (format (
        enum_prefix name
        ∷ " '"
        ∷ name
        ∷ "': new case '"
        ∷ n.name
        ∷ "' (value "
        ∷ decimal n.value
        ∷ ") added."
        ∷ []))
      (some name) (enum_member name n.name))

-- New cases are only looked for where there are more of them.
unfoldable pub check_enum_cases : String → UdtEnum → UdtEnum → List Finding
unfolding old_case_findings new_case_findings
check_enum_cases name old_enum new_enum =
    for_each (old_case_findings name new_enum.cases) old_enum.cases
    ++ (if ltb (length old_enum.cases) (length new_enum.cases)
        then for_each (new_case_findings name old_enum.cases) new_enum.cases
        else [])

abbrev enum_removed_finding : String → Finding
enum_removed_finding name =
    direct (if is_event name then event_enum_removed else enum_removed) critical
      (format (
        enum_prefix name
        ∷ " '"
        ∷ name
        ∷ "' was removed. Data using this type will be invalid."
        ∷ []))
      (some name) (some name)

unfoldable pub compare_enum : ContractSpec → String × UdtEnum → List Finding
unfolding check_enum_cases doc_message format
compare_enum new (name, old_enum) = elim (get name new.enums) [
  | none ↦ enum_removed_finding name ∷ []
  | some new_enum ↦
      check_enum_cases name old_enum new_enum
      ++ push_if (not (str_eq old_enum.doc new_enum.doc)) (
          direct enum_documentation_changed info (doc_message "Enum" name old_enum.doc new_enum.doc)
            (some name) (some name))
]

unfoldable pub added_enum : ContractSpec → String × UdtEnum → List Finding
unfolding format
added_enum old (name, new_enum) = push_if (not (contains_key name old.enums)) (
    direct enum_added info (format ("New enum '" ∷ name ∷ "' added." ∷ [])) (some name) (some name))

unfoldable pub compare_enums : ContractSpec → ContractSpec → List Finding
unfolding compare_enum added_enum
compare_enums old new = for_each (compare_enum new) old.enums ++ for_each (added_enum old) new.enums

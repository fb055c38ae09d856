-- ===== src/Diff/Structs.antt =====
-- src/diff.rs: `compare_structs` and `check_struct_fields`.
pub mod Layout
use soroban_upgrade_safeguar.Base.{
  ℕ, zero, suc, String, List, [], ◌∷◌, ◌++◌, Bool, true, false, not, ◌&&◌, Option, none, some, any,
  is_member, for_each, map_list, format, decimal, ◌==◌, ltb, str_eq, if◌then◌else◌, push_if,
}
use soroban_upgrade_safeguar.Category.{
  critical, warning, info, event_definition_removed, struct_removed, struct_documentation_changed,
  struct_added, struct_field_removed, struct_field_inserted, struct_field_reordered,
  struct_field_type_changed, struct_field_added, event_schema_removed, event_schema_reordered,
  event_schema_type_changed,
}
use soroban_upgrade_safeguar.Spec.{StructField, UdtStruct, ContractSpec, get, contains_key}
use soroban_upgrade_safeguar.Diff.{Finding, direct, is_event}
use soroban_upgrade_safeguar.Diff.Detail.{type_change_findings}
use soroban_upgrade_safeguar.Diff.Functions.{doc_message}

abbrev pub field_names : List StructField → List String
field_names fields = map_list (λ f. f.name) fields

abbrev msg_prefix : String → String
msg_prefix name = if is_event name then "Event schema" else "Struct"

abbrev member : String → String → Option String
member name field = some (format (name ∷ "." ∷ field ∷ []))

-- One more than the last position whose name is an old one, or 0.
unfoldable pub append_start : List String → List StructField → ℕ
append_start old_names [] = 0
append_start old_names (f ∷ fs) =
    let rest = append_start old_names fs in
    if rest == 0 then (if is_member f.name old_names then 1 else 0) else suc rest

-- Whether the field at this position is one of `inserted_positions`.
abbrev pub is_inserted : List String → ℕ → ℕ → StructField → Bool
is_inserted old_names start position f = ltb position start && not (is_member f.name old_names)

unfoldable pub inserted_fields : String → List String → ℕ → ℕ → List StructField → List Finding
unfolding format
inserted_fields name old_names start position [] = []
inserted_fields name old_names start position (f ∷ fs) =
    push_if (is_inserted old_names start position f) (
      direct struct_field_inserted critical
        (format (
          msg_prefix name
          ∷ " '"
          ∷ name
          ∷ "': new field '"
          ∷ f.name
          ∷ "' inserted at position "
          ∷ decimal position
          ∷ " (zero-based), ahead of existing fields. Positional serialization breaks layout compatibility."
          ∷ []))
        (some name) (member name f.name))
    ++ inserted_fields name old_names start (suc position) fs

unfoldable pub removed_field : String → List StructField → StructField → List Finding
unfolding format
removed_field name new_fields f = push_if (not (any (λ g. str_eq g.name f.name) new_fields)) (
    direct (if is_event name then event_schema_removed else struct_field_removed) critical
      (format (
        msg_prefix name
        ∷ " '"
        ∷ name
        ∷ "': field '"
        ∷ f.name
        ∷ "' was removed. Backwards compatibility is broken."
        ∷ []))
      (some name) (member name f.name))

-- The new fields that were not inserted, with their positions.
unfoldable pub aligned_new_fields : List String → ℕ → ℕ → List StructField → List (ℕ × StructField)
aligned_new_fields old_names start position [] = []
aligned_new_fields old_names start position (f ∷ fs) =
    let rest = aligned_new_fields old_names start (suc position) fs in
    if is_inserted old_names start position f then rest else (position, f) ∷ rest

unfoldable pub aligned_field : String → StructField → ℕ → StructField → List Finding
unfolding format
aligned_field name o i n =
    push_if (not (str_eq o.name n.name)) (
      direct (if is_event name then event_schema_reordered else struct_field_reordered) critical
        (format (
          msg_prefix name
          ∷ " '"
          ∷ name
          ∷ "': field at position "
          ∷ decimal i
          ∷ " changed from '"
          ∷ o.name
          ∷ "' to '"
          ∷ n.name
          ∷ "'. Positional serialization breaks layout compatibility."
          ∷ []))
        (some name) (member name o.name))
    ++ type_change_findings o.type_ n.type_
        (if is_event name then event_schema_type_changed else struct_field_type_changed)
        "type changed from" (format (name ∷ "." ∷ o.name ∷ [])) (some name)
        (format (
          msg_prefix name
          ∷ " '"
          ∷ name
          ∷ "': field '"
          ∷ o.name
          ∷ "' (position "
          ∷ decimal i
          ∷ ")"
          ∷ []))

-- The loop over the old fields and the aligned new ones.
unfoldable pub aligned_fields : String → List StructField → List (ℕ × StructField) → List Finding
unfolding aligned_field
aligned_fields name (o ∷ olds) ((i, n) ∷ news) =
    aligned_field name o i n ++ aligned_fields name olds news
aligned_fields name _ _ = []

unfoldable pub from_position : ℕ → List StructField → List StructField
from_position zero fs = fs
from_position (suc n) [] = []
from_position (suc n) (f ∷ fs) = from_position n fs

unfoldable pub appended_field : String → List String → StructField → List Finding
unfolding format
appended_field name old_names f = push_if (not (is_member f.name old_names)) (
    direct struct_field_added warning
      (format (
        "Struct '" ∷ name ∷ "': new field '" ∷ f.name
        ∷ "' appended. Existing storage entries won't have this field — ensure migration handles defaults."
        ∷ []))
      (some name) (member name f.name))

unfoldable pub check_struct_fields : String → UdtStruct → UdtStruct → List Finding
unfolding append_start inserted_fields removed_field aligned_new_fields aligned_fields from_position
    appended_field
check_struct_fields name old_struct new_struct =
    let old_fields = old_struct.fields in
    let new_fields = new_struct.fields in
    let old_names = field_names old_fields in
    let start = append_start old_names new_fields in
    inserted_fields name old_names start 0 new_fields
    ++ (for_each (removed_field name new_fields) old_fields
        ++ (aligned_fields name old_fields (aligned_new_fields old_names start 0 new_fields)
            ++ for_each (appended_field name old_names) (from_position start new_fields)))

abbrev struct_removed_finding : String → Finding
struct_removed_finding name =
    direct (if is_event name then event_definition_removed else struct_removed) critical
      (format (
        (if is_event name then "Event struct" else "Struct")
        ∷ " '"
        ∷ name
        ∷ "' was removed. Storage or systems relying on this type will break."
        ∷ []))
      (some name) (some name)

-- One round of the loop over the old structs.
unfoldable pub compare_struct : ContractSpec → String × UdtStruct → List Finding
unfolding check_struct_fields doc_message format
compare_struct new (name, old_struct) = elim (get name new.structs) [
  | none ↦ struct_removed_finding name ∷ []
  | some new_struct ↦
      check_struct_fields name old_struct new_struct
      ++ push_if (not (str_eq old_struct.doc new_struct.doc)) (
          direct struct_documentation_changed info
            (doc_message "Struct" name old_struct.doc new_struct.doc) (some name) (some name))
]

unfoldable pub added_struct : ContractSpec → String × UdtStruct → List Finding
unfolding format
added_struct old (name, new_struct) = push_if (not (contains_key name old.structs)) (
    direct struct_added info (format ("New struct '" ∷ name ∷ "' added." ∷ [])) (some name)
      (some name))

unfoldable pub compare_structs : ContractSpec → ContractSpec → List Finding
unfolding compare_struct added_struct
compare_structs old new =
    for_each (compare_struct new) old.structs ++ for_each (added_struct old) new.structs

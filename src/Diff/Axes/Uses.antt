-- ===== src/Diff/Axes/Uses.antt =====
-- src/diff.rs: when a finding about a type concerns the callers of the contract, and when the readers
-- of its events.
use soroban_upgrade_safeguar.Base.{String, ◌≡◌, ◌⊎◌, List, [], ◌∷◌, true, IsIn}
use soroban_upgrade_safeguar.Category.{
  FindingCategory, bytesn_size_changed, event_schema_removed, event_schema_reordered,
  event_schema_type_changed, struct_removed, struct_documentation_changed, struct_added,
  struct_field_removed, struct_field_inserted, struct_field_reordered, struct_field_type_changed,
  struct_field_added, enum_removed, enum_documentation_changed, enum_added, enum_case_removed,
  enum_case_value_changed, enum_case_added, union_removed, union_added, union_case_removed,
  union_case_reordered, union_case_type_changed, union_case_added, type_kind_changed,
  cascading_layout_break,
}
use soroban_upgrade_safeguar.Spec.{
  TypeDef, TypeDefs, nil, cons, udt, FunctionInput, Function, ContractSpec, Dict,
}
use soroban_upgrade_safeguar.Diff.{is_event}
use soroban_upgrade_safeguar.Diff.Axes.References.{IsUse}

-- The categories of findings about structs, enums and unions, without those of event types that
-- have an arm of their own.
abbrev pub type_categories : List FindingCategory
type_categories =
    struct_field_type_changed ∷ struct_removed ∷ struct_documentation_changed ∷ struct_added
    ∷ struct_field_removed ∷ struct_field_inserted ∷ struct_field_reordered ∷ struct_field_added
    ∷ bytesn_size_changed ∷ event_schema_removed ∷ event_schema_reordered
    ∷ event_schema_type_changed ∷ enum_removed ∷ enum_documentation_changed ∷ enum_added
    ∷ enum_case_removed ∷ enum_case_value_changed ∷ enum_case_added ∷ union_removed ∷ union_added
    ∷ union_case_removed ∷ union_case_reordered ∷ union_case_type_changed ∷ union_case_added
    ∷ type_kind_changed ∷ cascading_layout_break ∷ []

abbrev pub IsAmong : TypeDef → TypeDefs → Type 0
IsAmong t nil = ⊥
IsAmong t (cons u us) = (u ≡ t) ⊎ IsAmong t us

module _ (name : String) (spec : ContractSpec) where
  -- The type occurs in an argument or a return value of the function, itself or through its fields.
  abbrev pub IsUsedIn : Function → Type 0
  IsUsedIn f =
      ((i : FunctionInput) × IsIn i f.inputs × IsUse spec name i.type_)
      ⊎ ((t : TypeDef) × IsAmong t f.outputs × IsUse spec name t)

  abbrev pub IsUsedInFunctions : Type 0
  IsUsedInFunctions = (e : (String × Function)) × IsIn e spec.functions × IsUsedIn e.1

  -- The type occurs in a declaration whose name says that it is an event.
  abbrev pub IsUsedInEventsOf : {V : Type 0} → Dict V → Type 0
  IsUsedInEventsOf {V} d =
      (e : (String × V)) × IsIn e d × ((is_event e.0 ≡ true) × IsUse spec name (udt e.0))

  -- The type is an event by its name, or occurs in a struct or union that is one.
  abbrev pub IsUsedInEvents : Type 0
  IsUsedInEvents =
      (is_event name ≡ true) ⊎ (IsUsedInEventsOf spec.structs ⊎ IsUsedInEventsOf spec.unions)

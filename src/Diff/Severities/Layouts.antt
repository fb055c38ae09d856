-- ===== src/Diff/Severities/Layouts.antt =====
-- The severities of the findings about structs.
use soroban_upgrade_safeguar.Base.{
  ℕ, suc, String, refl, List, [], ◌∷◌, Every, Every-append, Every-for_each, Option-cases, inl, inr,
}
use soroban_upgrade_safeguar.Category.{
  default_severity, event_definition_removed, struct_removed, struct_documentation_changed,
  struct_added, struct_field_removed, struct_field_inserted, struct_field_reordered,
  struct_field_type_changed, struct_field_added, event_schema_removed, event_schema_reordered,
  event_schema_type_changed,
}
use soroban_upgrade_safeguar.Spec.{StructField, UdtStruct, ContractSpec, get}
use soroban_upgrade_safeguar.Diff.{is_event}
use soroban_upgrade_safeguar.Diff.Structs.{
  field_names, append_start, inserted_fields, removed_field, aligned_new_fields, aligned_field,
  aligned_fields, from_position, appended_field, check_struct_fields, compare_struct, added_struct,
  compare_structs,
}
use soroban_upgrade_safeguar.Diff.Severities.{
  IsStandard, Every-push_if, variant_severity, type_change-IsStandard,
}

module _ (name : String) where
  inserted-IsStandard :
      (olds : List String) (start i : ℕ) (news : List StructField)
      → Every IsStandard (inserted_fields name olds start i news)
  unfolding inserted_fields default_severity
  inserted-IsStandard olds start i [] = tt
  inserted-IsStandard olds start i (f ∷ fs) =
      Every-append IsStandard _ _ (Every-push_if _ _ (struct_field_inserted, refl, refl))
        (inserted-IsStandard olds start (suc i) fs)

  removed-IsStandard :
      (news : List StructField) (f : StructField) → Every IsStandard (removed_field name news f)
  unfolding removed_field default_severity
  removed-IsStandard news f = Every-push_if _ _ (
    _,
    refl,
    variant_severity (is_event name) event_schema_removed struct_field_removed refl refl,
  )

  aligned-IsStandard :
      (o : StructField) (i : ℕ) (n : StructField) → Every IsStandard (aligned_field name o i n)
  unfolding aligned_field default_severity
  aligned-IsStandard o i n =
      let event = is_event name in
      Every-append IsStandard _ _
        (Every-push_if _ _
          (_, refl, variant_severity event event_schema_reordered struct_field_reordered refl refl))
        (type_change-IsStandard o.type_ n.type_ _ _ _ _ _
          (variant_severity event event_schema_type_changed struct_field_type_changed refl refl))

  aligned_fields-IsStandard :
      (olds : List StructField) (news : List (ℕ × StructField))
      → Every IsStandard (aligned_fields name olds news)
  unfolding aligned_fields
  aligned_fields-IsStandard [] news = tt
  aligned_fields-IsStandard (o ∷ olds) [] = tt
  aligned_fields-IsStandard (o ∷ olds) ((i, n) ∷ news) =
      Every-append IsStandard _ _ (aligned-IsStandard o i n) (aligned_fields-IsStandard olds news)

  appended-IsStandard :
      (olds : List String) (f : StructField) → Every IsStandard (appended_field name olds f)
  unfolding appended_field default_severity
  appended-IsStandard olds f = Every-push_if _ _ (struct_field_added, refl, refl)

  check_struct_fields-IsStandard :
      (old new : UdtStruct) → Every IsStandard (check_struct_fields name old new)
  unfolding check_struct_fields
  check_struct_fields-IsStandard old new =
      let olds = field_names old.fields in
      let start = append_start olds new.fields in
      Every-append IsStandard _ _ (inserted-IsStandard olds start 0 new.fields) (
        Every-append IsStandard _ _
          (Every-for_each IsStandard _ (removed-IsStandard new.fields) old.fields)
          (Every-append IsStandard _ _
            (aligned_fields-IsStandard old.fields (aligned_new_fields olds start 0 new.fields))
            (Every-for_each IsStandard _ (appended-IsStandard olds)
              (from_position start new.fields))))

compare_struct-IsStandard :
    (new : ContractSpec) (e : String × UdtStruct) → Every IsStandard (compare_struct new e)
unfolding compare_struct default_severity
compare_struct-IsStandard new (name, old_struct) = elim (Option-cases (get name new.structs)) [
  | inl e ↦
      rw (e, compare_struct)
        (
          (
            _,
            refl,
            variant_severity (is_event name) event_definition_removed struct_removed refl refl,
          ),
          tt,
        )
  | inr (new_struct, e) ↦
      rw (e, compare_struct)
        (Every-append IsStandard _ _ (check_struct_fields-IsStandard name old_struct new_struct)
          (Every-push_if _ _ (struct_documentation_changed, refl, refl)))
]

added_struct-IsStandard :
    (old : ContractSpec) (e : String × UdtStruct) → Every IsStandard (added_struct old e)
unfolding added_struct default_severity
added_struct-IsStandard old (name, d) = Every-push_if _ _ (struct_added, refl, refl)

pub compare_structs-IsStandard :
    (old new : ContractSpec) → Every IsStandard (compare_structs old new)
unfolding compare_structs
compare_structs-IsStandard old new =
    Every-append IsStandard _ _
      (Every-for_each IsStandard _ (compare_struct-IsStandard new) old.structs)
      (Every-for_each IsStandard _ (added_struct-IsStandard old) new.structs)

-- ===== src/Diff/Severities/Types.antt =====
-- The severities of the findings about enums, unions and error enums.
use soroban_upgrade_safeguar.Base.{
  ℕ, suc, String, refl, List, [], ◌∷◌, Every, Every-append, Every-for_each, Every-if, Option-cases,
  inl, inr, length, ltb, push_if, str_eq, not,
}
use soroban_upgrade_safeguar.Category.{
  default_severity, event_enum_removed, enum_removed, enum_documentation_changed, enum_added,
  enum_case_removed, enum_case_value_changed, enum_case_added, event_enum_case_removed,
  event_enum_case_value_changed, event_enum_case_added, union_removed, union_added,
  union_case_removed, union_case_reordered, union_case_type_changed, union_case_added,
  bytesn_size_changed, error_enum_removed, error_enum_added, error_enum_case_removed,
  error_enum_case_value_changed, error_enum_case_added,
}
use soroban_upgrade_safeguar.Spec.{
  EnumCase, UdtEnum, UdtErrorEnum, UnionCase, UdtUnion, ContractSpec, get,
}
use soroban_upgrade_safeguar.Diff.{is_event}
use soroban_upgrade_safeguar.Diff.Enums.{
  find_case, old_case_findings, new_case_findings, check_enum_cases, compare_enum, added_enum,
  compare_enums,
}
use soroban_upgrade_safeguar.Diff.Unions.{
  union_case_bytesn_size_change, union_case_name, union_cases_equal, case_change_finding,
  removed_case, aligned_case, aligned_cases, beyond, added_case, check_union_cases, compare_union,
  added_union, compare_unions,
}
use soroban_upgrade_safeguar.Diff.ErrorEnums.{
  old_error_findings, new_error_findings, check_error_enum_cases, compare_error_enum,
  added_error_enum, compare_error_enums,
}
use soroban_upgrade_safeguar.Diff.Severities.{IsStandard, Every-push_if, variant_severity}

module _ (name : String) where
  old_case-IsStandard :
      (news : List EnumCase) (o : EnumCase) → Every IsStandard (old_case_findings name news o)
  unfolding old_case_findings default_severity
  old_case-IsStandard news o =
      let event = is_event name in
      elim (Option-cases (find_case o.name news)) [
        | inl e ↦
            rw (e, old_case_findings)
              (
                (
                  _,
                  refl,
                  variant_severity event event_enum_case_removed enum_case_removed refl refl,
                ),
                tt,
              )
        | inr (n, e) ↦
            rw (e, old_case_findings)
              (Every-push_if _ _ (
                _,
                refl,
                variant_severity event event_enum_case_value_changed enum_case_value_changed refl
                    refl,
              ))
      ]

  new_case-IsStandard :
      (olds : List EnumCase) (n : EnumCase) → Every IsStandard (new_case_findings name olds n)
  unfolding new_case_findings default_severity
  new_case-IsStandard olds n =
      Every-push_if _ _
        (_, refl, variant_severity (is_event name) event_enum_case_added enum_case_added refl refl)

  check_enum_cases-IsStandard :
      (old new : UdtEnum) → Every IsStandard (check_enum_cases name old new)
  unfolding check_enum_cases
  check_enum_cases-IsStandard old new =
      Every-append IsStandard _ _
        (Every-for_each IsStandard _ (old_case-IsStandard new.cases) old.cases)
        (Every-if IsStandard (ltb (length old.cases) (length new.cases)) _ []
          (Every-for_each IsStandard _ (new_case-IsStandard old.cases) new.cases) tt)

  case_change-IsStandard : (i : ℕ) (o n : UnionCase) → IsStandard (case_change_finding name i o n)
  unfolding default_severity
  case_change-IsStandard i o n = elim (Option-cases (union_case_bytesn_size_change o n)) [
    | inl e ↦ rw (e, case_change_finding) (union_case_type_changed, refl, refl)
    | inr (d, e) ↦ rw (e, case_change_finding) (bytesn_size_changed, refl, refl)
  ]

  removed_case-IsStandard :
      (news : List UnionCase) (o : UnionCase) → Every IsStandard (removed_case name news o)
  unfolding removed_case default_severity
  removed_case-IsStandard news o = Every-push_if _ _ (union_case_removed, refl, refl)

  aligned_case-IsStandard : (i : ℕ) (o n : UnionCase) → Every IsStandard (aligned_case name i o n)
  unfolding aligned_case default_severity
  aligned_case-IsStandard i o n =
      Every-append IsStandard (push_if (not (str_eq (union_case_name o) (union_case_name n))) _)
        (push_if (not (union_cases_equal o n)) (case_change_finding name i o n))
        (Every-push_if _ _ (union_case_reordered, refl, refl))
        (Every-push_if _ _ (case_change-IsStandard i o n))

  aligned_cases-IsStandard :
      (i : ℕ) (olds news : List UnionCase) → Every IsStandard (aligned_cases name i olds news)
  unfolding aligned_cases
  aligned_cases-IsStandard i [] news = tt
  aligned_cases-IsStandard i (o ∷ olds) [] = tt
  aligned_cases-IsStandard i (o ∷ olds) (n ∷ news) =
      Every-append IsStandard (aligned_case name i o n) _ (aligned_case-IsStandard i o n)
        (aligned_cases-IsStandard (suc i) olds news)

  added_case-IsStandard : (n : UnionCase) → Every IsStandard (added_case name n)
  unfolding added_case default_severity
  added_case-IsStandard n = ((union_case_added, refl, refl), tt)

  check_union_cases-IsStandard :
      (old new : UdtUnion) → Every IsStandard (check_union_cases name old new)
  unfolding check_union_cases
  check_union_cases-IsStandard old new =
      Every-append IsStandard _ _
        (Every-for_each IsStandard _ (removed_case-IsStandard new.cases) old.cases)
        (Every-append IsStandard _ _ (aligned_cases-IsStandard 0 old.cases new.cases) (
          Every-for_each IsStandard (added_case name) added_case-IsStandard
            (beyond old.cases new.cases)))

  old_error-IsStandard :
      (news : List EnumCase) (o : EnumCase) → Every IsStandard (old_error_findings name news o)
  unfolding old_error_findings default_severity
  old_error-IsStandard news o = elim (Option-cases (find_case o.name news)) [
    | inl e ↦ rw (e, old_error_findings) ((error_enum_case_removed, refl, refl), tt)
    | inr (n, e) ↦
        rw (e, old_error_findings) (Every-push_if _ _ (error_enum_case_value_changed, refl, refl))
  ]

  new_error-IsStandard :
      (olds : List EnumCase) (n : EnumCase) → Every IsStandard (new_error_findings name olds n)
  unfolding new_error_findings default_severity
  new_error-IsStandard olds n = Every-push_if _ _ (error_enum_case_added, refl, refl)

  check_error_enum_cases-IsStandard :
      (old new : UdtErrorEnum) → Every IsStandard (check_error_enum_cases name old new)
  unfolding check_error_enum_cases
  check_error_enum_cases-IsStandard old new =
      Every-append IsStandard _ _
        (Every-for_each IsStandard _ (old_error-IsStandard new.cases) old.cases)
        (Every-for_each IsStandard _ (new_error-IsStandard old.cases) new.cases)

module _ (s : ContractSpec) where
  compare_enum-IsStandard : (e : String × UdtEnum) → Every IsStandard (compare_enum s e)
  unfolding compare_enum default_severity
  compare_enum-IsStandard (name, old) = elim (Option-cases (get name s.enums)) [
    | inl e ↦
        rw (e, compare_enum)
          (
            (_, refl, variant_severity (is_event name) event_enum_removed enum_removed refl refl),
            tt,
          )
    | inr (new, e) ↦
        rw (e, compare_enum)
          (Every-append IsStandard _ _ (check_enum_cases-IsStandard name old new)
            (Every-push_if _ _ (enum_documentation_changed, refl, refl)))
  ]

  added_enum-IsStandard : (e : String × UdtEnum) → Every IsStandard (added_enum s e)
  unfolding added_enum default_severity
  added_enum-IsStandard (name, e) = Every-push_if _ _ (enum_added, refl, refl)

  compare_union-IsStandard : (e : String × UdtUnion) → Every IsStandard (compare_union s e)
  unfolding compare_union default_severity
  compare_union-IsStandard (name, old) = elim (Option-cases (get name s.unions)) [
    | inl e ↦ rw (e, compare_union) ((union_removed, refl, refl), tt)
    | inr (new, e) ↦ rw (e, compare_union) (check_union_cases-IsStandard name old new)
  ]

  added_union-IsStandard : (e : String × UdtUnion) → Every IsStandard (added_union s e)
  unfolding added_union default_severity
  added_union-IsStandard (name, u) = Every-push_if _ _ (union_added, refl, refl)

  compare_error-IsStandard : (e : String × UdtErrorEnum) → Every IsStandard (compare_error_enum s e)
  unfolding compare_error_enum default_severity
  compare_error-IsStandard (name, old) = elim (Option-cases (get name s.error_enums)) [
    | inl e ↦ rw (e, compare_error_enum) ((error_enum_removed, refl, refl), tt)
    | inr (new, e) ↦ rw (e, compare_error_enum) (check_error_enum_cases-IsStandard name old new)
  ]

  added_error-IsStandard : (e : String × UdtErrorEnum) → Every IsStandard (added_error_enum s e)
  unfolding added_error_enum default_severity
  added_error-IsStandard (name, e) = Every-push_if _ _ (error_enum_added, refl, refl)

pub compare_enums-IsStandard : (old new : ContractSpec) → Every IsStandard (compare_enums old new)
unfolding compare_enums
compare_enums-IsStandard old new =
    Every-append IsStandard _ _
      (Every-for_each IsStandard _ (compare_enum-IsStandard new) old.enums)
      (Every-for_each IsStandard _ (added_enum-IsStandard old) new.enums)

pub compare_unions-IsStandard : (old new : ContractSpec) → Every IsStandard (compare_unions old new)
unfolding compare_unions
compare_unions-IsStandard old new =
    Every-append IsStandard _ _
      (Every-for_each IsStandard _ (compare_union-IsStandard new) old.unions)
      (Every-for_each IsStandard _ (added_union-IsStandard old) new.unions)

pub compare_error_enums-IsStandard :
    (old new : ContractSpec) → Every IsStandard (compare_error_enums old new)
unfolding compare_error_enums
compare_error_enums-IsStandard old new =
    Every-append IsStandard _ _
      (Every-for_each IsStandard _ (compare_error-IsStandard new) old.error_enums)
      (Every-for_each IsStandard _ (added_error-IsStandard old) new.error_enums)

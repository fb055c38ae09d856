-- ===== src/Diff/ErrorEnums/Silence.antt =====
-- `check_error_enum_cases` of src/diff.rs against the mapping that an error enum is.
use soroban_upgrade_safeguar.Base.{
  String, ◌≡◌, ◌↔◌, List, [], ◌∷◌, some, arith, for_each, IsSubset, HasDistinctNames, any-map,
  append-nil_iff,
}
use soroban_upgrade_safeguar.Spec.{EnumCase, UdtErrorEnum}
use soroban_upgrade_safeguar.Diff.Enums.Values.{
  case_names, value_of, SameCases, AllKept, AllKept-of_same, IsSubset-of_same, SameCases-of_kept,
}
use soroban_upgrade_safeguar.Diff.ErrorEnums.{
  old_error_findings, new_error_findings, check_error_enum_cases,
}

module _ (name : String) where
  old_error_findings-nil_iff :
      (news : List EnumCase) (o : EnumCase)
      → (old_error_findings name news o ≡ []) ↔ (value_of o.name news ≡ some o.value)
  unfolding old_error_findings value_of
  old_error_findings-nil_iff news o = ground arith

  old_errors-nil_iff :
      (news olds : List EnumCase)
      → (for_each (old_error_findings name news) olds ≡ []) ↔ AllKept news olds
  old_errors-nil_iff news [] = ground arith
  old_errors-nil_iff news (o ∷ olds) =
      let parts = append-nil_iff (old_error_findings name news o) _ in
      let here = old_error_findings-nil_iff news o in
      let later = old_errors-nil_iff news olds in
      (
        (λ h. (here.0 (parts.0 h).0, later.0 (parts.0 h).1)),
        (λ k. parts.1 (here.1 k.0, later.1 k.1)),
      )

  new_errors-nil_iff :
      (olds news : List EnumCase)
      → (for_each (new_error_findings name olds) news ≡ [])
        ↔ IsSubset (case_names news) (case_names olds)
  unfolding new_error_findings
  new_errors-nil_iff olds [] = ground arith
  new_errors-nil_iff olds (n ∷ news) =
      ground (arith, new_errors-nil_iff olds news, any-map (λ (c : EnumCase). c.name) n.name olds)

-- With distinct old names, the comparison of two error enums is silent exactly when every name has
-- the same code in both.
pub check_error_enum_cases-nil_iff :
    (name : String) (old new : UdtErrorEnum)
    → HasDistinctNames (case_names old.cases)
    → (check_error_enum_cases name old new ≡ []) ↔ SameCases old.cases new.cases
unfolding check_error_enum_cases
check_error_enum_cases-nil_iff name old new d =
    let olds = old.cases in
    let news = new.cases in
    let parts = append-nil_iff (for_each (old_error_findings name news) olds) _ in
    let kept = old_errors-nil_iff name news olds in
    let known = new_errors-nil_iff name olds news in
    (
      (λ h. SameCases-of_kept olds news (kept.0 (parts.0 h).0) (known.0 (parts.0 h).1)),
      (λ s.
          parts.1 (kept.1 (AllKept-of_same olds news d s), known.1 (IsSubset-of_same olds news s))),
    )

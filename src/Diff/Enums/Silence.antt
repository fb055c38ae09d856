-- ===== src/Diff/Enums/Silence.antt =====
-- `check_enum_cases` of src/diff.rs against the mapping that an enum is.
use soroban_upgrade_safeguar.Base.{
  String, ◌≡◌, refl, ◌↔◌, List, [], ◌∷◌, some, arith, for_each, length, ltb, ltb-false→le, IsSubset,
  HasDistinctNames, IsSubset-of_full, any-map, append-nil_iff, if◌then◌else◌, Bool-cases, inl, inr,
}
use soroban_upgrade_safeguar.Spec.{EnumCase, UdtEnum}
use soroban_upgrade_safeguar.Diff.Enums.{old_case_findings, new_case_findings, check_enum_cases}
use soroban_upgrade_safeguar.Diff.Enums.Values.{
  case_names, value_of, SameCases, AllKept, IsSubset-of_kept, AllKept-of_same, IsSubset-of_same,
  SameCases-of_kept,
}

module _ (name : String) where
  old_case_findings-nil_iff :
      (news : List EnumCase) (o : EnumCase)
      → (old_case_findings name news o ≡ []) ↔ (value_of o.name news ≡ some o.value)
  unfolding old_case_findings value_of
  old_case_findings-nil_iff news o = ground arith

  old_cases-nil_iff :
      (news olds : List EnumCase)
      → (for_each (old_case_findings name news) olds ≡ []) ↔ AllKept news olds
  old_cases-nil_iff news [] = ground arith
  old_cases-nil_iff news (o ∷ olds) =
      let parts = append-nil_iff (old_case_findings name news o) _ in
      let here = old_case_findings-nil_iff news o in
      let later = old_cases-nil_iff news olds in
      (
        (λ h. (here.0 (parts.0 h).0, later.0 (parts.0 h).1)),
        (λ k. parts.1 (here.1 k.0, later.1 k.1)),
      )

  new_cases-nil_iff :
      (olds news : List EnumCase)
      → (for_each (new_case_findings name olds) news ≡ [])
        ↔ IsSubset (case_names news) (case_names olds)
  unfolding new_case_findings
  new_cases-nil_iff olds [] = ground arith
  new_cases-nil_iff olds (n ∷ news) =
      ground (arith, new_cases-nil_iff olds news, any-map (λ (c : EnumCase). c.name) n.name olds)

length-case_names : (cases : List EnumCase) → length (case_names cases) ≡ length cases
length-case_names [] = refl
length-case_names (c ∷ cases) = omega (arith, length-case_names cases)

-- With distinct old names, the comparison of two enums is silent exactly when every name has the
-- same value in both: no case was removed, added or renumbered. The order of the cases is free.
pub check_enum_cases-nil_iff :
    (name : String) (old new : UdtEnum)
    → HasDistinctNames (case_names old.cases)
    → (check_enum_cases name old new ≡ []) ↔ SameCases old.cases new.cases
unfolding check_enum_cases
check_enum_cases-nil_iff name old new d = (silent, same)
  where
    olds : List EnumCase
    olds = old.cases

    news : List EnumCase
    news = new.cases

    subset :
        AllKept news olds
        → (if ltb (length olds) (length news)
            then for_each (new_case_findings name olds) news
            else [])
          ≡ []
        → IsSubset (case_names news) (case_names olds)
    subset kept added = elim (Bool-cases (ltb (length olds) (length news))) [
      | inl more ↦ (new_cases-nil_iff name olds news).0 (rw more at added)
      | inr fits ↦
          IsSubset-of_full (case_names olds) (case_names news) d (IsSubset-of_kept olds news kept)
            (omega (arith, length-case_names olds, length-case_names news, ltb-false→le _ _ fits))
    ]

    silent : check_enum_cases name old new ≡ [] → SameCases olds news
    silent h =
        let (removed, added) = (append-nil_iff _ _).0 h in
        let kept = (old_cases-nil_iff name news olds).0 removed in
        SameCases-of_kept olds news kept (subset kept added)

    same : SameCases olds news → check_enum_cases name old new ≡ []
    same s =
        let removed = (old_cases-nil_iff name news olds).1 (AllKept-of_same olds news d s) in
        let added = (new_cases-nil_iff name olds news).1 (IsSubset-of_same olds news s) in
        (append-nil_iff _ _).1 (removed, ground arith)

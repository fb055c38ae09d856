-- ===== src/Diff/Detail/Laws.antt =====
-- When a change of a type is reported, and as what.
use soroban_upgrade_safeguar.Base.{
  String, ◌≡◌, refl, ◌≢◌, ◌↔◌, inl, inr, Option, none, some, or_else, Bool, true, false, ◌∙◌, List,
  [], ◌∷◌, ◌++◌, arith, map_list, if◌then◌else◌, Bool-cases,
}
use soroban_upgrade_safeguar.Category.{
  FindingCategory, as_str, map_key_type_changed, map_value_type_changed,
}
use soroban_upgrade_safeguar.Spec.{TypeDef, map, types_equal}
use soroban_upgrade_safeguar.Spec.Equality.{types_equal_iff}
use soroban_upgrade_safeguar.Diff.{Finding}
use soroban_upgrade_safeguar.Diff.Detail.{
  or_generic, key_finding, value_finding, map_key_change_detail, map_value_change_detail,
  changed_from, describe_nested_type_change, emit_map_specific_findings, type_change_findings,
}

or_generic-ne-nil : (fs : List Finding) (g : Finding) → or_generic fs g ≢ []
or_generic-ne-nil [] g = ground arith
or_generic-ne-nil (f ∷ fs) g = ground arith

module _ (a b : TypeDef) (place : FindingCategory) (verb target : String)
    (type_name : Option String) (label : String) where
  -- A place is silent exactly when its type is unchanged.
  pub type_change_findings-nil_iff :
      (type_change_findings a b place verb target type_name label ≡ []) ↔ (a ≡ b)
  unfolding type_change_findings
  type_change_findings-nil_iff = elim (Bool-cases (types_equal a b)) [
    | inl same ↦ rw same ((λ _. (types_equal_iff a b).0 same), (λ _. refl))
    | inr other ↦ rw other (
      (λ h. absurd (or_generic-ne-nil _ _ h)),
      (λ e. absurd (cc ((types_equal_iff a b).1 e, other))),
    )
  ]

-- The category and the target of a finding.
abbrev pub headings : List Finding → List (String × Option String)
headings fs = map_list (λ f. (f.category, f.target)) fs

-- One entry for two different types, and none for equal ones.
abbrev pub when_changed :
    TypeDef → TypeDef → FindingCategory → String → List (String × Option String)
when_changed a b category target =
    if types_equal a b then [] else (as_str category, some target) ∷ []

headings-append : (fs gs : List Finding) → headings (fs ++ gs) ≡ headings fs ++ headings gs
headings-append [] gs = refl
headings-append (f ∷ fs) gs = λ i. (f.category, f.target) ∷ headings-append fs gs i

module _ (target : String) (type_name : Option String) (label : String) where
  key_headings :
      (a b : TypeDef) (same : Bool) (o : Option String) (d : String)
      → headings (key_finding a b target type_name label (if same then none else or_else o d))
        ≡ (if same then [] else (as_str map_key_type_changed, some target) ∷ [])
  key_headings a b true o d = refl
  key_headings a b false none d = refl
  key_headings a b false (some detail) d = refl

  value_headings :
      (same : Bool) (o : Option String) (d : String)
      → headings (value_finding target type_name label (if same then none else or_else o d))
        ≡ (if same then [] else (as_str map_value_type_changed, some target) ∷ [])
  value_headings true o d = refl
  value_headings false none d = refl
  value_headings false (some detail) d = refl

-- The findings about a map type that became another one are, in this order: one of the category
-- Map Key Type Changed exactly where the key type changed, and one of the category Map Value Type
-- Changed exactly where the value type changed; each is about the target of the map.
pub headings-emit_map_specific_findings :
    (k v l w : TypeDef) (target : String) (type_name : Option String) (label : String)
    → headings (emit_map_specific_findings (map k v) (map l w) target type_name label)
      ≡ when_changed k l map_key_type_changed target
        ++ when_changed v w map_value_type_changed target
unfolding emit_map_specific_findings map_key_change_detail map_value_change_detail
headings-emit_map_specific_findings k v l w target type_name label =
    headings-append
      (key_finding (map k v) (map l w) target type_name label
        (map_key_change_detail (map k v) (map l w)))
      (value_finding target type_name label (map_value_change_detail (map k v) (map l w)))
    ∙ (λ i.
        key_headings target type_name label (map k v) (map l w) (types_equal k l)
          (describe_nested_type_change k l) (changed_from "map key type" k l) i
        ++ value_headings target type_name label (types_equal v w) (describe_nested_type_change v w)
            (changed_from "map value type" v w) i)

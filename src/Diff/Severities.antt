-- ===== src/Diff/Severities.antt =====
-- The severities that the passes of src/diff.rs write against the defaults of src/category.rs.
pub mod Functions
pub mod Types
pub mod Layouts
use soroban_upgrade_safeguar.Base.{
  ℕ, suc, String, ◌≡◌, refl, List, [], ◌∷◌, ◌++◌, Bool, true, false, not, Option, none, some, arith,
  for_each, map_list, push_if, keep, Every, Every-append, Every-keep, Every-for_each, if◌then◌else◌,
  Bool-cases, inl, inr, Option-cases, str_eq, length, ◌==◌, ltb,
}
use soroban_upgrade_safeguar.Category.{
  Severity, critical, FindingCategory, as_str, default_severity, bytesn_size_changed,
}
use soroban_upgrade_safeguar.Spec.{
  TypeDef, TypeDefs, nil, cons, types_len, types_equal, Function, FunctionInput, StructField,
  UdtStruct, EnumCase, UdtEnum, UdtErrorEnum, UnionCase, UdtUnion, ContractSpec, get,
}
use soroban_upgrade_safeguar.Diff.{Finding, direct}
use soroban_upgrade_safeguar.Diff.Detail.{
  key_finding, value_finding, emit_map_specific_findings, generic_change, type_change_findings,
  or_generic, map_key_change_detail, map_value_change_detail, describe_bytesn_size_change,
}

-- The severity of a finding is the default one of its category.
abbrev pub IsStandard : Finding → Type 0
IsStandard f = (c : FindingCategory) × (f.category ≡ as_str c) × (f.severity ≡ default_severity c)

pub Every-push_if : (b : Bool) (f : Finding) → IsStandard f → Every IsStandard (push_if b f)
Every-push_if true f h = (h, tt)
Every-push_if false f h = tt

module _ (a b : TypeDef) (target : String) (type_name : Option String) (label : String) where
  key_finding-IsStandard :
      (o : Option String) → Every IsStandard (key_finding a b target type_name label o)
  unfolding default_severity
  key_finding-IsStandard none = tt
  key_finding-IsStandard (some d) = ((_, refl, refl), tt)

  value_finding-IsStandard :
      (o : Option String) → Every IsStandard (value_finding target type_name label o)
  unfolding default_severity
  value_finding-IsStandard none = tt
  value_finding-IsStandard (some d) = ((_, refl, refl), tt)

  emit-IsStandard : Every IsStandard (emit_map_specific_findings a b target type_name label)
  unfolding emit_map_specific_findings
  emit-IsStandard =
      Every-append IsStandard _ _ (key_finding-IsStandard (map_key_change_detail a b))
        (value_finding-IsStandard (map_value_change_detail a b))

  generic-IsStandard :
      (place : FindingCategory) (verb : String)
      → critical ≡ default_severity place
      → IsStandard (generic_change a b place verb target type_name label)
  unfolding generic_change default_severity
  generic-IsStandard place verb h = elim (Option-cases (describe_bytesn_size_change a b)) [
    | inl e ↦ rw (e, generic_change) (place, refl, h)
    | inr (d, e) ↦ rw (e, generic_change) (bytesn_size_changed, refl, refl)
  ]

or_generic-IsStandard :
    (fs : List Finding) (g : Finding)
    → Every IsStandard fs
    → IsStandard g
    → Every IsStandard (or_generic fs g)
or_generic-IsStandard [] g h k = (k, tt)
or_generic-IsStandard (f ∷ fs) g h k = h

pub type_change-IsStandard :
    (a b : TypeDef) (place : FindingCategory) (verb target : String) (type_name : Option String)
    (label : String)
    → critical ≡ default_severity place
    → Every IsStandard (type_change_findings a b place verb target type_name label)
unfolding type_change_findings
type_change-IsStandard a b place verb target type_name label h =
    elim (Bool-cases (types_equal a b)) [
      | inl e ↦ rw e tt
      | inr e ↦ rw e (
          or_generic-IsStandard _ _ (emit-IsStandard a b target type_name label)
            (generic-IsStandard a b target type_name label place verb h))
    ]

-- The event variant of a category has the severity of the plain one.
pub variant_severity :
    (b : Bool) (c d : FindingCategory) {s : Severity}
    → s ≡ default_severity c
    → s ≡ default_severity d
    → s ≡ default_severity (if b then c else d)
variant_severity true c d h k = h
variant_severity false c d h k = k

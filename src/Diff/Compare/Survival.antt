-- ===== src/Diff/Compare/Survival.antt =====
-- src/diff.rs: findings of the passes that the report of `compare` still has.
use soroban_upgrade_safeguar.Base.{
  String, ◌≡◌, refl, [], ◌∷◌, none, some, IsIn, IsIn-left, IsIn-map, IsIn-for_each, false, str_eq,
  str_eq_iff, inl, inr, Bool-cases, arith,
}
use soroban_upgrade_safeguar.Category.{as_str}
use soroban_upgrade_safeguar.Spec.{Function, ContractSpec, Dict, get}
use soroban_upgrade_safeguar.Diff.{Finding, call_abi}
use soroban_upgrade_safeguar.Diff.Functions.{
  function_removed_finding, compare_function, compare_functions,
}
use soroban_upgrade_safeguar.Diff.Kinds.{
  UdtKind, struct_kind, enum_kind, union_kind, error_enum_kind, kind_equal, udt_kind_of,
  removal_categories, addition_category, kind_changes, udt_names, kind_finding,
  detect_type_kind_changes,
}
use soroban_upgrade_safeguar.Diff.Kinds.Laws.{
  IsOtherCategory, is_stale-other, apply-kept, kind_changed-current,
}
use soroban_upgrade_safeguar.Diff.Cascade.{detect_cascading_layout_breaks}
use soroban_upgrade_safeguar.Diff.Cascade.Reachable.{detect_cascading-IsBroken}
use soroban_upgrade_safeguar.Diff.Axes.{is_one_of, classify_finding_axes}
use soroban_upgrade_safeguar.Diff.Compare.{per_kind_findings, with_axes, compare}

module _ (old new : ContractSpec) where
  compare-IsIn :
      (f : Finding)
      → IsIn f (detect_type_kind_changes old new (per_kind_findings old new))
      → IsIn (with_axes old new f) (compare old new)
  unfolding compare
  compare-IsIn f m =
      let fs = detect_type_kind_changes old new (per_kind_findings old new) in
      let cascade = detect_cascading-IsBroken old fs in
      IsIn-map (with_axes old new) f (detect_cascading_layout_breaks old fs)
        (rw (cascade.1) (IsIn-left f fs cascade.0 m))

  -- A type that changed its kind has its finding in the report.
  pub compare-kind_changed :
      (name : String) (k l : UdtKind)
      → udt_kind_of old name ≡ some k
      → udt_kind_of new name ≡ some l
      → kind_equal k l ≡ false
      → IsIn
          (with_axes old new (kind_finding (record { name = name; old_kind = k; new_kind = l })))
          (compare old new)
  compare-kind_changed name k l e f h =
      compare-IsIn _ (kind_changed-current old new (per_kind_findings old new) name k l e f h).0

  removed-IsOther : (name : String) → IsOtherCategory (function_removed_finding name).category
  unfolding str_eq removal_categories addition_category as_str
  removed-IsOther name struct_kind = (refl, refl)
  removed-IsOther name enum_kind = (refl, refl)
  removed-IsOther name union_kind = (refl, refl)
  removed-IsOther name error_enum_kind = (refl, refl)

get-IsIn :
    {V : Type 0} (name : String) (v : V) (d : Dict V) → get name d ≡ some v → IsIn (name, v) d
unfolding get
get-IsIn name v [] e = ground arith
get-IsIn name v ((k, w) ∷ d) e = elim (Bool-cases (str_eq k name)) [
  | inl same ↦ inl (ground (arith, str_eq_iff k name))
  | inr other ↦ inr (get-IsIn name v d (ground arith))
]

compare_function-removed :
    (new : ContractSpec) (name : String) (f : Function)
    → get name new.functions ≡ none
    → compare_function new (name, f) ≡ function_removed_finding name ∷ []
unfolding compare_function
compare_function-removed new name f e = ground arith

module _ (old new : ContractSpec) (name : String) (f : Function) where
  -- A function that the new contract does not have is reported as a critical break of the call
  -- ABI, whatever else changed.
  pub compare-function_removed :
      get name old.functions ≡ some f
      → get name new.functions ≡ none
      → IsIn (record (function_removed_finding name) { axes = call_abi ∷ [] }) (compare old new)
  unfolding with_axes per_kind_findings detect_type_kind_changes compare_functions
      classify_finding_axes is_one_of str_eq as_str
  compare-function_removed e n =
      let removed = function_removed_finding name in
      let reported : IsIn removed (compare_functions old new) = IsIn-left removed _ _ (
        IsIn-for_each (compare_function new) (name, f) removed old.functions
          (get-IsIn name f old.functions e)
          (rw (compare_function-removed new name f n) (inl refl))) in
      compare-IsIn old new removed (
        apply-kept removed _ (kind_changes old new (udt_names old))
          (λ c. is_stale-other c removed (removed-IsOther old new name))
          (IsIn-left removed (compare_functions old new) _ reported))

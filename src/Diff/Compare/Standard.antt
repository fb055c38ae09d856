-- ===== src/Diff/Compare/Standard.antt =====
-- The severities of a whole comparison.
use soroban_upgrade_safeguar.Base.{
  refl, List, [], ◌∷◌, ◌++◌, Option, none, some, Every, Every-append, Every-keep, map_list, String,
  ℕ, zero, suc,
}
use soroban_upgrade_safeguar.Category.{default_severity, type_kind_changed, cascading_layout_break}
use soroban_upgrade_safeguar.Spec.{ContractSpec}
use soroban_upgrade_safeguar.Mapper.Graph.{build_reverse_dependencies, dependents}
use soroban_upgrade_safeguar.Diff.{Finding}
use soroban_upgrade_safeguar.Diff.Kinds.{
  KindChange, kind_changes, udt_names, apply_kind_change, apply_kind_changes,
  detect_type_kind_changes,
}
use soroban_upgrade_safeguar.Diff.Cascade.{
  Pair, cascade_finding, push_findings, cascade_loop, start, cascade_rounds,
  detect_cascading_layout_breaks,
}
use soroban_upgrade_safeguar.Diff.Severities.{IsStandard}
use soroban_upgrade_safeguar.Diff.Severities.Functions.{compare_functions-IsStandard}
use soroban_upgrade_safeguar.Diff.Severities.Layouts.{compare_structs-IsStandard}
use soroban_upgrade_safeguar.Diff.Severities.Types.{
  compare_enums-IsStandard, compare_unions-IsStandard, compare_error_enums-IsStandard,
}
use soroban_upgrade_safeguar.Diff.Compare.{per_kind_findings, with_axes, compare}

per_kind-IsStandard : (old new : ContractSpec) → Every IsStandard (per_kind_findings old new)
unfolding per_kind_findings
per_kind-IsStandard old new = Every-append IsStandard _ _ (compare_functions-IsStandard old new) (
    Every-append IsStandard _ _ (compare_structs-IsStandard old new) (
      Every-append IsStandard _ _ (compare_enums-IsStandard old new) (
        Every-append IsStandard _ _ (compare_unions-IsStandard old new)
          (compare_error_enums-IsStandard old new))))

apply-IsStandard :
    (fs : List Finding) (cs : List KindChange)
    → Every IsStandard fs
    → Every IsStandard (apply_kind_changes fs cs)
unfolding apply_kind_changes apply_kind_change default_severity
apply-IsStandard fs [] h = h
apply-IsStandard fs (c ∷ cs) h = apply-IsStandard (apply_kind_change fs c) cs (
    Every-append IsStandard _ (_ ∷ []) (Every-keep IsStandard _ fs h)
      ((type_kind_changed, refl, refl), tt))

cascade_findings-IsStandard :
    (broken root : String) (deps : List String)
    → Every IsStandard (map_list (cascade_finding broken root) deps)
unfolding default_severity
cascade_findings-IsStandard broken root [] = tt
cascade_findings-IsStandard broken root (d ∷ deps) =
    ((cascading_layout_break, refl, refl), cascade_findings-IsStandard broken root deps)

abbrev OnFound : Option (List Finding) → Type 0
OnFound none = Unit
OnFound (some fs) = Every IsStandard fs

push-OnFound :
    (fs : List Finding) (o : Option (List Finding))
    → Every IsStandard fs
    → OnFound o
    → OnFound (push_findings fs o)
push-OnFound fs none h k = tt
push-OnFound fs (some gs) h k = Every-append IsStandard fs gs h k

loop-IsStandard :
    (deps : String → List String) (rounds : ℕ) (queue seen : List Pair)
    → OnFound (cascade_loop deps rounds queue seen)
unfolding cascade_loop
loop-IsStandard deps zero [] seen = tt
loop-IsStandard deps zero (q ∷ queue) seen = tt
loop-IsStandard deps (suc rounds) [] seen = tt
loop-IsStandard deps (suc rounds) ((broken, root) ∷ queue) seen =
    push-OnFound _ _ (cascade_findings-IsStandard broken root _) (loop-IsStandard deps rounds _ _)

found-IsStandard :
    (fs : List Finding) (o : Option (List Finding))
    → Every IsStandard fs
    → OnFound o
    → Every IsStandard (elim o [ none ↦ fs | some found ↦ fs ++ found ])
found-IsStandard fs none h k = h
found-IsStandard fs (some found) h k = Every-append IsStandard fs found h k

with_axes-IsStandard :
    (old new : ContractSpec) (fs : List Finding)
    → Every IsStandard fs
    → Every IsStandard (map_list (with_axes old new) fs)
unfolding with_axes
with_axes-IsStandard old new [] h = tt
with_axes-IsStandard old new (f ∷ fs) (h, hs) = (h, with_axes-IsStandard old new fs hs)

-- Every finding of a comparison has a category of src/category.rs, and the severity that is the
-- default of this category.
pub compare-IsStandard : (old new : ContractSpec) → Every IsStandard (compare old new)
unfolding compare detect_type_kind_changes detect_cascading_layout_breaks
compare-IsStandard old new =
    let kinds : Every IsStandard (detect_type_kind_changes old new (per_kind_findings old new)) =
      apply-IsStandard (per_kind_findings old new) (kind_changes old new (udt_names old))
        (per_kind-IsStandard old new) in
    with_axes-IsStandard old new _ (
      found-IsStandard _ _ kinds (
        loop-IsStandard (dependents (build_reverse_dependencies old)) (cascade_rounds old _)
          (start _) []))

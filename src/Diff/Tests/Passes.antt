-- ===== src/Diff/Tests/Passes.antt =====
-- Tests of the passes over the whole report: kinds, cascades and axes.
use soroban_upgrade_safeguar.Base.{
  String, ◌≡◌, refl, ◌↔◌, ◌++◌, ◌⊎◌, List, [], ◌∷◌, some, Every, IsIn, str_eq, true,
}
use soroban_upgrade_safeguar.Spec.{get}
use soroban_upgrade_safeguar.Mapper.Graph.{build_reverse_dependencies, dependents}
use soroban_upgrade_safeguar.Diff.{Finding}
use soroban_upgrade_safeguar.Diff.Kinds.{
  struct_kind, enum_kind, udt_kind_of, kind_finding, detect_type_kind_changes,
}
use soroban_upgrade_safeguar.Diff.Kinds.Retracted.{IsRetracted, kind_changed-report}
use soroban_upgrade_safeguar.Diff.Cascade.{
  cascade_loop, cascade_rounds, start, detect_cascading_layout_breaks,
}
use soroban_upgrade_safeguar.Diff.Cascade.Rounds.{cascade_loop-some}
use soroban_upgrade_safeguar.Diff.Cascade.Reachable.{is_reported}
use soroban_upgrade_safeguar.Diff.Cascade.Embedded.{
  HasCritical, IsEmbedded, detect_cascading-reports_iff,
}
use soroban_upgrade_safeguar.Diff.Axes.{is_one_of, classify_finding_axes}
use soroban_upgrade_safeguar.Diff.Axes.Laws.{
  classify-nonempty, IsOnStorage, IsOnCallAbi, layout_break-axes,
}
use soroban_upgrade_safeguar.Diff.Compare.{per_kind_findings}
use soroban_upgrade_safeguar.Diff.Tests.{old_spec, new_spec}

kind_changed-report_example :
    IsIn
      (kind_finding (record { name = "Mode"; old_kind = enum_kind; new_kind = struct_kind }))
      (detect_type_kind_changes old_spec new_spec (per_kind_findings old_spec new_spec))
    × Every
        (λ f. ¬ IsRetracted "Mode" enum_kind struct_kind f)
        (detect_type_kind_changes old_spec new_spec (per_kind_findings old_spec new_spec))
unfolding get udt_kind_of str_eq
kind_changed-report_example =
    kind_changed-report old_spec new_spec (per_kind_findings old_spec new_spec) "Mode" enum_kind
      struct_kind refl refl refl

cascade_loop-some_example :
    (found : List Finding) × (cascade_loop
        (dependents (build_reverse_dependencies old_spec))
        (cascade_rounds old_spec ("Limits" ∷ []))
        (start ("Limits" ∷ []))
        []
      ≡ some found)
cascade_loop-some_example = cascade_loop-some old_spec ("Limits" ∷ [])

detect_cascading-reports_iff_example :
    (found : List Finding) × (detect_cascading_layout_breaks old_spec
        (per_kind_findings old_spec new_spec)
      ≡ per_kind_findings old_spec new_spec ++ found)
    × ((r d : String)
        → (is_reported (d, r) found ≡ true)
          ↔ (HasCritical (per_kind_findings old_spec new_spec) r × IsEmbedded old_spec r d))
detect_cascading-reports_iff_example =
    detect_cascading-reports_iff old_spec (per_kind_findings old_spec new_spec)

classify-nonempty_example :
    ¬ (classify_finding_axes "Struct Field Type Changed" (some "Limits") old_spec new_spec ≡ [])
classify-nonempty_example =
    classify-nonempty "Struct Field Type Changed" (some "Limits") old_spec new_spec

layout_break-axes_example :
    IsOnStorage "Limits" old_spec new_spec "Map Key Type Changed"
    ⊎ IsOnCallAbi "Limits" old_spec new_spec "Map Key Type Changed"
unfolding is_one_of str_eq
layout_break-axes_example = layout_break-axes "Limits" old_spec new_spec "Map Key Type Changed" refl

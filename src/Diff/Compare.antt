-- ===== src/Diff/Compare.antt =====
-- src/diff.rs: `compare`, the passes one after another.
pub mod Standard
pub mod Identity
pub mod Survival
use soroban_upgrade_safeguar.Base.{List, [], ◌∷◌, ◌++◌, map_list}
use soroban_upgrade_safeguar.Spec.{ContractSpec}
use soroban_upgrade_safeguar.Diff.{Finding}
use soroban_upgrade_safeguar.Diff.Functions.{compare_functions}
use soroban_upgrade_safeguar.Diff.Structs.{compare_structs}
use soroban_upgrade_safeguar.Diff.Enums.{compare_enums}
use soroban_upgrade_safeguar.Diff.Unions.{compare_unions}
use soroban_upgrade_safeguar.Diff.ErrorEnums.{compare_error_enums}
use soroban_upgrade_safeguar.Diff.Kinds.{detect_type_kind_changes}
use soroban_upgrade_safeguar.Diff.Cascade.{detect_cascading_layout_breaks}
use soroban_upgrade_safeguar.Diff.Axes.{classify_finding_axes}

-- The five passes that each look at one kind of declaration.
unfoldable pub per_kind_findings : ContractSpec → ContractSpec → List Finding
per_kind_findings old new =
    compare_functions old new
    ++ (compare_structs old new
        ++ (compare_enums old new ++ (compare_unions old new ++ compare_error_enums old new)))

unfoldable pub with_axes : ContractSpec → ContractSpec → Finding → Finding
with_axes old new f = record f { axes = classify_finding_axes f.category f.type_name old new }

unfoldable pub compare : ContractSpec → ContractSpec → List Finding
unfolding per_kind_findings with_axes
compare old new = map_list (with_axes old new) (
    detect_cascading_layout_breaks old
      (detect_type_kind_changes old new (per_kind_findings old new)))

-- ===== src/Diff/Cascade.antt =====
-- src/diff.rs: `detect_cascading_layout_breaks`. The queue holds a type and its root; each pair
-- of a dependent and a root is put there at most once, which bounds the rounds.
pub mod Rounds
pub mod Reachable
pub mod Embedded
use soroban_upgrade_safeguar.Base.{
  ℕ, zero, suc, ◌+◌, ◌*◌, String, List, [], ◌∷◌, ◌++◌, Bool, true, false, ◌&&◌, Option, none, some,
  any, length, map_list, format, str_eq, if◌then◌else◌,
}
use soroban_upgrade_safeguar.Category.{Severity, critical, cascading_layout_break, as_str}
use soroban_upgrade_safeguar.Spec.{ContractSpec, Dict}
use soroban_upgrade_safeguar.Mapper.Graph.{insert_name, build_reverse_dependencies, dependents}
use soroban_upgrade_safeguar.Diff.{Finding, is_critical}
use soroban_upgrade_safeguar.Diff.Kinds.{keys}

abbrev pub Pair : Type 0
Pair = String × String

abbrev pub is_cascaded : Pair → List Pair → Bool
is_cascaded p seen = any (λ q. str_eq q.0 p.0 && str_eq q.1 p.1) seen

-- The types with a critical finding.
unfoldable pub broken_types : List Finding → List String
unfolding insert_name
broken_types [] = []
broken_types (f ∷ fs) =
    let rest = broken_types fs in
    if is_critical f.severity
    then elim f.type_name [ none ↦ rest | some name ↦ insert_name name rest ]
    else rest

abbrev pub cascade_finding : (broken root dep : String) → Finding
cascade_finding broken root dep = record {
  severity = critical;
  axes = [];
  category = as_str cascading_layout_break;
  message = format (
      "Type '" ∷ dep ∷ "' layout is broken because it embeds modified type '" ∷ broken
      ∷ "'. Stored data for '" ∷ dep ∷ "' is no longer compatible." ∷ []);
  type_name = some dep;
  target = some dep;
  root_target = some root;
  change = none;
}

-- The loop over the dependents: those that are new for this root.
unfoldable pub fresh : (root : String) → List String → List Pair → List String
fresh root [] seen = []
fresh root (dep ∷ deps) seen =
    let skip = fresh root deps seen in
    let push = dep ∷ fresh root deps ((dep, root) ∷ seen) in
    if is_cascaded (dep, root) seen then skip else push

abbrev pub pairs : (root : String) → List String → List Pair
pairs root deps = map_list (λ dep. (dep, root)) deps

abbrev pub push_findings : List Finding → Option (List Finding) → Option (List Finding)
push_findings fs none = none
push_findings fs (some gs) = some (fs ++ gs)

module _ (deps : String → List String) where
  -- The `while` loop; `none` means that the rounds ran out.
  unfoldable pub cascade_loop : ℕ → List Pair → List Pair → Option (List Finding)
  unfolding fresh
  cascade_loop rounds [] seen = some []
  cascade_loop zero (q ∷ queue) seen = none
  cascade_loop (suc rounds) ((broken, root) ∷ queue) seen =
      let new = fresh root (deps broken) seen in
      push_findings (map_list (cascade_finding broken root) new)
        (cascade_loop rounds (queue ++ pairs root new) (pairs root new ++ seen))

-- The names that can be dependents: those of the structs and unions.
unfoldable pub owners : ContractSpec → List String
owners spec = keys spec.structs ++ keys spec.unions

abbrev pub start : List String → List Pair
start roots = map_list (λ t. (t, t)) roots

unfoldable pub cascade_rounds : ContractSpec → List String → ℕ
unfolding owners
cascade_rounds old roots = length roots + length (owners old) * length roots

unfoldable pub detect_cascading_layout_breaks : ContractSpec → List Finding → List Finding
unfolding broken_types cascade_loop cascade_rounds dependents build_reverse_dependencies
detect_cascading_layout_breaks old fs =
    let roots = broken_types fs in
    elim (cascade_loop (dependents (build_reverse_dependencies old)) (cascade_rounds old roots)
      (start roots) []) [ none ↦ fs | some found ↦ fs ++ found ]

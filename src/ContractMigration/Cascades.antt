-- ===== src/ContractMigration/Cascades.antt =====
-- `inherit_through_cascades` of src/contract_migration.rs: a dependent inherits the coverage of
-- the type that it embeds.
use soroban_upgrade_safeguar.Base.{
  ℕ, ◌+◌, String, Option, none, some, List, [], ◌∷◌, ◌++◌, Bool, true, false, ◌&&◌, ◌==◌, ltb, find,
  if◌then◌else◌, str_eq, is_some,
}
use soroban_upgrade_safeguar.Diff.{Finding}
use soroban_upgrade_safeguar.ContractMigration.{FindingCoverage, needs_migration, is_about}

-- A finding with its coverage.
abbrev pub Covered : Type 0
Covered = Finding × Option FindingCoverage

-- A type's breaking findings, and how many of them are covered.
abbrev pub Totals : Type 0
Totals = List (String × (ℕ × ℕ))

abbrev pub one_if : Bool → ℕ
one_if true = 1
one_if false = 0

-- `totals.entry(type_name).or_insert((0, 0))`, counted up.
unfoldable pub add_total : String → Bool → Totals → Totals
add_total t covered [] = (t, (1, one_if covered)) ∷ []
add_total t covered ((j, (n, k)) ∷ m) =
    let rest = add_total t covered m in
    if str_eq j t then (j, (n + 1, k + one_if covered)) ∷ m else (j, (n, k)) ∷ rest

-- One round of the count, for a finding on this type.
abbrev pub count_finding : Option String → Bool → Bool → Totals → Totals
count_finding none needs covered m = m
count_finding (some t) needs covered m = if needs then add_total t covered m else m

unfoldable pub totals_of : Totals → List Covered → Totals
unfolding add_total
totals_of m [] = m
totals_of m ((f, c) ∷ fs) =
    totals_of (count_finding f.type_name (needs_migration f) (is_some c) m) fs

-- `matches!(totals.get(root), Some((total, covered)) if total > 0 && total == covered)`
unfoldable pub is_migrated : String → Totals → Bool
is_migrated root [] = false
is_migrated root ((j, (n, k)) ∷ m) =
    let rest = is_migrated root m in if str_eq j root then ltb 0 n && n == k else rest

-- The first covered finding on the root that needs a migration.
abbrev pub is_attributable : String → Covered → Bool
is_attributable root p = is_about root p.0 && (needs_migration p.0 && is_some p.1)

abbrev pub inherited : String → Option Covered → Option FindingCoverage
inherited root none = none
inherited root (some (f, none)) = none
inherited root (some (f, some c)) = some (record { migration = c.migration; via = some root })

-- One round of the loop, for the finding between `before` and `after`.
unfoldable pub inherit_one : Totals → List Covered → Covered → List Covered → Option FindingCoverage
unfolding is_migrated
inherit_one totals before (f, some c) after = some c
inherit_one totals before (f, none) after = elim f.root_target [
  | none ↦ none
  | some root ↦
      if is_migrated root totals
      then inherited root (find (is_attributable root) (before ++ (f, none) ∷ after))
      else none
]

unfoldable pub inherit_loop : Totals → List Covered → List Covered → List Covered
unfolding inherit_one
inherit_loop totals before [] = before
inherit_loop totals before (p ∷ after) =
    inherit_loop totals (before ++ (p.0, inherit_one totals before p after) ∷ []) after

unfoldable pub inherit_through_cascades : List Covered → List Covered
unfolding totals_of inherit_loop
inherit_through_cascades fs = inherit_loop (totals_of [] fs) [] fs

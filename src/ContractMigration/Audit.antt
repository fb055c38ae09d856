-- ===== src/ContractMigration/Audit.antt =====
-- `audit` of src/contract_migration.rs: which findings the declared migrations cover, and what
-- does not verify.
use Prim.Native.String.{compare}
use Prim.Native.Nat.{Ordering}
use soroban_upgrade_safeguar.Base.{
  String, Option, none, some, List, [], ◌∷◌, ◌++◌, Bool, true, false, not, ◌&&◌, ◌||◌, keep, any,
  for_each, format, if◌then◌else◌, is_some, map_list, join,
}
use soroban_upgrade_safeguar.Diff.{Finding}
use soroban_upgrade_safeguar.ContractMigration.{
  MigrationDeclaration, FindingCoverage, MigrationDiagnostic, ordering_unattested,
  no_types_declared, duplicate_claim, coverage_gap, no_findings_for_type, applies_to,
  needs_migration, is_about,
}
use soroban_upgrade_safeguar.ContractMigration.Claims.{
  about_migration, about_claim, Claimed, Claiming, record_all,
}
use soroban_upgrade_safeguar.ContractMigration.Cascades.{Covered, inherit_through_cascades}

abbrev pub has_types : MigrationDeclaration → Bool
has_types m = elim m.migrates [ [] ↦ false | t ∷ ts ↦ true ]

-- A migration is verified if it attests its ordering and lists types.
abbrev pub is_verified : MigrationDeclaration → Bool
is_verified m = m.runs_before_read && has_types m

abbrev pub unverified : MigrationDeclaration → List MigrationDiagnostic
unverified m =
    if not m.runs_before_read
    then about_migration ordering_unattested m.id (
        format (
          "Migration '" ∷ m.id
          ∷ "' does not attest its ordering, so it covers nothing. A migration that runs after the new code reads the old layout is not a migration — it is a crash. Set `runs_before_read = true` once that is genuinely true."
          ∷ []))
      ∷ []
    else if not (has_types m)
    then about_migration no_types_declared m.id (
        format (
          "Migration '" ∷ m.id
          ∷ "' lists no types in `migrates`, so its coverage cannot be checked and it covers nothing. List every type it rewrites; each one's breaking findings are then required to be claimed."
          ∷ []))
      ∷ []
    else []

-- `quoted_list`
abbrev quoted : String → String
quoted id = format ("'" ∷ id ∷ "'" ∷ [])

abbrev but_last : List String → List String
but_last [] = []
but_last (s ∷ []) = []
but_last (s ∷ t ∷ ss) = s ∷ but_last (t ∷ ss)

abbrev last_or : String → List String → String
last_or d [] = d
last_or d (s ∷ ss) = last_or s ss

unfoldable pub quoted_list : List String → String
unfolding format join
quoted_list [] = ""
quoted_list (id ∷ []) = quoted id
quoted_list (id ∷ jd ∷ ids) =
    let all = map_list quoted (id ∷ jd ∷ ids) in
    format (join ", " (but_last all) ∷ " and " ∷ last_or "" all ∷ [])

-- One claimant covers a finding; two cover it no more than none.
abbrev pub resolve : List String → Option FindingCoverage
resolve [] = none
resolve (id ∷ []) = some (record { migration = id; via = none })
resolve (id ∷ jd ∷ ids) = none

abbrev pub resolved : Claimed → Covered
resolved p = (p.0, resolve p.1)

abbrev pub ambiguity : Claimed → List MigrationDiagnostic
ambiguity (f, []) = []
ambiguity (f, id ∷ []) = []
ambiguity (f, id ∷ jd ∷ ids) =
    about_claim duplicate_claim none f.category f.target (
      format (
        "Migrations "
        ∷ quoted_list (id ∷ jd ∷ ids)
        ∷ " all claim this finding. Ambiguous ownership is not verification — and two rewrites of the same data is its own bug — so it is covered by none of them. Leave the claim on exactly one migration."
        ∷ []))
    ∷ []

-- The gaps of one type of a verified migration.
abbrev pub gap : MigrationDeclaration → String → Covered → List MigrationDiagnostic
gap m type_name (f, c) =
    if not (is_about type_name f) || (not (needs_migration f) || is_some c)
    then []
    else about_claim coverage_gap (some m.id) f.category f.target (
        format (
          "Migration '" ∷ m.id ∷ "' declares that it migrates '" ∷ type_name
          ∷ "', but does not cover this finding on it. A partly migrated type is still a broken type, so this still fails. Add a `[[migration.covers]]` entry for it, or drop '"
          ∷ type_name ∷ "' from `migrates` if the migration really does not handle it." ∷ []))
      ∷ []

abbrev pub unseen_type : MigrationDeclaration → String → List Covered → List MigrationDiagnostic
unseen_type m type_name fs =
    if any (λ p. is_about type_name p.0) fs
    then []
    else about_migration no_findings_for_type m.id (
        format (
          "Migration '" ∷ m.id ∷ "' declares that it migrates '" ∷ type_name
          ∷ "', but this comparison has no findings for that type. The type may have been renamed or removed, or the migration may already have shipped — either way the declaration is stale and should be deleted."
          ∷ []))
      ∷ []

unfoldable pub gaps : List Covered → MigrationDeclaration → List MigrationDiagnostic
unfolding format
gaps fs m = for_each (λ t. for_each (gap m t) fs ++ unseen_type m t fs) m.migrates

-- The order of the diagnostics: by migration, category and target, where `None` comes first.
abbrev pub compare_opt : Option String → Option String → Ordering
compare_opt none none = Ordering.eq
compare_opt none (some b) = Ordering.lt
compare_opt (some a) none = Ordering.gt
compare_opt (some a) (some b) = compare a b

abbrev pub comes_before : MigrationDiagnostic → MigrationDiagnostic → Bool
comes_before a b = elim (compare_opt a.migration b.migration) [
  | Ordering.lt ↦ true
  | Ordering.gt ↦ false
  | Ordering.eq ↦ elim (compare_opt a.category b.category) [
    | Ordering.lt ↦ true
    | Ordering.gt ↦ false
    | Ordering.eq ↦ elim (compare_opt a.target b.target) [ Ordering.lt ↦ true | _ ↦ false ]
  ]
]

unfoldable pub insert_diagnostic :
    MigrationDiagnostic → List MigrationDiagnostic → List MigrationDiagnostic
insert_diagnostic d [] = d ∷ []
insert_diagnostic d (e ∷ es) =
    let rest = insert_diagnostic d es in if comes_before e d then e ∷ rest else d ∷ e ∷ es

-- `sort_by`, which is stable.
unfoldable pub sort_diagnostics : List MigrationDiagnostic → List MigrationDiagnostic
unfolding insert_diagnostic
sort_diagnostics [] = []
sort_diagnostics (d ∷ ds) = insert_diagnostic d (sort_diagnostics ds)

pub record MigrationAudit : Type 0 where
  pub coverage : List (Option FindingCoverage)
  pub diagnostics : List MigrationDiagnostic
  pub declared : Bool

abbrev pub applicable_of : List MigrationDeclaration → Option String → List MigrationDeclaration
applicable_of migrations contract = keep (λ m. applies_to m contract) migrations

unfoldable pub direct_claims : List Finding → List MigrationDeclaration → Claiming
unfolding record_all format
direct_claims findings applicable = record_all (keep is_verified applicable) (record {
  claimants = map_list (λ f. (f, [])) findings;
  diagnostics = for_each unverified applicable;
})

-- The findings with their coverage.
unfoldable pub covered_findings : List Finding → List MigrationDeclaration → List Covered
unfolding inherit_through_cascades direct_claims
covered_findings findings applicable =
    inherit_through_cascades (map_list resolved (direct_claims findings applicable).claimants)

unfoldable pub audit : List Finding → List MigrationDeclaration → Option String → MigrationAudit
unfolding covered_findings gaps sort_diagnostics quoted_list
audit findings migrations contract =
    let applicable = applicable_of migrations contract in
    let claims = direct_claims findings applicable in
    let covered = covered_findings findings applicable in
    record {
      coverage = map_list (λ p. p.1) covered;
      diagnostics = sort_diagnostics (
          claims.diagnostics
          ++ (for_each ambiguity claims.claimants
              ++ for_each (gaps covered) (keep is_verified applicable)));
      declared = elim applicable [ [] ↦ false | m ∷ ms ↦ true ];
    }

-- ===== src/ContractMigration/Claims.antt =====
-- `record_claim` of src/contract_migration.rs: the claims on each finding, and why a claim fails.
use soroban_upgrade_safeguar.Base.{
  String, Option, none, some, List, [], ◌∷◌, ◌++◌, ◌&&◌, keep, format, if◌then◌else◌, is_member,
  unwrap_or,
}
use soroban_upgrade_safeguar.Diff.{Finding}
use soroban_upgrade_safeguar.ContractMigration.{
  CoverageClaim, MigrationDeclaration, DiagnosticKind, stale_claim, claim_outside_scope,
  not_migratable, MigrationDiagnostic, addresses, change_matches,
}

-- `MigrationDiagnostic::about_migration` and `about_claim`.
abbrev pub about_migration : DiagnosticKind → String → String → MigrationDiagnostic
about_migration k migration message = record {
  kind = k;
  migration = some migration;
  category = none;
  target = none;
  message = message;
}

abbrev pub about_claim :
    DiagnosticKind → Option String → String → Option String → String → MigrationDiagnostic
about_claim k migration category target message = record {
  kind = k;
  migration = migration;
  category = some category;
  target = target;
  message = message;
}

-- A finding with the ids of the migrations that claim it.
abbrev pub Claimed : Type 0
Claimed = Finding × List String

-- What a claim makes of one finding that it matches: a claimant, or a diagnostic.
abbrev pub claimant_of : MigrationDeclaration → Finding → List String
claimant_of m f = elim f.type_name [
  | none ↦ []
  | some type_name ↦ if is_member type_name m.migrates then m.id ∷ [] else []
]

abbrev pub refusal_of : MigrationDeclaration → Finding → List MigrationDiagnostic
refusal_of m f = elim f.type_name [
  | none ↦
      about_claim not_migratable (some m.id) f.category f.target (
        format (
          "Migration '" ∷ m.id
          ∷ "' claims a finding that is not about a stored type. This is an interface break, not a data break: no rewrite of stored data fixes a caller. If it is genuinely acceptable, `[[suppress]]` is the honest way to say so."
          ∷ []))
      ∷ []
  | some type_name ↦
      if is_member type_name m.migrates
      then []
      else about_claim claim_outside_scope (some m.id) f.category f.target (
          format (
            "Migration '" ∷ m.id ∷ "' claims a finding on '" ∷ type_name
            ∷ "', which it does not list in `migrates`. Add '" ∷ type_name
            ∷ "' there so the rest of its findings are checked for coverage too; claiming one field of a type the migration does not declare is how a half-migration hides."
            ∷ []))
        ∷ []
]

-- The loop over the findings that the claim matches.
unfoldable pub push_claimants : MigrationDeclaration → CoverageClaim → List Claimed → List Claimed
push_claimants m c [] = []
push_claimants m c ((f, ids) ∷ fs) =
    let rest = push_claimants m c fs in
    if addresses c f && change_matches c f
    then (f, ids ++ claimant_of m f) ∷ rest
    else (f, ids) ∷ rest

unfoldable pub claim_refusals :
    MigrationDeclaration → CoverageClaim → List Claimed → List MigrationDiagnostic
claim_refusals m c [] = []
claim_refusals m c ((f, ids) ∷ fs) =
    let rest = claim_refusals m c fs in
    if addresses c f && change_matches c f then refusal_of m f ++ rest else rest

abbrev no_finding : MigrationDeclaration → CoverageClaim → MigrationDiagnostic
no_finding m c = about_claim stale_claim (some m.id) c.category c.target (
    format (
      "Migration '" ∷ m.id
      ∷ "' claims a finding that this comparison does not produce. The change it was written for is gone — reverted, or the type no longer exists — so the claim is stale and covers nothing. Delete it."
      ∷ []))

abbrev other_change : MigrationDeclaration → CoverageClaim → Finding → MigrationDiagnostic
other_change m c f = about_claim stale_claim (some m.id) c.category c.target (
    format (
      "Migration '"
      ∷ m.id
      ∷ "' is pinned to `change = \""
      ∷ unwrap_or c.change ""
      ∷ "\"`, but the change here is "
      ∷ elim f.change [
        | some actual ↦ format ("`" ∷ actual ∷ "`" ∷ [])
        | none ↦ "not a change this category records"
      ]
      ∷ ". This is a different change than the migration was written against, so the claim is stale and covers nothing. Re-read the migration against the current change, then update the pin."
      ∷ []))

-- The findings that a claim addresses, and those of them whose change still matches.
abbrev pub addressed : CoverageClaim → List Claimed → List Claimed
addressed c fs = keep (λ p. addresses c p.0) fs

abbrev pub matched : CoverageClaim → List Claimed → List Claimed
matched c fs = keep (λ p. change_matches c p.0) (addressed c fs)

-- The claimants after a claim; with no finding matched nothing is claimed.
unfoldable pub claimants_after : MigrationDeclaration → CoverageClaim → List Claimed → List Claimed
unfolding push_claimants
claimants_after m c fs = elim (matched c fs) [ [] ↦ fs | p ∷ ps ↦ push_claimants m c fs ]

unfoldable pub claim_diagnostics :
    MigrationDeclaration → CoverageClaim → List Claimed → List MigrationDiagnostic
unfolding claim_refusals format
claim_diagnostics m c fs = elim (addressed c fs) [
  | [] ↦ no_finding m c ∷ []
  | p ∷ ps ↦ elim (matched c fs) [ [] ↦ other_change m c p.0 ∷ [] | q ∷ qs ↦ claim_refusals m c fs ]
]

-- `record_claim`: the claimants and the diagnostics after it.
pub record Claiming : Type 0 where
  pub claimants : List Claimed
  pub diagnostics : List MigrationDiagnostic

unfoldable pub record_claim : MigrationDeclaration → CoverageClaim → Claiming → Claiming
unfolding claimants_after claim_diagnostics
record_claim m c s = record {
  claimants = claimants_after m c s.claimants;
  diagnostics = s.diagnostics ++ claim_diagnostics m c s.claimants;
}

unfoldable pub record_claims : MigrationDeclaration → List CoverageClaim → Claiming → Claiming
unfolding record_claim
record_claims m [] s = s
record_claims m (c ∷ cs) s = record_claims m cs (record_claim m c s)

-- The loop over the verified migrations.
unfoldable pub record_all : List MigrationDeclaration → Claiming → Claiming
unfolding record_claims
record_all [] s = s
record_all (m ∷ ms) s = record_all ms (record_claims m m.covers s)

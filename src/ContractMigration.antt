-- ===== src/ContractMigration.antt =====
-- src/contract_migration.rs: declared migrations, and which findings they cover. Claims records
-- what a migration claims, Cascades passes coverage on to dependents, Audit is the whole check.
pub mod Claims
pub mod Cascades
pub mod Audit
pub mod Inheritance
pub mod Coverage
pub mod Ownership
pub mod Owned
pub mod Sources
pub mod Specified
pub mod Attested
pub mod Tests
use soroban_upgrade_safeguar.Base.{
  ℕ, String, Option, none, some, List, [], ◌∷◌, Bool, true, false, ◌||◌, ◌&&◌, ◌==◌, ltb,
  if◌then◌else◌, is_member, str_eq, opt_str_eq,
}
use soroban_upgrade_safeguar.Category.{Severity, critical, warning, info}
use soroban_upgrade_safeguar.Diff.{Finding}

pub record CoverageClaim : Type 0 where
  pub category : String
  pub target : Option String
  pub change : Option String

-- A `BTreeSet` is a list in its order.
pub record MigrationDeclaration : Type 0 where
  pub id : String
  pub description : Option String
  pub migrates : List String
  pub runs_before_read : Bool
  pub contracts : List String
  pub covers : List CoverageClaim

-- How a finding came to be covered.
pub record FindingCoverage : Type 0 where
  pub migration : String
  pub via : Option String

pub data DiagnosticKind : Type 0 where
  ordering_unattested no_types_declared stale_claim claim_outside_scope : DiagnosticKind
  not_migratable duplicate_claim coverage_gap no_findings_for_type : DiagnosticKind

pub record MigrationDiagnostic : Type 0 where
  pub kind : DiagnosticKind
  pub migration : Option String
  pub category : Option String
  pub target : Option String
  pub message : String

pub data MigrationStatus : Type 0 where
  not_applicable fully_migrated partially_migrated unhandled : MigrationStatus

-- `MigrationStatus::classify`
unfoldable pub classify : ℕ → ℕ → MigrationStatus
classify needing_migration covered =
    if needing_migration == 0
    then not_applicable
    else if covered == needing_migration
    then fully_migrated
    else if ltb 0 covered
    then partially_migrated
    else unhandled

-- `MigrationDeclaration::applies_to`
unfoldable pub applies_to : MigrationDeclaration → Option String → Bool
applies_to m none = elim m.contracts [ [] ↦ true | c ∷ cs ↦ false ]
applies_to m (some contract) =
    elim m.contracts [ [] ↦ true | c ∷ cs ↦ false ] || is_member contract m.contracts

-- `CoverageClaim::addresses`
abbrev pub addresses : CoverageClaim → Finding → Bool
addresses c f = str_eq c.category f.category && opt_str_eq c.target f.target

-- `CoverageClaim::change_matches`
abbrev pub change_matches : CoverageClaim → Finding → Bool
change_matches c f = elim c.change [ none ↦ true | some pinned ↦ opt_str_eq f.change (some pinned) ]

abbrev pub needs_migration : Finding → Bool
needs_migration f = elim f.severity [ info ↦ false | _ ↦ true ]

-- `finding.type_name.as_deref() == Some(name)`
abbrev pub is_about : String → Finding → Bool
is_about name f = opt_str_eq f.type_name (some name)

-- ===== src/ContractMigration/Tests.antt =====
-- Tests of declared migrations: one widens a field, and a type that embeds it inherits its coverage.
use soroban_upgrade_safeguar.Base.{
  String, Option, none, some, List, [], ◌∷◌, true, ◌≡◌, refl, map_list, Every, str_eq, format,
}
use soroban_upgrade_safeguar.Category.{critical}
use soroban_upgrade_safeguar.Diff.{Finding}
use soroban_upgrade_safeguar.ContractMigration.{
  CoverageClaim, MigrationDeclaration, applies_to, stale_claim, coverage_gap,
}
use soroban_upgrade_safeguar.ContractMigration.Audit.{audit}
use soroban_upgrade_safeguar.ContractMigration.Specified.{AreCovered, audit-AreCovered}
use soroban_upgrade_safeguar.ContractMigration.Attested.{IsVouched, audit-IsVouched}

abbrev widened : Finding
widened = record {
  severity = critical;
  axes = [];
  category = "Struct Field Type Changed";
  message = "";
  type_name = some "Data";
  target = some "Data.amount";
  root_target = none;
  change = some "U64 -> I128";
}

abbrev embedding : Finding
embedding = record {
  severity = critical;
  axes = [];
  category = "Cascading Layout Break";
  message = "";
  type_name = some "Wrapper";
  target = some "Wrapper";
  root_target = some "Data";
  change = none;
}

abbrev findings : List Finding
findings = widened ∷ embedding ∷ []

abbrev widen : Option String → MigrationDeclaration
widen pinned = record {
  id = "v3-widen";
  description = none;
  migrates = "Data" ∷ [];
  runs_before_read = true;
  contracts = [];
  covers =
      record {
        category = "Struct Field Type Changed";
        target = some "Data.amount";
        change = pinned;
      }
      ∷ [];
}

coverage_test :
    (audit findings (widen (some "U64 -> I128") ∷ []) none).coverage
    ≡ some (record { migration = "v3-widen"; via = none })
      ∷ some (record { migration = "v3-widen"; via = some "Data" })
      ∷ []
unfolding audit applies_to str_eq
coverage_test = refl

-- A pin to another change leaves the finding open, and says why.
stale_test :
    map_list (λ d. d.kind) (audit findings (widen (some "U64 -> U128") ∷ []) none).diagnostics
    ≡ stale_claim ∷ coverage_gap ∷ []
unfolding audit applies_to str_eq format
stale_test = refl

abbrev rewriting : String → List CoverageClaim → MigrationDeclaration
rewriting id more = record {
  id = id;
  description = none;
  migrates = "Data" ∷ "Wrapper" ∷ [];
  runs_before_read = true;
  contracts = [];
  covers =
      record { category = "Cascading Layout Break"; target = some "Wrapper"; change = none } ∷ more;
}

-- Two migrations claim the embedding, which is reported and still inherits from its root.
claimed_twice_test :
    (audit findings (rewriting "a" (widen none).covers ∷ rewriting "b" [] ∷ []) none).coverage
    ≡ some (record { migration = "a"; via = none })
      ∷ some (record { migration = "a"; via = some "Data" })
      ∷ []
unfolding audit applies_to str_eq
claimed_twice_test = refl

audit-AreCovered_example :
    AreCovered findings
      (widen none ∷ [])
      none
      findings
      (audit findings (widen none ∷ []) none).coverage
audit-AreCovered_example = audit-AreCovered findings (widen none ∷ []) none

audit-IsVouched_example :
    Every
      (IsVouched findings (widen none ∷ []) none)
      (audit findings (widen none ∷ []) none).coverage
audit-IsVouched_example = audit-IsVouched findings (widen none ∷ []) none

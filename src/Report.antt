-- ===== src/Report.antt =====
-- src/report.rs: the findings of a report, with what acknowledges or migrates them.
use soroban_upgrade_safeguar.Base.{String, Option, List, Bool}
use soroban_upgrade_safeguar.Diff.{CompatibilityAxis, Finding}
use soroban_upgrade_safeguar.ContractMigration.{FindingCoverage}

pub record ReportedFinding : Type 0 where
  pub rule_id : String
  pub finding : Finding
  pub axes : List CompatibilityAxis
  pub suppressed : Bool
  pub suppression_reason : Option String
  pub remediation : Option String
  pub migrated_by : Option FindingCoverage

-- ===== src/Budget.antt =====
-- src/budget.rs: budgets bound how many findings of a rule, of an axis, or of the rest a run may
-- have. Entries is the validation of the configured entries, Evaluate the evaluation of a report.
pub mod Entries
pub mod Labels
pub mod Evaluate
pub mod Tests
use soroban_upgrade_safeguar.Base.{
  ℕ, String, Option, none, some, List, [], ◌∷◌, Bool, true, false, ℤ, format, str_eq, str_eq_iff,
  str_eq_refl, ◌≡◌, refl, ◌↔◌, arith, ap,
}
use soroban_upgrade_safeguar.Category.{Severity, critical, warning, info}
use soroban_upgrade_safeguar.Diff.{
  CompatibilityAxis, storage_layout, call_abi, event_indexer, source_level, runtime_surface,
  axis_equal, axis_equal_iff,
}

pub data BudgetMetric : Type 0 where
  raw unsuppressed : BudgetMetric

pub data BudgetScope : Type 0 where
  global : BudgetScope
  axis : CompatibilityAxis → BudgetScope
  rule : String → BudgetScope

unfoldable pub axis_label : CompatibilityAxis → String
axis_label storage_layout = "storage_layout"
axis_label call_abi = "call_abi"
axis_label event_indexer = "event_indexer"
axis_label source_level = "source_level"
axis_label runtime_surface = "runtime_surface"

-- `BudgetScope::label`
unfoldable pub label : BudgetScope → String
unfolding axis_label format
label global = "global"
label (axis a) = format ("axis:" ∷ axis_label a ∷ [])
label (rule rule_id) = format ("rule:" ∷ rule_id ∷ [])

pub record BudgetEntry : Type 0 where
  pub scope : BudgetScope
  pub severity : Option Severity
  pub metric : BudgetMetric
  pub limit : ℕ

-- A `[[budget]]` table as it is parsed.
pub record BudgetEntryFile : Type 0 where
  pub scope : String
  pub axis : Option CompatibilityAxis
  pub rule_id : Option String
  pub severity : Option Severity
  pub metric : Option BudgetMetric
  pub limit : ℤ

-- `==` of the metrics, the severities and the scopes.
abbrev pub metric_equal : BudgetMetric → BudgetMetric → Bool
metric_equal raw raw = true
metric_equal unsuppressed unsuppressed = true
metric_equal _ _ = false

abbrev pub severity_equal : Severity → Severity → Bool
severity_equal critical critical = true
severity_equal warning warning = true
severity_equal info info = true
severity_equal _ _ = false

abbrev pub scope_equal : BudgetScope → BudgetScope → Bool
scope_equal global global = true
scope_equal (axis a) (axis b) = axis_equal a b
scope_equal (rule r) (rule s) = str_eq r s
scope_equal _ _ = false

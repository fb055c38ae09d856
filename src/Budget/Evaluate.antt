-- ===== src/Budget/Evaluate.antt =====
-- `evaluate` of src/budget.rs: the narrowest scope claims a finding, and each entry is measured
-- against what its scope claimed.
pub mod Precedence
pub mod Violations
pub mod Order
use soroban_upgrade_safeguar.Base.{
  ℕ, String, Option, none, some, List, [], ◌∷◌, ◌++◌, Bool, true, false, not, ◌&&◌, ◌||◌, any, keep,
  find, count, ltb, str_eq, if◌then◌else◌,
}
use soroban_upgrade_safeguar.Category.{Severity}
use soroban_upgrade_safeguar.Diff.{CompatibilityAxis, Finding, axis_equal}
use soroban_upgrade_safeguar.Report.{ReportedFinding}
use soroban_upgrade_safeguar.Budget.{
  BudgetMetric, raw, unsuppressed, BudgetScope, global, axis, rule, axis_label, label, BudgetEntry,
  metric_equal, severity_equal,
}

pub record BudgetViolation : Type 0 where
  pub scope : String
  pub metric : BudgetMetric
  pub severity : Option Severity
  pub measured : ℕ
  pub limit : ℕ

-- `matches!(e.scope, BudgetScope::Rule(_))`, and the same for an axis.
abbrev pub is_rule_entry : BudgetEntry → Bool
is_rule_entry e = elim e.scope [ rule r ↦ true | _ ↦ false ]

abbrev pub is_axis_entry : BudgetEntry → Bool
is_axis_entry e = elim e.scope [ axis a ↦ true | _ ↦ false ]

abbrev pub names_rule : String → BudgetEntry → Bool
names_rule rule_id e = elim e.scope [ rule r ↦ str_eq r rule_id | _ ↦ false ]

abbrev pub names_axis : CompatibilityAxis → BudgetEntry → Bool
names_axis a e = elim e.scope [ axis b ↦ axis_equal b a | _ ↦ false ]

-- What the scopes have claimed; the map from an axis is a list in the order of its keys' arrival.
pub record Claims : Type 0 where
  pub claimed_by_rule : List ReportedFinding
  pub claimed_by_axis : List (String × List ReportedFinding)
  pub unclaimed : List ReportedFinding

-- `map.entry(key).or_default().push(finding)`
unfoldable pub push_under :
    String
    → ReportedFinding
    → List (String × List ReportedFinding)
    → List (String × List ReportedFinding)
push_under k f [] = (k, f ∷ []) ∷ []
push_under k f ((j, fs) ∷ m) =
    let rest = push_under k f m in if str_eq j k then (j, fs ++ f ∷ []) ∷ m else (j, fs) ∷ rest

-- `map.get(key)`, and an empty list where there is none.
unfoldable pub pool_of : String → List (String × List ReportedFinding) → List ReportedFinding
pool_of k [] = []
pool_of k ((j, fs) ∷ m) = let rest = pool_of k m in if str_eq j k then fs else rest

-- One round of the loop over the findings.
unfoldable pub claim : List BudgetEntry → List BudgetEntry → Claims → ReportedFinding → Claims
unfolding push_under axis_label
claim rule_entries axis_entries s f =
    if any (names_rule f.rule_id) rule_entries
    then record s { claimed_by_rule = s.claimed_by_rule ++ f ∷ [] }
    else elim (find (λ a. any (names_axis a) axis_entries) f.axes) [
      | some a ↦ record s { claimed_by_axis = push_under (axis_label a) f s.claimed_by_axis }
      | none ↦ record s { unclaimed = s.unclaimed ++ f ∷ [] }
    ]

unfoldable pub claim_all :
    List BudgetEntry → List BudgetEntry → Claims → List ReportedFinding → Claims
unfolding claim
claim_all rule_entries axis_entries s [] = s
claim_all rule_entries axis_entries s (f ∷ fs) =
    claim_all rule_entries axis_entries (claim rule_entries axis_entries s f) fs

abbrev pub no_claims : Claims
no_claims = record { claimed_by_rule = []; claimed_by_axis = []; unclaimed = [] }

unfoldable pub scoped_pool : Claims → BudgetScope → List ReportedFinding
unfolding pool_of axis_label
scoped_pool s global = s.unclaimed
scoped_pool s (axis a) = pool_of (axis_label a) s.claimed_by_axis
scoped_pool s (rule r) = keep (λ f. str_eq f.rule_id r) s.claimed_by_rule

-- The two filters on a pool.
abbrev pub passes_severity : Option Severity → ReportedFinding → Bool
passes_severity none f = true
passes_severity (some s) f = severity_equal s f.finding.severity

abbrev pub is_measured : BudgetEntry → ReportedFinding → Bool
is_measured e f = passes_severity e.severity f && (metric_equal e.metric raw || not f.suppressed)

abbrev pub violation : BudgetEntry → ℕ → List BudgetViolation
violation e measured =
    if ltb e.limit measured
    then record {
      scope = label e.scope;
      metric = e.metric;
      severity = e.severity;
      measured = measured;
      limit = e.limit;
    }
      ∷ []
    else []

-- The loop over the entries.
unfoldable pub violations_of : Claims → List BudgetEntry → List BudgetViolation
unfolding scoped_pool
violations_of s [] = []
violations_of s (e ∷ es) =
    violation e (count (is_measured e) (scoped_pool s e.scope)) ++ violations_of s es

unfoldable pub evaluate : List ReportedFinding → List BudgetEntry → List BudgetViolation
unfolding claim_all violations_of
evaluate findings [] = []
evaluate findings (e ∷ es) =
    let entries = e ∷ es in
    violations_of
      (claim_all (keep is_rule_entry entries) (keep is_axis_entry entries) no_claims findings)
      entries

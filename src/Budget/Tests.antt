-- ===== src/Budget/Tests.antt =====
-- Tests of the budgets, on a report with two findings of a rule and one of another.
use mathlib.Core.List.{Perm, perm_middle}
use soroban_upgrade_safeguar.Base.{
  ◌≡◌, refl, false, none, some, List, [], ◌∷◌, pos, negsuc, str_eq, format, decimal, int_text,
  map_list, String,
}
use soroban_upgrade_safeguar.Category.{critical, info, as_str}
use soroban_upgrade_safeguar.Diff.{CompatibilityAxis, source_level, event_indexer}
use soroban_upgrade_safeguar.Report.{ReportedFinding}
use soroban_upgrade_safeguar.Suppression.RuleIds.{canonical_rule_id, is_known_rule_id}
use soroban_upgrade_safeguar.Budget.{
  raw, unsuppressed, global, axis, rule, label, BudgetEntry, BudgetEntryFile,
}
use soroban_upgrade_safeguar.Budget.Evaluate.{evaluate}
use soroban_upgrade_safeguar.Budget.Evaluate.Violations.{
  charge, AreViolations, evaluate-AreViolations,
}
use soroban_upgrade_safeguar.Budget.Evaluate.Order.{evaluate-perm}
use soroban_upgrade_safeguar.Budget.Entries.{from_file_entries, scope_of, add_valid, get_seen, err}

abbrev reported : String → CompatibilityAxis → ReportedFinding
reported rule_id a = record {
  rule_id = rule_id;
  finding = record {
    severity = info;
    axes = a ∷ [];
    category = "";
    message = "";
    type_name = none;
    target = none;
    root_target = none;
    change = none;
  };
  axes = a ∷ [];
  suppressed = false;
  suppression_reason = none;
  remediation = none;
  migrated_by = none;
}

abbrev findings : List ReportedFinding
findings =
    reported "event_enum_case_added" event_indexer
    ∷ reported "event_enum_case_added" event_indexer
    ∷ reported "function_added" source_level
    ∷ []

abbrev shuffled : List ReportedFinding
shuffled =
    reported "function_added" source_level
    ∷ reported "event_enum_case_added" event_indexer
    ∷ reported "event_enum_case_added" event_indexer
    ∷ []

abbrev entries : List BudgetEntry
entries =
    record { scope = rule "event_enum_case_added"; severity = none; metric = raw; limit = 2 }
    ∷ record { scope = axis event_indexer; severity = none; metric = raw; limit = 0 }
    ∷ record { scope = global; severity = none; metric = unsuppressed; limit = 0 }
    ∷ []

-- The rule's budget holds, so the axis's is charged with nothing; the global one is exceeded.
evaluate_test : map_list (λ v. v.scope) (evaluate findings entries) ≡ "global" ∷ []
unfolding evaluate str_eq label
evaluate_test = refl

evaluate-AreViolations_example :
    AreViolations (charge entries findings) entries (evaluate findings entries)
evaluate-AreViolations_example = evaluate-AreViolations findings entries

shuffled-perm : Perm findings shuffled
shuffled-perm =
    perm_middle
      (reported "event_enum_case_added" event_indexer
        ∷ reported "event_enum_case_added" event_indexer
        ∷ [])
      []

evaluate-perm_example : evaluate findings entries ≡ evaluate shuffled entries
evaluate-perm_example = evaluate-perm entries shuffled-perm

abbrev tables : List BudgetEntryFile
tables =
    record {
      scope = "rule";
      axis = none;
      rule_id = some "function_added";
      severity = some critical;
      metric = none;
      limit = pos 3;
    }
    ∷ record {
      scope = "global";
      axis = none;
      rule_id = none;
      severity = none;
      metric = none;
      limit = negsuc 0;
    }
    ∷ []

negative_limit_test :
    from_file_entries tables ≡ err ("budget #2: limit must not be negative (got -1)" ∷ [])
unfolding from_file_entries scope_of str_eq is_known_rule_id canonical_rule_id as_str add_valid
    get_seen format decimal int_text
negative_limit_test = refl

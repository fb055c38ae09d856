-- ===== src/Budget/Entries/Rules.antt =====
-- What the entries of a configuration of src/budget.rs stand for, without its messages.
use soroban_upgrade_safeguar.Base.{
  Option, none, some, List, [], ◌∷◌, Bool, true, false, not, ◌&&◌, str_eq, if◌then◌else◌,
  is_negative, ◌≡◌, Every,
}
use soroban_upgrade_safeguar.Suppression.RuleIds.{is_known_rule_id, is_empty}
use soroban_upgrade_safeguar.Budget.{BudgetScope, global, axis, rule, BudgetEntry, BudgetEntryFile}
use soroban_upgrade_safeguar.Budget.Entries.{valid_entry, ConfigResult, ok, err}

-- The scope that an entry names, if its fields are those of the scope and its rule is known.
abbrev pub named_scope : BudgetEntryFile → Option BudgetScope
named_scope e =
    if str_eq e.scope "global"
    then some global
    else if str_eq e.scope "axis"
    then elim e.axis [ some a ↦ some (axis a) | none ↦ none ]
    else if str_eq e.scope "rule"
    then elim e.rule_id [
      | some r ↦ if not (is_empty r) && is_known_rule_id r then some (rule r) else none
      | none ↦ none
    ]
    else none

-- The budget that an entry stands for: it names a scope, and its limit is not negative.
abbrev pub intended : BudgetEntryFile → Option BudgetEntry
intended e = elim (named_scope e) [
  | some scope ↦ if is_negative e.limit then none else some (valid_entry e scope)
  | none ↦ none
]

abbrev pub all_intended : List BudgetEntryFile → Option (List BudgetEntry)
all_intended [] = some []
all_intended (e ∷ es) = elim (intended e) [
  | some b ↦ elim (all_intended es) [ some bs ↦ some (b ∷ bs) | none ↦ none ]
  | none ↦ none
]

-- Two budgets for one scope and severity have one metric and one limit.
abbrev pub Agrees : BudgetEntry → BudgetEntry → Type 0
Agrees a b =
    a.scope ≡ b.scope → a.severity ≡ b.severity → (a.metric ≡ b.metric) × (a.limit ≡ b.limit)

abbrev pub IsConsistent : List BudgetEntry → Type 0
IsConsistent [] = Unit
IsConsistent (b ∷ bs) = Every (Agrees b) bs × IsConsistent bs

abbrev pub is_ok : ConfigResult → Bool
is_ok (ok es) = true
is_ok (err es) = false

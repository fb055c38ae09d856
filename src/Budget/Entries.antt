-- ===== src/Budget/Entries.antt =====
-- `BudgetConfig::from_file_entries` of src/budget.rs: the validation of the configured entries.
pub mod Rules
pub mod Settings
pub mod Loop
pub mod Validity
use soroban_upgrade_safeguar.Base.{
  ℕ, zero, suc, ◌+◌, String, Option, none, some, List, [], ◌∷◌, ◌++◌, Bool, true, false, not, ◌&&◌,
  ◌||◌, ◌==◌, format, decimal, str_eq, opt_str_eq, if◌then◌else◌, push_if, unwrap_or, ℤ,
  is_negative, to_usize, int_text,
}
use soroban_upgrade_safeguar.Category.{Severity, critical, warning, info}
use soroban_upgrade_safeguar.Suppression.RuleIds.{is_known_rule_id, is_empty}
use soroban_upgrade_safeguar.Budget.{
  BudgetMetric, raw, unsuppressed, BudgetScope, global, axis, rule, label, BudgetEntry,
  BudgetEntryFile, metric_equal,
}

-- What the `match` on the scope does: it finds the scope, or pushes a message.
pub data ScopeResult : Type 0 where
  found : BudgetScope → ScopeResult
  refused : String → ScopeResult

abbrev pub budget_error : ℕ → List String → String
budget_error position parts = format ("budget #" ∷ decimal position ∷ ": " ∷ parts)

abbrev pub rule_scope : ℕ → Option String → ScopeResult
rule_scope position none =
    refused (budget_error position ("scope = \"rule\" requires a `rule_id` field" ∷ []))
rule_scope position (some rule_id) =
    if is_empty rule_id
    then refused (budget_error position ("scope = \"rule\" requires a `rule_id` field" ∷ []))
    else if is_known_rule_id rule_id
    then found (rule rule_id)
    else refused (budget_error position ("unknown rule_id '" ∷ rule_id ∷ "'" ∷ []))

unfoldable pub scope_of : ℕ → BudgetEntryFile → ScopeResult
scope_of position e =
    if str_eq e.scope "global"
    then found global
    else if str_eq e.scope "axis"
    then elim e.axis [
      | some a ↦ found (axis a)
      | none ↦ refused (budget_error position ("scope = \"axis\" requires an `axis` field" ∷ []))
    ]
    else if str_eq e.scope "rule"
    then rule_scope position e.rule_id
    else refused (
        budget_error position
          ("unknown scope '" ∷ e.scope ∷ "' (expected \"global\", \"axis\", or \"rule\")" ∷ []))

-- `severity_key`
unfoldable pub severity_key : Option Severity → Option String
severity_key none = none
severity_key (some critical) = some "critical"
severity_key (some warning) = some "warning"
severity_key (some info) = some "info"

-- A severity as `{:?}` prints it.
unfoldable pub severity_text : Severity → String
severity_text critical = "Critical"
severity_text warning = "Warning"
severity_text info = "Info"

abbrev pub Key : Type 0
Key = String × Option String

abbrev pub key_equal : Key → Key → Bool
key_equal k l = str_eq k.0 l.0 && opt_str_eq k.1 l.1

abbrev pub Setting : Type 0
Setting = BudgetMetric × ℕ

abbrev pub Seen : Type 0
Seen = List (Key × Setting)

-- `seen.get(&key)`
unfoldable pub get_seen : Key → Seen → Option Setting
get_seen k [] = none
get_seen k ((j, s) ∷ m) = let rest = get_seen k m in if key_equal j k then some s else rest

abbrev pub setting_equal : Setting → Setting → Bool
setting_equal s t = metric_equal s.0 t.0 && s.1 == t.1

pub record Validation : Type 0 where
  pub errors : List String
  pub entries : List BudgetEntry
  pub seen : Seen

unfoldable pub contradiction : ℕ → Option Severity → String
contradiction position severity = budget_error position (
    "contradicts an earlier budget for the same scope"
    ∷ elim severity [ none ↦ "" | some s ↦ format (" and severity (" ∷ severity_text s ∷ ")" ∷ []) ]
    ∷ " -- one entry per (scope, severity) pair, please combine them"
    ∷ [])

abbrev pub entry_key : BudgetEntry → Key
entry_key e = (label e.scope, severity_key e.severity)

-- The `match` on the entry that was seen under the same key.
unfoldable pub add_valid : ℕ → BudgetEntry → Validation → Validation
add_valid position e v = elim (get_seen (entry_key e) v.seen) [
  | some s ↦
      if not (setting_equal s (e.metric, e.limit))
      then record v { errors = v.errors ++ contradiction position e.severity ∷ [] }
      else v
  | none ↦ record v {
    seen = v.seen ++ (entry_key e, (e.metric, e.limit)) ∷ [];
    entries = v.entries ++ e ∷ [];
  }
]

abbrev pub valid_entry : BudgetEntryFile → BudgetScope → BudgetEntry
valid_entry e scope = record {
  scope = scope;
  severity = e.severity;
  metric = unwrap_or e.metric unsuppressed;
  limit = to_usize e.limit;
}

abbrev pub limit_errors : ℕ → BudgetEntryFile → List String
limit_errors position e =
    push_if (is_negative e.limit)
      (budget_error position ("limit must not be negative (got " ∷ int_text e.limit ∷ ")" ∷ []))

-- What follows the `match` on the scope.
abbrev pub add_scoped : ScopeResult → ℕ → BudgetEntryFile → Validation → Validation
add_scoped (refused message) position e v = record v {
  errors = v.errors ++ (message ∷ limit_errors position e);
}
add_scoped (found scope) position e v =
    if is_negative e.limit
    then record v { errors = v.errors ++ limit_errors position e }
    else add_valid position (valid_entry e scope) v

-- One round of the loop, for the entry at this position.
unfoldable pub add_file_entry : ℕ → BudgetEntryFile → Validation → Validation
add_file_entry position e v = add_scoped (scope_of position e) position e v

unfoldable pub add_file_entries : ℕ → List BudgetEntryFile → Validation → Validation
unfolding add_file_entry
add_file_entries index [] v = v
add_file_entries index (e ∷ es) v = add_file_entries (suc index) es (add_file_entry (index + 1) e v)

pub data ConfigResult : Type 0 where
  ok : List BudgetEntry → ConfigResult
  err : List String → ConfigResult

abbrev pub empty_validation : Validation
empty_validation = record { errors = []; entries = []; seen = [] }

abbrev pub conclude : Validation → ConfigResult
conclude v = elim v.errors [ [] ↦ ok v.entries | e ∷ es ↦ err v.errors ]

unfoldable pub from_file_entries : List BudgetEntryFile → ConfigResult
unfolding add_file_entries
from_file_entries es = conclude (add_file_entries 0 es empty_validation)

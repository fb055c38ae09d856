-- ===== src/Budget/Entries/Validity.antt =====
-- When the configured budgets of src/budget.rs are accepted.
use soroban_upgrade_safeguar.Base.{List, [], ◌∷◌, Bool, true, ◌&&◌, all}
use soroban_upgrade_safeguar.Budget.{BudgetEntry}
use soroban_upgrade_safeguar.Budget.Entries.Settings.{agrees}

consistent : List BudgetEntry → Bool
consistent [] = true
consistent (b ∷ bs) = all (agrees b) bs && consistent bs

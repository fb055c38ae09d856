-- ===== src/Budget/Entries/Loop.antt =====
-- The loop over the entries of a configuration: when it pushes no message.
use soroban_upgrade_safeguar.Base.{
  ℕ, suc, ◌+◌, String, Option, none, some, List, [], ◌∷◌, ◌++◌, Bool, true, false, ◌&&◌, ◌≡◌, refl,
  ap, sym, ◌∙◌, arith, Bool-cases, inl, inr, Option-cases, and_false,
}
use soroban_upgrade_safeguar.Budget.{BudgetScope, BudgetEntry, BudgetEntryFile}
use soroban_upgrade_safeguar.Budget.Entries.{
  ScopeResult, found, refused, scope_of, Seen, Validation, add_valid, valid_entry, limit_errors,
  add_file_entry, add_scoped, contradiction, add_file_entries,
}
use soroban_upgrade_safeguar.Budget.Entries.Rules.{named_scope, intended, all_intended}
use soroban_upgrade_safeguar.Budget.Entries.Settings.{fits, extend}

unfoldable pub as_option : ScopeResult → Option BudgetScope
as_option (found s) = some s
as_option (refused m) = none

pub scope_of-named :
    (position : ℕ) (e : BudgetEntryFile) → as_option (scope_of position e) ≡ named_scope e
unfolding as_option scope_of
scope_of-named position e = ground arith

unfoldable pub is_nil : List String → Bool
is_nil [] = true
is_nil (x ∷ xs) = false

pub is_nil-append : (xs ys : List String) → is_nil (xs ++ ys) ≡ (is_nil xs && is_nil ys)
unfolding is_nil
is_nil-append [] ys = refl
is_nil-append (x ∷ xs) ys = refl

unfoldable pub all_fit : Seen → List BudgetEntry → Bool
unfolding fits extend
all_fit m [] = true
all_fit m (b ∷ bs) = fits m b && all_fit (extend m b) bs

unfoldable pub fits_intended : Seen → Option (List BudgetEntry) → Bool
unfolding all_fit
fits_intended m none = false
fits_intended m (some bs) = all_fit m bs

module _ (position : ℕ) (e : BudgetEntryFile) (v : Validation) where
  add_scoped-none :
      (r : ScopeResult)
      → as_option r ≡ named_scope e
      → intended e ≡ none
      → is_nil (add_scoped r position e v).errors ≡ false
  unfolding is_nil as_option
  add_scoped-none (refused m) h k =
      ground (arith, is_nil-append v.errors (m ∷ limit_errors position e))
  add_scoped-none (found scope) h k =
      ground (arith, is_nil-append v.errors (limit_errors position e))

  pub add_file_entry-none : intended e ≡ none → is_nil (add_file_entry position e v).errors ≡ false
  unfolding add_file_entry
  add_file_entry-none h = add_scoped-none (scope_of position e) (scope_of-named position e) h

  add_scoped-some :
      (r : ScopeResult) (b : BudgetEntry)
      → as_option r ≡ named_scope e
      → intended e ≡ some b
      → add_scoped r position e v ≡ add_valid position b v
  unfolding as_option
  add_scoped-some (refused m) b h k = ground arith
  add_scoped-some (found scope) b h k = ground arith

  pub add_file_entry-some :
      (b : BudgetEntry) → intended e ≡ some b → add_file_entry position e v ≡ add_valid position b v
  unfolding add_file_entry
  add_file_entry-some b h = add_scoped-some (scope_of position e) b (scope_of-named position e) h

module _ (position : ℕ) (v : Validation) where
  pub add_valid-errors :
      (b : BudgetEntry)
      → is_nil (add_valid position b v).errors ≡ (is_nil v.errors && fits v.seen b)
  unfolding add_valid is_nil fits
  add_valid-errors b =
      ground (arith, is_nil-append v.errors (contradiction position b.severity ∷ []))

  pub add_valid-seen :
      (b : BudgetEntry) → fits v.seen b ≡ true → (add_valid position b v).seen ≡ extend v.seen b
  unfolding add_valid fits extend
  add_valid-seen b h = ground arith

  pub add_scoped-errors :
      (r : ScopeResult) (e : BudgetEntryFile)
      → is_nil v.errors ≡ false
      → is_nil (add_scoped r position e v).errors ≡ false
  unfolding is_nil
  add_scoped-errors (refused m) e h =
      ground (arith, is_nil-append v.errors (m ∷ limit_errors position e))
  add_scoped-errors (found scope) e h = ground (
    arith,
    is_nil-append v.errors (limit_errors position e),
    add_valid-errors (valid_entry e scope),
  )

pub add_file_entries-errors :
    (index : ℕ) (es : List BudgetEntryFile) (v : Validation)
    → is_nil v.errors ≡ false
    → is_nil (add_file_entries index es v).errors ≡ false
unfolding add_file_entries add_file_entry
add_file_entries-errors index [] v h = h
add_file_entries-errors index (e ∷ es) v h =
    add_file_entries-errors (suc index) es (add_scoped (scope_of (index + 1) e) (index + 1) e v)
      (add_scoped-errors (index + 1) v (scope_of (index + 1) e) e h)

pub fits_intended-none :
    (m : Seen) (e : BudgetEntryFile) (es : List BudgetEntryFile)
    → intended e ≡ none
    → fits_intended m (all_intended (e ∷ es)) ≡ false
unfolding fits_intended
fits_intended-none m e es h = ground arith

pub fits_intended-some :
    (m : Seen) (e : BudgetEntryFile) (es : List BudgetEntryFile) (b : BudgetEntry)
    → intended e ≡ some b
    → fits_intended m (all_intended (e ∷ es))
      ≡ (fits m b && fits_intended (extend m b) (all_intended es))
unfolding fits_intended
fits_intended-some m e es b h = elim (Option-cases (all_intended es)) [
  | inl n ↦ ground (arith, and_false (fits m b))
  | inr (bs, n) ↦ ground arith
]

-- The rest of the loop after a valid entry, by the statement about the rest.
pub add_valid-fit :
    (position index : ℕ) (b : BudgetEntry) (es : List BudgetEntryFile) (v : Validation)
    → ((w : Validation)
        → is_nil w.errors ≡ true
        → is_nil (add_file_entries index es w).errors ≡ fits_intended w.seen (all_intended es))
    → is_nil v.errors ≡ true
    → is_nil (add_file_entries index es (add_valid position b v)).errors
      ≡ (fits v.seen b && fits_intended (extend v.seen b) (all_intended es))
add_valid-fit position index b es v rest h = elim (Bool-cases (fits v.seen b)) [
  | inl f ↦ rw f (
      rest (add_valid position b v) (add_valid-errors position v b ∙ rw (h, f) refl)
      ∙ rw (add_valid-seen position v b f) refl)
  | inr f ↦ rw f (
      add_file_entries-errors index es (add_valid position b v)
        (add_valid-errors position v b ∙ rw (h, f) refl))
]

-- The loop pushes no message exactly when each entry stands for a budget that fits the others.
pub add_file_entries-fit :
    (index : ℕ) (es : List BudgetEntryFile) (v : Validation)
    → is_nil v.errors ≡ true
    → is_nil (add_file_entries index es v).errors ≡ fits_intended v.seen (all_intended es)
unfolding add_file_entries
add_file_entries-fit index [] v h = unfold fits_intended in h
add_file_entries-fit index (e ∷ es) v h = elim (Option-cases (intended e)) [
  | inl n ↦
      add_file_entries-errors (suc index) es (add_file_entry (index + 1) e v)
        (add_file_entry-none (index + 1) e v n)
      ∙ sym (fits_intended-none v.seen e es n)
  | inr (b, n) ↦
      ap (λ w. is_nil (add_file_entries (suc index) es w).errors)
        (add_file_entry-some (index + 1) e v b n)
      ∙ add_valid-fit (index + 1) (suc index) b es v
          (λ w k. add_file_entries-fit (suc index) es w k) h
      ∙ sym (fits_intended-some v.seen e es b n)
]

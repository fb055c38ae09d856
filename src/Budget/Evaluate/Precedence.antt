-- ===== src/Budget/Evaluate/Precedence.antt =====
-- A rule's budget takes precedence over an axis's, and an axis's over the global one.
use soroban_upgrade_safeguar.Base.{
  ℕ, ◌+◌, String, none, some, List, [], ◌∷◌, ◌++◌, Bool, true, false, ◌&&◌, any, keep, find, count,
  str_eq, str_eq_iff, if◌then◌else◌, ◌≡◌, refl, arith, Bool-cases, inl, inr, count-append,
  Option-cases,
}
use native.Mathlib.Nat.{zero-add}
use soroban_upgrade_safeguar.Diff.{CompatibilityAxis, axis_equal_iff}
use soroban_upgrade_safeguar.Report.{ReportedFinding}
use soroban_upgrade_safeguar.Budget.{
  BudgetScope, global, axis, rule, axis_label, BudgetEntry, scope_equal,
}
use soroban_upgrade_safeguar.Budget.Labels.{axis_label-equal}
use soroban_upgrade_safeguar.Budget.Evaluate.{
  BudgetViolation, names_rule, names_axis, is_rule_entry, is_axis_entry, Claims, push_under,
  pool_of, claim, claim_all, no_claims, scoped_pool, is_measured, violation, violations_of,
  evaluate,
}

-- The one scope that claims a finding: its rule's, else that of its first axis with a budget, else
-- the global one.
unfoldable pub claimant : List BudgetEntry → ReportedFinding → BudgetScope
claimant entries f =
    if any (names_rule f.rule_id) entries
    then rule f.rule_id
    else elim (find (λ a. any (names_axis a) entries) f.axes) [ some a ↦ axis a | none ↦ global ]

-- How many findings an entry is charged with.
unfoldable pub charged : List BudgetEntry → BudgetEntry → List ReportedFinding → ℕ
unfolding claimant
charged entries e fs = count (λ f. is_measured e f && scope_equal e.scope (claimant entries f)) fs

-- One violation for each entry that is charged with more than its limit, in the order of the entries.
unfoldable pub exceeded :
    List BudgetEntry → List BudgetEntry → List ReportedFinding → List BudgetViolation
unfolding charged
exceeded entries [] fs = []
exceeded entries (e ∷ es) fs = violation e (charged entries e fs) ++ exceeded entries es fs

any-rule_entries :
    (r : String) (es : List BudgetEntry)
    → any (names_rule r) (keep is_rule_entry es) ≡ any (names_rule r) es
any-rule_entries r [] = refl
any-rule_entries r (e ∷ es) = ground (arith, any-rule_entries r es)

any-axis_entries :
    (a : CompatibilityAxis) (es : List BudgetEntry)
    → any (names_axis a) (keep is_axis_entry es) ≡ any (names_axis a) es
any-axis_entries a [] = refl
any-axis_entries a (e ∷ es) = ground (arith, any-axis_entries a es)

find-axis_entries :
    (axes : List CompatibilityAxis) (es : List BudgetEntry)
    → find (λ a. any (names_axis a) (keep is_axis_entry es)) axes
      ≡ find (λ a. any (names_axis a) es) axes
find-axis_entries [] es = refl
find-axis_entries (a ∷ axes) es = ground (arith, find-axis_entries axes es, any-axis_entries a es)

pool_of-push_under :
    (k j : String) (f : ReportedFinding) (m : List (String × List ReportedFinding))
    → pool_of k (push_under j f m) ≡ (if str_eq j k then pool_of k m ++ f ∷ [] else pool_of k m)
unfolding pool_of push_under
pool_of-push_under k j f [] = ground arith
pool_of-push_under k j f ((i, fs) ∷ m) =
    ground (arith, pool_of-push_under k j f m, str_eq_iff i j, str_eq_iff i k, str_eq_iff j k)

keep-append {ℓ} :
    {A : Type ℓ} (t : A → Bool) (xs ys : List A) → keep t (xs ++ ys) ≡ keep t xs ++ keep t ys
keep-append t [] ys = refl
keep-append t (x ∷ xs) ys = ground (arith, keep-append t xs ys)

count-push {ℓ} :
    {A : Type ℓ} (p : A → Bool) (xs : List A) (x : A)
    → count p (xs ++ x ∷ []) ≡ count p xs + count p (x ∷ [])
count-push p xs x = count-append p xs (x ∷ [])

-- One more finding at the end of a pool, if `b` says so.
count_push_if :
    (p : ReportedFinding → Bool) (b : Bool) (xs : List ReportedFinding) (f : ReportedFinding)
    → count p (if b then xs ++ f ∷ [] else xs) ≡ count p xs + (if p f && b then 1 else 0)
count_push_if p true xs f = ground (arith, count-push p xs f)
count_push_if p false xs f = ground arith

keep_push :
    (r : String) (xs : List ReportedFinding) (f : ReportedFinding)
    → keep (λ g. str_eq g.rule_id r) (xs ++ f ∷ []) ≡ (
        if str_eq r f.rule_id
        then keep (λ g. str_eq g.rule_id r) xs ++ f ∷ []
        else keep (λ g. str_eq g.rule_id r) xs)
keep_push r [] f = ground (arith, str_eq_iff r f.rule_id, str_eq_iff f.rule_id r)
keep_push r (x ∷ xs) f = ground (arith, keep_push r xs f)

-- The pools after a finding has gone to a scope.
abbrev put : Claims → ReportedFinding → BudgetScope → Claims
put s f global = record s { unclaimed = s.unclaimed ++ f ∷ [] }
put s f (axis a) = record s { claimed_by_axis = push_under (axis_label a) f s.claimed_by_axis }
put s f (rule r) = record s { claimed_by_rule = s.claimed_by_rule ++ f ∷ [] }

claim-eq_put :
    (es : List BudgetEntry) (s : Claims) (f : ReportedFinding)
    → claim (keep is_rule_entry es) (keep is_axis_entry es) s f ≡ put s f (claimant es f)
unfolding claim claimant
claim-eq_put es s f = elim (Bool-cases (any (names_rule f.rule_id) es)) [
  | inl e ↦ rw (any-rule_entries f.rule_id es) (rw e)
  | inr e ↦ rw (any-rule_entries f.rule_id es) (
      rw e (
        rw (find-axis_entries f.axes es)
          (elim (Option-cases (find (λ a. any (names_axis a) es) f.axes)) [
            | inl n ↦ rw n
            | inr (a, n) ↦ rw n
          ])))
]

rule_pool :
    (s : Claims) (f : ReportedFinding) (scope : BudgetScope)
    → scoped_pool (put s f (rule f.rule_id)) scope ≡ (
        if scope_equal scope (rule f.rule_id)
        then scoped_pool s scope ++ f ∷ []
        else scoped_pool s scope)
unfolding scoped_pool
rule_pool s f (rule r) = keep_push r s.claimed_by_rule f
rule_pool s f _ = refl

axis_pool :
    (s : Claims) (f : ReportedFinding) (a : CompatibilityAxis) (scope : BudgetScope)
    → scoped_pool (put s f (axis a)) scope
      ≡ (if scope_equal scope (axis a) then scoped_pool s scope ++ f ∷ [] else scoped_pool s scope)
unfolding scoped_pool
axis_pool s f a (axis b) = ground (
  arith,
  pool_of-push_under (axis_label b) (axis_label a) f s.claimed_by_axis,
  axis_label-equal a b,
  axis_equal_iff a b,
  axis_equal_iff b a,
)
axis_pool s f a _ = refl

global_pool :
    (s : Claims) (f : ReportedFinding) (scope : BudgetScope)
    → scoped_pool (put s f global) scope
      ≡ (if scope_equal scope global then scoped_pool s scope ++ f ∷ [] else scoped_pool s scope)
unfolding scoped_pool
global_pool s f global = refl
global_pool s f _ = refl

no_pool :
    (scope : BudgetScope) (p : ReportedFinding → Bool) → count p (scoped_pool no_claims scope) ≡ 0
unfolding scoped_pool pool_of
no_pool global p = refl
no_pool _ p = refl

-- The pool of a scope grows by the finding exactly when the finding went to this scope.
scoped_pool-put :
    (es : List BudgetEntry) (s : Claims) (f : ReportedFinding) (scope : BudgetScope)
    → scoped_pool (put s f (claimant es f)) scope ≡ (
        if scope_equal scope (claimant es f)
        then scoped_pool s scope ++ f ∷ []
        else scoped_pool s scope)
unfolding claimant
scoped_pool-put es s f scope = elim (Bool-cases (any (names_rule f.rule_id) es)) [
  | inl e ↦ rw e (rule_pool s f scope)
  | inr e ↦ rw e (elim (Option-cases (find (λ a. any (names_axis a) es) f.axes)) [
    | inl n ↦ rw n (global_pool s f scope)
    | inr (a, n) ↦ rw n (axis_pool s f a scope)
  ])
]

claim-counts :
    (p : ReportedFinding → Bool) (es : List BudgetEntry) (s : Claims) (f : ReportedFinding)
    (scope : BudgetScope)
    → count p (scoped_pool (claim (keep is_rule_entry es) (keep is_axis_entry es) s f) scope)
      ≡ count p (scoped_pool s scope) + (if p f && scope_equal scope (claimant es f) then 1 else 0)
claim-counts p es s f scope = rw (claim-eq_put es s f) (
    rw (scoped_pool-put es s f scope)
      (count_push_if p (scope_equal scope (claimant es f)) (scoped_pool s scope) f))

claim_all-counts :
    (p : ReportedFinding → Bool) (es : List BudgetEntry) (s : Claims) (fs : List ReportedFinding)
    (scope : BudgetScope)
    → count p (scoped_pool (claim_all (keep is_rule_entry es) (keep is_axis_entry es) s fs) scope)
      ≡ count p (scoped_pool s scope) + count (λ f. p f && scope_equal scope (claimant es f)) fs
unfolding claim_all
claim_all-counts p es s [] scope = omega arith
claim_all-counts p es s (f ∷ fs) scope = ground (
  arith,
  claim_all-counts p es (claim (keep is_rule_entry es) (keep is_axis_entry es) s f) fs scope,
  claim-counts p es s f scope,
)

violations_of-claims :
    (entries es : List BudgetEntry) (fs : List ReportedFinding)
    → violations_of
        (claim_all (keep is_rule_entry entries) (keep is_axis_entry entries) no_claims fs)
        es
      ≡ exceeded entries es fs
unfolding violations_of exceeded charged
violations_of-claims entries [] fs = refl
violations_of-claims entries (e ∷ es) fs =
    rw (claim_all-counts (is_measured e) entries no_claims fs e.scope)
      (rw (no_pool e.scope (is_measured e)) (rw zero-add (rw (violations_of-claims entries es fs))))

-- The loops of the claims and of the entries come to one count for each entry.
pub evaluate-exceeded :
    (fs : List ReportedFinding) (es : List BudgetEntry) → evaluate fs es ≡ exceeded es es fs
unfolding evaluate exceeded
evaluate-exceeded fs [] = refl
evaluate-exceeded fs (e ∷ es) = unfold exceeded in violations_of-claims (e ∷ es) (e ∷ es) fs

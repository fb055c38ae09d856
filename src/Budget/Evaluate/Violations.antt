-- ===== src/Budget/Evaluate/Violations.antt =====
-- What src/budget.rs promises of an evaluation: each finding counts towards one scope, and an entry
-- is in violation when more findings count towards it than its limit allows.
use soroban_upgrade_safeguar.Base.{
  ℕ, ◌<◌, ◌≤◌, ◌≡◌, refl, sym, String, Option, none, some, List, [], ◌∷◌, Bool, true, false, not,
  ◌&&◌, ◌||◌, any, find, count, ltb, ltb→lt, ltb-false→le, if◌then◌else◌, Bool-cases, inl, inr,
  subst, str_eq, suc,
}
use soroban_upgrade_safeguar.Category.{Severity}
use soroban_upgrade_safeguar.Diff.{CompatibilityAxis, axis_equal}
use soroban_upgrade_safeguar.Report.{ReportedFinding}
use soroban_upgrade_safeguar.Budget.{
  BudgetMetric, raw, unsuppressed, BudgetScope, global, axis, rule, label, BudgetEntry, scope_equal,
  severity_equal, metric_equal,
}
use soroban_upgrade_safeguar.Budget.Evaluate.{
  BudgetViolation, names_rule, names_axis, is_measured, passes_severity, evaluate,
}
use soroban_upgrade_safeguar.Budget.Evaluate.Precedence.{
  claimant, charged, exceeded, evaluate-exceeded,
}

abbrev pub has_budget : List BudgetEntry → BudgetScope → Bool
has_budget entries scope = any (λ e. scope_equal e.scope scope) entries

-- The scope that a finding counts towards: its rule if the rule has a budget, else the first of its
-- axes that has one, else the global scope.
unfoldable pub narrowest : List BudgetEntry → ReportedFinding → BudgetScope
narrowest entries f =
    if has_budget entries (rule f.rule_id)
    then rule f.rule_id
    else elim (find (λ a. has_budget entries (axis a)) f.axes) [ some a ↦ axis a | none ↦ global ]

-- The metric `unsuppressed` leaves suppressed findings out.
abbrev pub is_counted : BudgetMetric → (suppressed : Bool) → Bool
is_counted raw suppressed = true
is_counted unsuppressed suppressed = not suppressed

abbrev pub is_of_severity : Option Severity → Severity → Bool
is_of_severity none s = true
is_of_severity (some wanted) s = severity_equal wanted s

abbrev pub counts_towards : List BudgetEntry → BudgetEntry → ReportedFinding → Bool
counts_towards entries e f =
    (is_of_severity e.severity f.finding.severity && is_counted e.metric f.suppressed)
    && scope_equal e.scope (narrowest entries f)

-- How many findings count towards an entry.
unfoldable pub charge : List BudgetEntry → List ReportedFinding → BudgetEntry → ℕ
unfolding narrowest
charge entries fs e = count (counts_towards entries e) fs

-- The violations of these entries, in their order.
pub data AreViolations (measure : BudgetEntry → ℕ)
    : List BudgetEntry → List BudgetViolation → Type 0 where
  all_checked : AreViolations measure [] []
  over_limit :
      (e : BudgetEntry) (es : List BudgetEntry) (vs : List BudgetViolation)
      → e.limit < measure e
      → AreViolations measure es vs
      → AreViolations measure (e ∷ es) (
          record {
            scope = label e.scope;
            metric = e.metric;
            severity = e.severity;
            measured = measure e;
            limit = e.limit;
          }
          ∷ vs)
  within_limit :
      (e : BudgetEntry) (es : List BudgetEntry) (vs : List BudgetViolation)
      → measure e ≤ e.limit
      → AreViolations measure es vs
      → AreViolations measure (e ∷ es) vs

names_rule-scope : (r : String) (e : BudgetEntry) → names_rule r e ≡ scope_equal e.scope (rule r)
names_rule-scope r e =
    elim e.scope as (λ s. elim s [ rule q ↦ str_eq q r | _ ↦ false ] ≡ scope_equal s (rule r)) [
      | global ↦ refl
      | axis a ↦ refl
      | rule q ↦ refl
    ]

names_axis-scope :
    (a : CompatibilityAxis) (e : BudgetEntry) → names_axis a e ≡ scope_equal e.scope (axis a)
names_axis-scope a e =
    elim e.scope as (λ s. elim s [ axis b ↦ axis_equal b a | _ ↦ false ] ≡ scope_equal s (axis a)) [
      | global ↦ refl
      | axis b ↦ refl
      | rule q ↦ refl
    ]

any-cong {ℓ} :
    {A : Type ℓ} (p q : A → Bool) (xs : List A) → ((x : A) → p x ≡ q x) → any p xs ≡ any q xs
any-cong p q [] h = refl
any-cong p q (x ∷ xs) h = λ i. h x i || any-cong p q xs h i

find-cong {ℓ} :
    {A : Type ℓ} (p q : A → Bool) (xs : List A) → ((x : A) → p x ≡ q x) → find p xs ≡ find q xs
find-cong p q [] h = refl
find-cong p q (x ∷ xs) h = λ i. if h x i then some x else find-cong p q xs h i

count-cong {ℓ} :
    {A : Type ℓ} (p q : A → Bool) (xs : List A) → ((x : A) → p x ≡ q x) → count p xs ≡ count q xs
count-cong p q [] h = refl
count-cong p q (x ∷ xs) h =
    λ i. if h x i then suc (count-cong p q xs h i) else count-cong p q xs h i

narrowest-claimant : (es : List BudgetEntry) (f : ReportedFinding) → claimant es f ≡ narrowest es f
unfolding claimant narrowest
narrowest-claimant es f = λ i.
    if any-cong (names_rule f.rule_id) (λ e. scope_equal e.scope (rule f.rule_id)) es
      (names_rule-scope f.rule_id) i
    then rule f.rule_id
    else elim (find-cong (λ a. any (names_axis a) es) (λ a. has_budget es (axis a)) f.axes
        (λ a. any-cong (names_axis a) (λ e. scope_equal e.scope (axis a)) es (names_axis-scope a))
        i) [ some a ↦ axis a | none ↦ global ]

metric_is_counted : (m : BudgetMetric) (b : Bool) → (metric_equal m raw || not b) ≡ is_counted m b
metric_is_counted raw b = refl
metric_is_counted unsuppressed b = refl

severity_passes :
    (o : Option Severity) (f : ReportedFinding)
    → passes_severity o f ≡ is_of_severity o f.finding.severity
severity_passes none f = refl
severity_passes (some s) f = refl

charged-charge :
    (es : List BudgetEntry) (e : BudgetEntry) (fs : List ReportedFinding)
    → charged es e fs ≡ charge es fs e
unfolding charged charge
charged-charge es e fs =
    count-cong (λ f. is_measured e f && scope_equal e.scope (claimant es f)) (counts_towards es e)
      fs
      (λ f i.
        (severity_passes e.severity f i && metric_is_counted e.metric f.suppressed i)
        && scope_equal e.scope (narrowest-claimant es f i))

exceeded-AreViolations :
    (entries es : List BudgetEntry) (fs : List ReportedFinding)
    → AreViolations (charge entries fs) es (exceeded entries es fs)
unfolding exceeded
exceeded-AreViolations entries [] fs = all_checked
exceeded-AreViolations entries (e ∷ es) fs =
    rw (charged-charge entries e fs) (elim (Bool-cases (ltb e.limit (charge entries fs e))) [
      | inl h ↦ rw h (
          over_limit e es _ (ltb→lt e.limit (charge entries fs e) h)
            (exceeded-AreViolations entries es fs))
      | inr h ↦ rw h (
          within_limit e es _ (ltb-false→le e.limit (charge entries fs e) h)
            (exceeded-AreViolations entries es fs))
    ])

-- Every finding counts towards one scope: its rule if the rule has a budget, else the first of its
-- axes that has one, else the global scope. An entry, whose metric and severity may leave findings
-- of its scope out, is in violation exactly when more of them count towards it than its limit.
pub evaluate-AreViolations :
    (fs : List ReportedFinding) (es : List BudgetEntry)
    → AreViolations (charge es fs) es (evaluate fs es)
evaluate-AreViolations fs es =
    subst (AreViolations (charge es fs) es) (sym (evaluate-exceeded fs es))
      (exceeded-AreViolations es es fs)

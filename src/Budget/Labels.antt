-- ===== src/Budget/Labels.antt =====
-- The labels of the scopes of src/budget.rs, and the keys of severities, are distinct.
use Prim.Native.Char.{code}
use text.Mathlib.TextLemmas.{append_cancel_left, cons-append, append-nil}
use soroban_upgrade_safeguar.Base.{
  ℕ, String, Option, none, some, str_eq, str_eq_iff, ◌≡◌, refl, ap, sym, ◌∙◌, arith, format, [],
  ◌∷◌, if◌then◌else◌,
}
use soroban_upgrade_safeguar.Category.{Severity, critical, warning, info}
use soroban_upgrade_safeguar.Diff.{
  CompatibilityAxis, storage_layout, call_abi, event_indexer, source_level, runtime_surface,
  axis_equal, axis_equal_iff,
}
use soroban_upgrade_safeguar.Budget.{BudgetScope, global, axis, rule, axis_label, label}
use soroban_upgrade_safeguar.Budget.Entries.{severity_key}

pub axis_label-equal :
    (a b : CompatibilityAxis) → str_eq (axis_label a) (axis_label b) ≡ axis_equal a b
unfolding axis_label str_eq
axis_label-equal storage_layout storage_layout = refl
axis_label-equal call_abi storage_layout = refl
axis_label-equal event_indexer storage_layout = refl
axis_label-equal source_level storage_layout = refl
axis_label-equal runtime_surface storage_layout = refl
axis_label-equal storage_layout _ = refl
axis_label-equal call_abi _ = refl
axis_label-equal event_indexer _ = refl
axis_label-equal source_level _ = refl
axis_label-equal runtime_surface _ = refl

axis_label-injective : (a b : CompatibilityAxis) → axis_label a ≡ axis_label b → a ≡ b
axis_label-injective a b h =
    (axis_equal_iff a b).0
      (sym (axis_label-equal a b) ∙ (str_eq_iff (axis_label a) (axis_label b)).1 h)

-- The first character tells the kinds of scope apart.
abbrev first : String → ℕ
first String.[] = 0
first (String.◌∷◌ c s) = code c

abbrev kind : BudgetScope → ℕ
kind global = b'g'
kind (axis a) = b'a'
kind (rule r) = b'r'

first-label : (s : BudgetScope) → first (label s) ≡ kind s
unfolding label
first-label global = refl
first-label (axis a) = ap first (cons-append "a" "xis:" (format (axis_label a ∷ [])))
first-label (rule r) = ap first (cons-append "r" "ule:" (format (r ∷ [])))

format-injective : (s t : String) → format (s ∷ []) ≡ format (t ∷ []) → s ≡ t
unfolding format
format-injective s t h = cc (append-nil s, append-nil t)

pub label-injective : (s t : BudgetScope) → label s ≡ label t → s ≡ t
unfolding label
label-injective global global h = refl
label-injective (axis a) (axis b) h = ap axis (
    axis_label-injective a b
      (format-injective (axis_label a) (axis_label b) (append_cancel_left "axis:" _ _ h)))
label-injective (rule r) (rule s) h =
    ap rule (format-injective r s (append_cancel_left "rule:" _ _ h))
label-injective s t h = absurd (omega (arith, first-label s, first-label t, ap first h))

abbrev of_key : Option String → Option Severity
of_key none = none
of_key (some k) =
    if str_eq k "critical"
    then some critical
    else if str_eq k "warning"
    then some warning
    else some info

of_key-severity_key : (s : Option Severity) → of_key (severity_key s) ≡ s
unfolding severity_key str_eq
of_key-severity_key none = refl
of_key-severity_key (some critical) = refl
of_key-severity_key (some _) = refl

pub severity_key-injective : (s t : Option Severity) → severity_key s ≡ severity_key t → s ≡ t
severity_key-injective s t h = cc (of_key-severity_key s, of_key-severity_key t, ap of_key h)

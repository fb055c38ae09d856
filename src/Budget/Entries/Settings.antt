-- ===== src/Budget/Entries/Settings.antt =====
-- What was seen under a key, and when a new entry agrees with it.
use soroban_upgrade_safeguar.Base.{
  Option, none, some, [], ◌∷◌, ◌++◌, Bool, true, not, ◌&&◌, ◌||◌, ==_iff, str_eq_iff,
  opt_str_eq_iff, if◌then◌else◌, ◌≡◌, ◌↔◌, refl, ap, sym, ◌∙◌, arith, Bool-cases, inl, inr,
  implies_iff, and_true, and_self,
}
use soroban_upgrade_safeguar.Budget.{label, BudgetEntry}
use soroban_upgrade_safeguar.Budget.Labels.{label-injective, severity_key-injective}
use soroban_upgrade_safeguar.Budget.Entries.{
  severity_key, Key, key_equal, Setting, Seen, get_seen, setting_equal, entry_key,
}
use soroban_upgrade_safeguar.Budget.Entries.Rules.{Agrees}

-- Whether a setting agrees with what was seen under its key, and what is seen after it.
unfoldable pub fits_at : Option Setting → Setting → Bool
fits_at none t = true
fits_at (some s) t = setting_equal s t

unfoldable pub extended : Option Setting → Key → Setting → Seen → Seen
extended none k t m = m ++ (k, t) ∷ []
extended (some s) k t m = m

abbrev pub setting_of : BudgetEntry → Setting
setting_of b = (b.metric, b.limit)

unfoldable pub fits : Seen → BudgetEntry → Bool
unfolding fits_at
fits m b = fits_at (get_seen (entry_key b) m) (setting_of b)

unfoldable pub extend : Seen → BudgetEntry → Seen
unfolding extended
extend m b = extended (get_seen (entry_key b) m) (entry_key b) (setting_of b) m

pub key_equal_iff : (k l : Key) → (key_equal k l ≡ true) ↔ (k ≡ l)
key_equal_iff (a, s) (b, t) = ground (arith, str_eq_iff a b, opt_str_eq_iff s t)

pub setting_equal_iff : (s t : Setting) → (setting_equal s t ≡ true) ↔ (s ≡ t)
setting_equal_iff (m, a) (n, b) = ground (arith, ==_iff a b)

-- A setting that is new under its key.
pub get_seen-new :
    (k j : Key) (s : Setting) (m : Seen)
    → get_seen j m ≡ none
    → get_seen k (m ++ (j, s) ∷ []) ≡ (if key_equal j k then some s else get_seen k m)
unfolding get_seen
get_seen-new k j s [] n = ground arith
get_seen-new k j s ((i, t) ∷ m) n =
    ground (arith, get_seen-new k j s m, key_equal_iff i k, key_equal_iff j k, key_equal_iff i j)

-- Two entries with one key have one setting.
unfoldable pub agrees : BudgetEntry → BudgetEntry → Bool
agrees a b =
    not (key_equal (entry_key a) (entry_key b))
    || setting_equal (a.metric, a.limit) (b.metric, b.limit)

-- What an entry makes of the setting under another key.
pub fits_at-new :
    (k j : Key) (s t : Setting) (m : Seen)
    → get_seen j m ≡ none
    → fits_at (get_seen k (m ++ (j, s) ∷ [])) t
      ≡ (fits_at (get_seen k m) t && (not (key_equal j k) || setting_equal s t))
unfolding fits_at
fits_at-new k j s t m n = elim (Bool-cases (key_equal j k)) [
  | inl e ↦ rw (get_seen-new k j s m n) (rw (e, ← (key_equal_iff j k).0 e, n) refl)
  | inr e ↦ rw (get_seen-new k j s m n) (rw e (sym (and_true (fits_at (get_seen k m) t))))
]

pub fits_at-old :
    (k j : Key) (s t : Setting) (m : Seen)
    → get_seen j m ≡ some s
    → fits_at (get_seen k m) t
      ≡ (fits_at (get_seen k m) t && (not (key_equal j k) || setting_equal s t))
unfolding fits_at
fits_at-old k j s t m n = elim (Bool-cases (key_equal j k)) [
  | inl e ↦ rw (e, ← (key_equal_iff j k).0 e, n) (sym (and_self (setting_equal s t)))
  | inr e ↦ rw e (sym (and_true (fits_at (get_seen k m) t)))
]

pub fits_at-extended :
    (o : Option Setting) (k j : Key) (s t : Setting) (m : Seen)
    → get_seen j m ≡ o
    → fits_at o s ≡ true
    → fits_at (get_seen k (extended o j s m)) t
      ≡ (fits_at (get_seen k m) t && (not (key_equal j k) || setting_equal s t))
unfolding fits_at extended
fits_at-extended none k j s t m n h = fits_at-new k j s t m n
fits_at-extended (some u) k j s t m n h =
    fits_at-old k j s t m (n ∙ ap some ((setting_equal_iff u s).0 h))

pub fits-extend :
    (m : Seen) (a b : BudgetEntry)
    → fits m a ≡ true
    → fits (extend m a) b ≡ (fits m b && agrees a b)
unfolding fits extend agrees
fits-extend m a b h =
    fits_at-extended (get_seen (entry_key a) m) (entry_key b) (entry_key a) (setting_of a)
      (setting_of b) m refl h

pub same_setting :
    (a b : BudgetEntry)
    → (setting_of a ≡ setting_of b) ↔ ((a.metric ≡ b.metric) × (a.limit ≡ b.limit))
same_setting a b =
    ((λ e. (ap (λ (s : Setting). s.0) e, ap (λ (s : Setting). s.1) e)), (λ t. λ i. (t.0 i, t.1 i)))

pub same_key :
    (a b : BudgetEntry)
    → (entry_key a ≡ entry_key b) ↔ ((a.scope ≡ b.scope) × (a.severity ≡ b.severity))
same_key a b = (
  (λ e. (
    label-injective a.scope b.scope (ap (λ (k : Key). k.0) e),
    severity_key-injective a.severity b.severity (ap (λ (k : Key). k.1) e),
  )),
  (λ t. λ i. (label (t.0 i), severity_key (t.1 i))),
)

pub agrees_iff : (a b : BudgetEntry) → (agrees a b ≡ true) ↔ Agrees a b
unfolding agrees
agrees_iff a b = (
  (λ h p q. (same_setting a b).0 (
      (setting_equal_iff (setting_of a) (setting_of b)).0 (
        (implies_iff _ _).0 h
          ((key_equal_iff (entry_key a) (entry_key b)).1 ((same_key a b).1 (p, q)))))),
  (λ h. (implies_iff _ _).1 (λ e.
      let k = (same_key a b).0 ((key_equal_iff (entry_key a) (entry_key b)).0 e) in
      (setting_equal_iff (setting_of a) (setting_of b)).1 ((same_setting a b).1 (h k.0 k.1)))),
)

-- ===== src/ContractMigration/Inheritance.antt =====
-- The loop of `inherit_through_cascades` of src/contract_migration.rs gives every finding the
-- coverage that it has by itself: one pass is enough, in any order.
use soroban_upgrade_safeguar.Base.{
  ℕ, ◌+◌, String, Option, none, some, List, [], ◌∷◌, ◌++◌, Bool, true, not, ◌&&◌, ◌||◌, ◌==◌, ltb,
  if◌then◌else◌, is_some, opt_str_eq, ◌≤◌, map_list, find, any, all, count, str_eq, str_eq_iff, ◌≡◌,
  refl, ap, sym, ◌∙◌, arith, append-nil, append_assoc, Bool-cases, Option-cases, and-true_iff, inl,
  inr,
}
use soroban_upgrade_safeguar.ContractMigration.{FindingCoverage, needs_migration, is_about}
use soroban_upgrade_safeguar.ContractMigration.Cascades.{
  Covered, Totals, one_if, add_total, count_finding, totals_of, is_migrated, is_attributable,
  inherited, inherit_one, inherit_loop, inherit_through_cascades,
}

-- A breaking finding on the root.
abbrev pub breaks_root : String → Covered → Bool
breaks_root root p = is_about root p.0 && needs_migration p.0

-- The root has breaking findings, and each of them is covered.
abbrev pub is_fully_migrated : String → List Covered → Bool
is_fully_migrated root fs =
    any (breaks_root root) fs && all (λ p. not (breaks_root root p) || is_some p.1) fs

-- A finding's own coverage, or what it inherits from its root.
abbrev pub final_coverage : List Covered → Covered → Option FindingCoverage
final_coverage fs (f, some c) = some c
final_coverage fs (f, none) = elim f.root_target [
  | none ↦ none
  | some root ↦
      if is_fully_migrated root fs then inherited root (find (is_attributable root) fs) else none
]

-- The two numbers of a root.
total : String → Totals → ℕ
total root [] = 0
total root ((j, (n, k)) ∷ m) = if str_eq j root then n else total root m

covered_total : String → Totals → ℕ
covered_total root [] = 0
covered_total root ((j, (n, k)) ∷ m) = if str_eq j root then k else covered_total root m

is_migrated-totals :
    (root : String) (m : Totals)
    → is_migrated root m ≡ (ltb 0 (total root m) && total root m == covered_total root m)
unfolding is_migrated total covered_total
is_migrated-totals root [] = refl
is_migrated-totals root ((j, (n, k)) ∷ m) = ground (arith, is_migrated-totals root m)

total-add_total :
    (root t : String) (b : Bool) (m : Totals)
    → total root (add_total t b m) ≡ total root m + one_if (str_eq t root)
unfolding total add_total
total-add_total root t b [] = ground arith
total-add_total root t b ((j, (n, k)) ∷ m) =
    ground (arith, total-add_total root t b m, str_eq_iff j t, str_eq_iff j root, str_eq_iff t root)

covered_total-add_total :
    (root t : String) (b : Bool) (m : Totals)
    → covered_total root (add_total t b m) ≡ covered_total root m + one_if (str_eq t root && b)
unfolding covered_total add_total
covered_total-add_total root t b [] = ground arith
covered_total-add_total root t b ((j, (n, k)) ∷ m) = ground (
  arith,
  covered_total-add_total root t b m,
  str_eq_iff j t,
  str_eq_iff j root,
  str_eq_iff t root,
)

total-count_finding :
    (root : String) (o : Option String) (needs b : Bool) (m : Totals)
    → total root (count_finding o needs b m)
      ≡ total root m + one_if (opt_str_eq o (some root) && needs)
total-count_finding root none needs b m = omega arith
total-count_finding root (some t) needs b m = ground (arith, total-add_total root t b m)

covered_total-count_finding :
    (root : String) (o : Option String) (needs b : Bool) (m : Totals)
    → covered_total root (count_finding o needs b m)
      ≡ covered_total root m + one_if ((opt_str_eq o (some root) && needs) && b)
covered_total-count_finding root none needs b m = omega arith
covered_total-count_finding root (some t) needs b m =
    ground (arith, covered_total-add_total root t b m)

total-totals_of :
    (root : String) (fs : List Covered) (m : Totals)
    → total root (totals_of m fs) ≡ total root m + count (breaks_root root) fs
unfolding totals_of
total-totals_of root [] m = omega arith
total-totals_of root ((f, c) ∷ fs) m = ground (
  arith,
  total-totals_of root fs (count_finding f.type_name (needs_migration f) (is_some c) m),
  total-count_finding root f.type_name (needs_migration f) (is_some c) m,
)

covered_total-totals_of :
    (root : String) (fs : List Covered) (m : Totals)
    → covered_total root (totals_of m fs)
      ≡ covered_total root m + count (λ p. breaks_root root p && is_some p.1) fs
unfolding totals_of
covered_total-totals_of root [] m = omega arith
covered_total-totals_of root ((f, c) ∷ fs) m = ground (
  arith,
  covered_total-totals_of root fs (count_finding f.type_name (needs_migration f) (is_some c) m),
  covered_total-count_finding root f.type_name (needs_migration f) (is_some c) m,
)

module _ {A : Type 0} (t s : A → Bool) where
  any-count : (xs : List A) → any t xs ≡ ltb 0 (count t xs)
  any-count [] = refl
  any-count (x ∷ xs) = ground (arith, any-count xs)

  count-le : (xs : List A) → count (λ x. t x && s x) xs ≤ count t xs
  count-le [] = omega arith
  count-le (x ∷ xs) = ground (arith, count-le xs)

  all-count :
      (xs : List A) → all (λ x. not (t x) || s x) xs ≡ (count t xs == count (λ x. t x && s x) xs)
  all-count [] = refl
  all-count (x ∷ xs) = ground (arith, all-count xs, count-le xs)

is_migrated-fully :
    (root : String) (fs : List Covered)
    → is_migrated root (totals_of [] fs) ≡ is_fully_migrated root fs
unfolding total covered_total
is_migrated-fully root fs = ground (
  arith,
  is_migrated-totals root (totals_of [] fs),
  total-totals_of root fs [],
  covered_total-totals_of root fs [],
  any-count (breaks_root root) (λ (p : Covered). is_some p.1) fs,
  all-count (breaks_root root) (λ (p : Covered). is_some p.1) fs,
)

all-append : (t : Covered → Bool) (xs ys : List Covered) → all t (xs ++ ys) ≡ (all t xs && all t ys)
all-append t [] ys = refl
all-append t (x ∷ xs) ys = ground (arith, all-append t xs ys)

map_push :
    (f : Covered → Covered) (xs : List Covered) (x : Covered)
    → map_list f (xs ++ x ∷ []) ≡ map_list f xs ++ f x ∷ []
map_push f [] x = refl
map_push f (y ∷ ys) x = λ i. f y ∷ map_push f ys x i

module _ (fs : List Covered) where
  abbrev pub final : Covered → Covered
  final p = (p.0, final_coverage fs p)

  -- Inherited coverage does not change the finding that inheritance is attributed to.
  find-final :
      (root : String) (before after : List Covered)
      → all (λ p. not (breaks_root root p) || is_some p.1) before ≡ true
      → find (is_attributable root) (map_list final before ++ after)
        ≡ find (is_attributable root) (before ++ after)
  find-final root [] after h = refl
  find-final root ((f, some c) ∷ before) after h = ground (arith, find-final root before after)
  find-final root ((f, none) ∷ before) after h = ground (arith, find-final root before after)

  inherit_from-final :
      (root : String) (before : List Covered) (p : Covered) (after : List Covered)
      → fs ≡ before ++ p ∷ after
      → ◌≡◌ {A = Option FindingCoverage}
          (if is_migrated root (totals_of [] fs)
            then inherited root (find (is_attributable root) (map_list final before ++ p ∷ after))
            else none)
          (if is_fully_migrated root fs
            then inherited root (find (is_attributable root) fs)
            else none)
  inherit_from-final root before p after e =
      rw (is_migrated-fully root fs) (elim (Bool-cases (is_fully_migrated root fs)) [
        | inl h ↦ rw h (
            ap (inherited root) (
              find-final root before (p ∷ after)
                ((and-true_iff _ _).0 (
                  sym (all-append (λ q. not (breaks_root root q) || is_some q.1) before (p ∷ after))
                  ∙ ap (all (λ q. not (breaks_root root q) || is_some q.1)) (sym e)
                  ∙ ((and-true_iff _ _).0 h).1)).0
              ∙ ap (find (is_attributable root)) (sym e)))
        | inr h ↦ rw h refl
      ])

  inherit_one-final :
      (before : List Covered) (p : Covered) (after : List Covered)
      → fs ≡ before ++ p ∷ after
      → inherit_one (totals_of [] fs) (map_list final before) p after ≡ final_coverage fs p
  unfolding inherit_one
  inherit_one-final before (f, some c) after e = refl
  inherit_one-final before (f, none) after e = elim (Option-cases f.root_target) [
    | inl n ↦ rw (n, inherit_one) refl
    | inr (root, n) ↦ rw (n, inherit_one) (inherit_from-final root before (f, none) after e)
  ]

  inherit_loop-final :
      (before after : List Covered)
      → fs ≡ before ++ after
      → inherit_loop (totals_of [] fs) (map_list final before) after ≡ map_list final fs
  unfolding inherit_loop
  inherit_loop-final before [] e = ap (map_list final) (sym (e ∙ append-nil before))
  inherit_loop-final before (p ∷ after) e =
      ap (λ c. inherit_loop (totals_of [] fs) (map_list final before ++ (p.0, c) ∷ []) after)
        (inherit_one-final before p after e)
      ∙ ap (λ b. inherit_loop (totals_of [] fs) b after) (sym (map_push final before p))
      ∙ inherit_loop-final (before ++ p ∷ []) after (e ∙ sym (append_assoc before (p ∷ []) after))

-- Every finding has in the end its own coverage, or what it inherits from its root.
pub inherit_through_cascades-final :
    (fs : List Covered) → inherit_through_cascades fs ≡ map_list (final fs) fs
unfolding inherit_through_cascades
inherit_through_cascades-final fs = inherit_loop-final fs [] fs refl

-- ===== src/Diff/Enums/Values.antt =====
-- The cases of an enum as a mapping from names to values.
use soroban_upgrade_safeguar.Base.{
  ℕ, String, ◌≡◌, refl, List, [], ◌∷◌, false, Option, none, some, arith, map_list, str_eq_iff,
  str_eq_refl, is_member, is_some, Every, IsSubset, HasDistinctNames, IsSubset-refl, IsSubset-elim,
  Option-cases, inl, inr, sym, ◌∙◌,
}
use soroban_upgrade_safeguar.Spec.{EnumCase}
use soroban_upgrade_safeguar.Diff.Enums.{find_case}

abbrev pub case_names : List EnumCase → List String
case_names cases = map_list (λ c. c.name) cases

abbrev pub case_value : Option EnumCase → Option ℕ
case_value none = none
case_value (some c) = some c.value

-- The value that the first case of this name has.
unfoldable pub value_of : String → List EnumCase → Option ℕ
unfolding find_case
value_of x cases = case_value (find_case x cases)

-- The same names with the same values, in any order; doc-strings do not count.
abbrev pub SameCases : List EnumCase → List EnumCase → Type 0
SameCases olds news = (x : String) → value_of x olds ≡ value_of x news

-- Each of the cases has its value in `news`.
abbrev pub AllKept : List EnumCase → List EnumCase → Type 0
AllKept news olds = Every (λ o. value_of o.name news ≡ some o.value) olds

pub is_some-value_of :
    (x : String) (cases : List EnumCase)
    → is_some (value_of x cases) ≡ is_member x (case_names cases)
unfolding value_of
is_some-value_of x [] = refl
is_some-value_of x (c ∷ cases) = ground (arith, is_some-value_of x cases)

pub value_of_kept :
    (x : String) (v : ℕ) (olds news : List EnumCase)
    → AllKept news olds
    → value_of x olds ≡ some v
    → value_of x news ≡ some v
unfolding value_of
value_of_kept x v [] news k h = ground arith
value_of_kept x v (o ∷ olds) news k h =
    ground (arith, str_eq_iff o.name x, value_of_kept x v olds news k.1)

pub IsSubset-of_kept :
    (olds news : List EnumCase) → AllKept news olds → IsSubset (case_names olds) (case_names news)
IsSubset-of_kept [] news k = tt
IsSubset-of_kept (o ∷ olds) news k =
    (ground (arith, is_some-value_of o.name news), IsSubset-of_kept olds news k.1)

-- With distinct names, each case has the value that its name has.
AllKept-tail :
    (c : EnumCase) (olds cases : List EnumCase)
    → is_member c.name (case_names olds) ≡ false
    → AllKept cases olds
    → AllKept (c ∷ cases) olds
unfolding value_of
AllKept-tail c [] cases h k = tt
AllKept-tail c (o ∷ olds) cases h k = (
  ground (arith, str_eq_iff c.name o.name, str_eq_iff o.name c.name),
  AllKept-tail c olds cases (ground arith) k.1,
)

AllKept-self : (cases : List EnumCase) → HasDistinctNames (case_names cases) → AllKept cases cases
unfolding value_of
AllKept-self [] d = tt
AllKept-self (c ∷ cases) d =
    (ground (arith, str_eq_refl c.name), AllKept-tail c cases cases d.0 (AllKept-self cases d.1))

AllKept-transfer :
    (olds cases news : List EnumCase)
    → SameCases cases news
    → AllKept cases olds
    → AllKept news olds
AllKept-transfer [] cases news s k = tt
AllKept-transfer (o ∷ olds) cases news s k =
    (rw (s o.name) at k.0, AllKept-transfer olds cases news s k.1)

pub AllKept-of_same :
    (olds news : List EnumCase)
    → HasDistinctNames (case_names olds)
    → SameCases olds news
    → AllKept news olds
AllKept-of_same olds news d s = AllKept-transfer olds olds news s (AllKept-self olds d)

IsSubset-by_value :
    (names : List EnumCase) (news olds : List EnumCase)
    → SameCases olds news
    → IsSubset (case_names names) (case_names news)
    → IsSubset (case_names names) (case_names olds)
IsSubset-by_value [] news olds s h = tt
IsSubset-by_value (c ∷ names) news olds s h = (
  ground (arith, is_some-value_of c.name olds, is_some-value_of c.name news, s c.name),
  IsSubset-by_value names news olds s h.1,
)

pub IsSubset-of_same :
    (olds news : List EnumCase) → SameCases olds news → IsSubset (case_names news) (case_names olds)
IsSubset-of_same olds news s = IsSubset-by_value news news olds s (IsSubset-refl (case_names news))

pub SameCases-of_kept :
    (olds news : List EnumCase)
    → AllKept news olds
    → IsSubset (case_names news) (case_names olds)
    → SameCases olds news
SameCases-of_kept olds news k s x = elim (Option-cases (value_of x olds)) [
  | inr (v, e) ↦ e ∙ sym (value_of_kept x v olds news k e)
  | inl e ↦ ground (
    arith,
    is_some-value_of x olds,
    is_some-value_of x news,
    IsSubset-elim x (case_names news) (case_names olds) s,
  )
]

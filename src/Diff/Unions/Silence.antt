-- ===== src/Diff/Unions/Silence.antt =====
-- `check_union_cases` of src/diff.rs against the layout of a union: its cases in their order, each
-- with its payload.
use soroban_upgrade_safeguar.Base.{
  ℕ, suc, String, ◌≡◌, refl, ◌↔◌, ap, List, [], ◌∷◌, false, not, Option, none, some, arith,
  for_each, map_list, IsSubset, HasDistinctNames, IsSubset-drop, IsSubset-refl, any-map,
  append-nil_iff, push_if_differs-nil_iff, push_if-nil_iff,
}
use soroban_upgrade_safeguar.Spec.{TypeDefs, UnionCase, void_v0, tuple_v0, UdtUnion}
use soroban_upgrade_safeguar.Spec.Equality.{all_types_equal_iff}
use soroban_upgrade_safeguar.Diff.Unions.{
  union_case_name, union_cases_equal, removed_case, aligned_case, aligned_cases, beyond, added_case,
  check_union_cases,
}

-- What a case carries: nothing, or values of these types.
abbrev pub payload : UnionCase → Option TypeDefs
payload (void_v0 d n) = none
payload (tuple_v0 d n ts) = some ts

abbrev pub SameUnion : List UnionCase → List UnionCase → Type 0
SameUnion [] [] = Unit
SameUnion (o ∷ olds) (n ∷ news) =
    (union_case_name o ≡ union_case_name n) × (payload o ≡ payload n) × SameUnion olds news
SameUnion _ _ = ⊥

abbrev pub union_names : List UnionCase → List String
union_names cases = map_list union_case_name cases

union_cases_equal_iff :
    (a b : UnionCase) → (not (union_cases_equal a b) ≡ false) ↔ (payload a ≡ payload b)
unfolding union_cases_equal
union_cases_equal_iff (void_v0 d m) (void_v0 e n) = ground arith
union_cases_equal_iff (void_v0 d m) (tuple_v0 e n ys) = ground arith
union_cases_equal_iff (tuple_v0 d m xs) (void_v0 e n) = ground arith
union_cases_equal_iff (tuple_v0 d m xs) (tuple_v0 e n ys) =
    ground (arith, all_types_equal_iff xs ys)

module _ (name : String) where
  removed-nil_iff :
      (news olds : List UnionCase)
      → (for_each (removed_case name news) olds ≡ [])
        ↔ IsSubset (union_names olds) (union_names news)
  unfolding removed_case
  removed-nil_iff news [] = ground arith
  removed-nil_iff news (o ∷ olds) =
      ground (arith, removed-nil_iff news olds, any-map union_case_name (union_case_name o) news)

  aligned_case-nil_iff :
      (i : ℕ) (o n : UnionCase)
      → (aligned_case name i o n ≡ [])
        ↔ ((union_case_name o ≡ union_case_name n) × (payload o ≡ payload n))
  unfolding aligned_case
  aligned_case-nil_iff i o n =
      let parts = append-nil_iff _ _ in
      let names = push_if_differs-nil_iff (union_case_name o) (union_case_name n) _ in
      let changed = push_if-nil_iff (not (union_cases_equal o n)) _ in
      let payloads = union_cases_equal_iff o n in
      (
        (λ h. (names.0 (parts.0 h).0, payloads.0 (changed.0 (parts.0 h).1))),
        (λ same. parts.1 (names.1 same.0, changed.1 (payloads.1 same.1))),
      )

  aligned_cases_silent :
      (i : ℕ) (olds news : List UnionCase)
      → aligned_cases name i olds news ≡ []
      → for_each (added_case name) (beyond olds news) ≡ []
      → HasDistinctNames (union_names olds)
      → IsSubset (union_names olds) (union_names news)
      → SameUnion olds news
  unfolding aligned_cases beyond added_case
  aligned_cases_silent i [] [] h b d s = tt
  aligned_cases_silent i [] (n ∷ news) h b d s = cc
  aligned_cases_silent i (o ∷ olds) [] h b d s = cc (s.0)
  aligned_cases_silent i (o ∷ olds) (n ∷ news) h b d s =
      let (here, later) = (append-nil_iff _ _).0 h in
      let (same_name, same_payload) = (aligned_case-nil_iff i o n).0 here in
      (
        same_name,
        same_payload,
        aligned_cases_silent (suc i) olds news later b d.1
            (IsSubset-drop (union_case_name n) _ _ (rw same_name at d.0) s.1),
      )

  aligned_cases-nil :
      (i : ℕ) (olds news : List UnionCase)
      → SameUnion olds news
      → aligned_cases name i olds news ≡ []
  unfolding aligned_cases
  aligned_cases-nil i [] [] h = refl
  aligned_cases-nil i (o ∷ olds) (n ∷ news) (p, q, h) =
      (append-nil_iff _ _).1
        ((aligned_case-nil_iff i o n).1 (p, q), aligned_cases-nil (suc i) olds news h)
  aligned_cases-nil i [] (n ∷ news) h = elim h [ ]
  aligned_cases-nil i (o ∷ olds) [] h = elim h [ ]

beyond-nil : (olds news : List UnionCase) → SameUnion olds news → beyond olds news ≡ []
unfolding beyond
beyond-nil [] [] h = refl
beyond-nil (o ∷ olds) (n ∷ news) (p, q, h) = beyond-nil olds news h
beyond-nil [] (n ∷ news) h = elim h [ ]
beyond-nil (o ∷ olds) [] h = elim h [ ]

SameUnion-names :
    (olds news : List UnionCase) → SameUnion olds news → union_names olds ≡ union_names news
SameUnion-names [] [] h = refl
SameUnion-names (o ∷ olds) (n ∷ news) (p, q, h) = cc (SameUnion-names olds news h)
SameUnion-names [] (n ∷ news) h = elim h [ ]
SameUnion-names (o ∷ olds) [] h = elim h [ ]

-- With distinct old names, the comparison of two unions is silent exactly when they have the same
-- cases with the same payloads in the same order.
pub check_union_cases-nil_iff :
    (name : String) (old new : UdtUnion)
    → HasDistinctNames (union_names old.cases)
    → (check_union_cases name old new ≡ []) ↔ SameUnion old.cases new.cases
unfolding check_union_cases
check_union_cases-nil_iff name old new d =
    let olds = old.cases in
    let news = new.cases in
    let outer = append-nil_iff (for_each (removed_case name news) olds) _ in
    let inner = append-nil_iff (aligned_cases name 0 olds news) _ in
    let removed = removed-nil_iff name news olds in
    (
      (λ h.
          aligned_cases_silent name 0 olds news (inner.0 (outer.0 h).1).0 (inner.0 (outer.0 h).1).1
            d (removed.0 (outer.0 h).0)),
      (λ s. outer.1 (
        removed.1 (rw (SameUnion-names olds news s) (IsSubset-refl _)),
        inner.1 (
          aligned_cases-nil name 0 olds news s,
          ap (for_each (added_case name)) (beyond-nil olds news s),
        ),
      )),
    )

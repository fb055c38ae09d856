-- ===== src/Diff/Structs/Layout.antt =====
-- `check_struct_fields` of src/diff.rs against the layout of a struct: its names and types in
-- their order.
use native.Mathlib.Nat.{sub-zero}
use soroban_upgrade_safeguar.Base.{
  ℕ, zero, suc, ◌-◌, String, ◌≡◌, refl, ◌↔◌, List, [], ◌∷◌, arith, for_each, ltb, IsSubset,
  HasDistinctNames, IsSubset-drop, any-map, append-eq-nil, append-nil_iff, push_if_differs-nil_iff,
  append_four-nil_iff, IsSubset-refl, Bool-cases, inl, inr,
}
use soroban_upgrade_safeguar.Spec.{StructField, UdtStruct}
use soroban_upgrade_safeguar.Diff.Detail.Laws.{type_change_findings-nil_iff}
use soroban_upgrade_safeguar.Diff.Structs.{
  field_names, append_start, inserted_fields, removed_field, aligned_new_fields, aligned_field,
  aligned_fields, from_position, appended_field, check_struct_fields,
}

-- The same names with the same types in the same order; doc-strings do not count.
abbrev pub SameLayout : List StructField → List StructField → Type 0
SameLayout [] [] = Unit
SameLayout (o ∷ olds) (n ∷ news) = (o.name ≡ n.name) × (o.type_ ≡ n.type_) × SameLayout olds news
SameLayout _ _ = ⊥

-- Every position of a list, from `i` on.
abbrev enumerate : ℕ → List StructField → List (ℕ × StructField)
enumerate i [] = []
enumerate i (f ∷ fs) = (i, f) ∷ enumerate (suc i) fs

module _ (name : String) (olds : List String) (start : ℕ) where
  -- With no insertion and nothing appended, every new name is an old one.
  named_of_silent :
      (position : ℕ) (news : List StructField)
      → inserted_fields name olds start position news ≡ []
      → for_each (appended_field name olds) (from_position (start - position) news) ≡ []
      → IsSubset (field_names news) olds
  unfolding inserted_fields appended_field from_position
  named_of_silent position [] h k = tt
  named_of_silent position (f ∷ fs) h k = elim (Bool-cases (ltb position start)) [
    | inl before ↦
        let e : start - position ≡ suc (start - suc position) = ground arith in
        let k' : for_each (appended_field name olds) (from_position (start - suc position) fs)
            ≡ [] =
          rw (e, from_position) at k in
        (ground arith, named_of_silent (suc position) fs (ground arith) k')
    | inr behind ↦
        let e : start - position ≡ zero = ground arith in
        let e' : start - suc position ≡ zero = ground arith in
        let k' : for_each (appended_field name olds) (f ∷ fs) ≡ [] = rw (e, from_position) at k in
        (
          ground arith,
          named_of_silent (suc position) fs (ground arith) (rw (e', from_position) (ground arith)),
        )
  ]

  inserted_fields-nil :
      (position : ℕ) (news : List StructField)
      → IsSubset (field_names news) olds
      → inserted_fields name olds start position news ≡ []
  unfolding inserted_fields
  inserted_fields-nil position [] h = refl
  inserted_fields-nil position (f ∷ fs) h =
      ground (arith, inserted_fields-nil (suc position) fs h.1)

  aligned_new_fields_all :
      (position : ℕ) (news : List StructField)
      → IsSubset (field_names news) olds
      → aligned_new_fields olds start position news ≡ enumerate position news
  unfolding aligned_new_fields
  aligned_new_fields_all position [] h = refl
  aligned_new_fields_all position (f ∷ fs) h =
      ground (arith, aligned_new_fields_all (suc position) fs h.1)

  appended-nil :
      (news : List StructField)
      → IsSubset (field_names news) olds
      → for_each (appended_field name olds) news ≡ []
  unfolding appended_field
  appended-nil [] h = refl
  appended-nil (f ∷ fs) h = ground (arith, appended-nil fs h.1)

IsSubset-from_position :
    (olds : List String) (n : ℕ) (news : List StructField)
    → IsSubset (field_names news) olds
    → IsSubset (field_names (from_position n news)) olds
unfolding from_position
IsSubset-from_position olds zero news h = h
IsSubset-from_position olds (suc n) [] h = tt
IsSubset-from_position olds (suc n) (f ∷ fs) h = IsSubset-from_position olds n fs h.1

module _ (name : String) where
  removed-nil_iff :
      (news olds : List StructField)
      → (for_each (removed_field name news) olds ≡ [])
        ↔ IsSubset (field_names olds) (field_names news)
  unfolding removed_field
  removed-nil_iff news [] = ground arith
  removed-nil_iff news (f ∷ fs) =
      ground (arith, removed-nil_iff news fs, any-map (λ (g : StructField). g.name) f.name news)

  aligned_field-nil_iff :
      (i : ℕ) (o n : StructField)
      → (aligned_field name o i n ≡ []) ↔ ((o.name ≡ n.name) × (o.type_ ≡ n.type_))
  unfolding aligned_field
  aligned_field-nil_iff i o n =
      let names = push_if_differs-nil_iff o.name n.name _ in
      let types = type_change_findings-nil_iff o.type_ n.type_ _ _ _ _ _ in
      let parts = append-nil_iff _ _ in
      (
        (λ h. (names.0 (parts.0 h).0, types.0 (parts.0 h).1)),
        (λ same. parts.1 (names.1 same.0, types.1 same.1)),
      )

  aligned_fields_silent :
      (i : ℕ) (olds news : List StructField)
      → aligned_fields name olds (enumerate i news) ≡ []
      → HasDistinctNames (field_names olds)
      → HasDistinctNames (field_names news)
      → IsSubset (field_names olds) (field_names news)
      → IsSubset (field_names news) (field_names olds)
      → SameLayout olds news
  unfolding aligned_fields
  aligned_fields_silent i [] [] h d e s t = tt
  aligned_fields_silent i [] (n ∷ news) h d e s t = cc (t.0)
  aligned_fields_silent i (o ∷ olds) [] h d e s t = cc (s.0)
  aligned_fields_silent i (o ∷ olds) (n ∷ news) h d e s t =
      let (here, later) = append-eq-nil _ _ h in
      let (same_name, same_type) = (aligned_field-nil_iff i o n).0 here in
      (
        same_name,
        same_type,
        aligned_fields_silent (suc i) olds news later d.1 e.1
            (IsSubset-drop n.name _ _ (rw same_name at d.0) s.1)
            (IsSubset-drop o.name _ _ (rw (← same_name) at e.0) t.1),
      )

  aligned_fields-nil :
      (i : ℕ) (olds news : List StructField)
      → SameLayout olds news
      → aligned_fields name olds (enumerate i news) ≡ []
  unfolding aligned_fields
  aligned_fields-nil i [] [] h = refl
  aligned_fields-nil i (o ∷ olds) (n ∷ news) (p, q, h) =
      ground (arith, (aligned_field-nil_iff i o n).1 (p, q), aligned_fields-nil (suc i) olds news h)
  aligned_fields-nil i [] (n ∷ news) h = elim h [ ]
  aligned_fields-nil i (o ∷ olds) [] h = elim h [ ]

SameLayout-names :
    (olds news : List StructField) → SameLayout olds news → field_names olds ≡ field_names news
SameLayout-names [] [] h = refl
SameLayout-names (o ∷ olds) (n ∷ news) (p, q, h) = cc (SameLayout-names olds news h)
SameLayout-names [] (n ∷ news) h = elim h [ ]
SameLayout-names (o ∷ olds) [] h = elim h [ ]

-- With distinct field names, the comparison of two structs is silent exactly when their layout is
-- the same: the same names with the same types in the same order.
pub check_struct_fields-nil_iff :
    (name : String) (old new : UdtStruct)
    → HasDistinctNames (field_names old.fields)
    → HasDistinctNames (field_names new.fields)
    → (check_struct_fields name old new ≡ []) ↔ SameLayout old.fields new.fields
unfolding check_struct_fields
check_struct_fields-nil_iff name old new d e = (silent, same)
  where
    olds : List String
    olds = field_names old.fields

    start : ℕ
    start = append_start olds new.fields

    silent : check_struct_fields name old new ≡ [] → SameLayout old.fields new.fields
    silent h =
        let (inserted, removed, aligned, appended) = (append_four-nil_iff _ _ _ _).0 h in
        let named = named_of_silent name olds start 0 new.fields inserted (rw sub-zero appended) in
        aligned_fields_silent name 0 old.fields new.fields
          (rw (aligned_new_fields_all name olds start 0 new.fields named) at aligned) d e
          ((removed-nil_iff name new.fields old.fields).0 removed) named

    same : SameLayout old.fields new.fields → check_struct_fields name old new ≡ []
    same h =
        let names = SameLayout-names old.fields new.fields h in
        let named : IsSubset (field_names new.fields) olds = rw names (IsSubset-refl _) in
        (append_four-nil_iff _ _ _ _).1 (
          inserted_fields-nil name olds start 0 new.fields named,
          (removed-nil_iff name new.fields old.fields).1 (rw names (IsSubset-refl _)),
          rw (aligned_new_fields_all name olds start 0 new.fields named)
              (aligned_fields-nil name 0 old.fields new.fields h),
          appended-nil name olds start _ (IsSubset-from_position olds start new.fields named),
        )

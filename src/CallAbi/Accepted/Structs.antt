-- ===== src/CallAbi/Accepted/Structs.antt =====
-- src/call_abi.rs: two structs are walked in silence exactly when they have the same fields, each
-- accepted.
use soroban_upgrade_safeguar.Base.{
  String, Option, none, some, List, [], ◌∷◌, ◌≡◌, refl, sym, ap, ◌∙◌, ◌↔◌, inl, inr, Bool, true,
  arith, all, format, map_list, is_member, is_some, str_eq, str_eq_iff, str_eq_refl, Bool-cases,
  and-true_iff,
}
use soroban_upgrade_safeguar.Spec.{TypeDef, StructField, UdtStruct, ContractSpec}
use soroban_upgrade_safeguar.Mapper.Graph.Embeds.{is_member-sort, is_member-dedup}
use soroban_upgrade_safeguar.CallAbi.Flow.{
  Flow, UdtPair, UdtCheck, and_flow, last_type, field_names, same_names, check_value_flow,
  check_fields, struct_flow,
}
use soroban_upgrade_safeguar.CallAbi.Accepted.{
  UdtRelation, IsAccepted, IsFieldAccepted, IsStructAccepted,
}
use soroban_upgrade_safeguar.CallAbi.Accepted.Values.{
  IsSilent, IsRun, and_flow-IsSilent_iff, and_flow-IsRun, guarded-IsSilent_iff, guarded-IsRun,
  value_sound, value_complete, value-IsRun,
}

is_some-last_type :
    (n : String) (fs : List StructField)
    → is_some (last_type n fs) ≡ is_member n (map_list (λ f. f.name) fs)
unfolding last_type
is_some-last_type n [] = refl
is_some-last_type n (f ∷ fs) = ground (arith, is_some-last_type n fs)

-- The names of the map are those that it finds.
is_member-field_names :
    (n : String) (d : UdtStruct) → is_member n (field_names d) ≡ is_some (last_type n d.fields)
unfolding field_names
is_member-field_names n d =
    is_member-dedup n _ ∙ is_member-sort n _ ∙ sym (is_some-last_type n d.fields)

all_member :
    (ms ns : List String) (n : String)
    → all (λ m. is_member m ns) ms ≡ true
    → is_member n ms ≡ true
    → is_member n ns ≡ true
all_member [] ns n h m = ground arith
all_member (k ∷ ms) ns n h m = ground (arith, all_member ms ns n, str_eq_iff k n)

all_of_member :
    (ms ns : List String)
    → ((n : String) → is_member n ms ≡ true → is_member n ns ≡ true)
    → all (λ m. is_member m ns) ms ≡ true
all_of_member [] ns h = refl
all_of_member (m ∷ ms) ns h =
    (and-true_iff _ _).1
      (h m (ground (arith, str_eq_refl m)), all_of_member ms ns (λ n k. h n (ground arith)))

is_some_iff : (x y : Bool) → (x ≡ true → y ≡ true) → (y ≡ true → x ≡ true) → x ≡ y
is_some_iff x y h k = ground arith

-- The two maps have the same names.
same_names_iff :
    (a b : UdtStruct)
    → (same_names (field_names a) (field_names b) ≡ true)
      ↔ ((n : String) → is_some (last_type n a.fields) ≡ is_some (last_type n b.fields))
same_names_iff a b = (
  (λ h n.
      let (p, q) = (and-true_iff _ _).0 h in
      rw (sym (is_member-field_names n a), sym (is_member-field_names n b))
        (is_some_iff _ _ (all_member _ _ n p) (all_member _ _ n q))),
  (λ h. (and-true_iff _ _).1 (
    all_of_member _ _
        (λ n m. is_member-field_names n b ∙ sym (h n) ∙ sym (is_member-field_names n a) ∙ m),
    all_of_member _ _
        (λ n m. is_member-field_names n a ∙ h n ∙ sym (is_member-field_names n b) ∙ m),
  )),
)

-- One field of the loop, on what the two maps have.
field_iff :
    (x y : Option TypeDef) (f : TypeDef → TypeDef → Flow) (rest : Flow)
    → IsSilent
        (elim x [ none ↦ rest | some t ↦ elim y [ none ↦ rest | some u ↦ and_flow (f t u) rest ] ])
      ↔ (((t u : TypeDef) → x ≡ some t → y ≡ some u → IsSilent (f t u)) × IsSilent rest)
field_iff none y f rest = ((λ h. ((λ t u e k. absurd cc), h)), (λ h. h.1))
field_iff (some t) none f rest = ((λ h. ((λ t u e k. absurd cc), h)), (λ h. h.1))
field_iff (some t) (some u) f rest = (
  (λ h. let (p, q) = (and_flow-IsSilent_iff _ _).0 h in ((λ s r e k. cc), q)),
  (λ h. (and_flow-IsSilent_iff _ _).1 (h.0 t u refl refl, h.1)),
)

field-IsRun :
    (x y : Option TypeDef) (f : TypeDef → TypeDef → Flow) (rest : Flow)
    → ((t u : TypeDef) → IsRun (f t u))
    → IsRun rest
    → IsRun
        (elim x [ none ↦ rest | some t ↦ elim y [ none ↦ rest | some u ↦ and_flow (f t u) rest ] ])
field-IsRun none y f rest h k = k
field-IsRun (some t) none f rest h k = k
field-IsRun (some t) (some u) f rest h k = and_flow-IsRun _ _ (h t u) k

module _ (R : UdtRelation) where
  field-IsAccepted :
      (x y : Option TypeDef)
      → is_some x ≡ is_some y
      → ((t u : TypeDef) → x ≡ some t → y ≡ some u → IsAccepted R t u)
      → IsFieldAccepted R x y
  field-IsAccepted none none e h = tt
  field-IsAccepted (some t) (some u) e h = h t u refl refl
  field-IsAccepted none (some u) e h = absurd (ground arith)
  field-IsAccepted (some t) none e h = absurd (ground arith)

  both_or_none : (x y : Option TypeDef) → IsFieldAccepted R x y → is_some x ≡ is_some y
  both_or_none none none h = refl
  both_or_none (some t) (some u) h = refl
  both_or_none none (some u) h = elim h [ ]
  both_or_none (some t) none h = elim h [ ]

  field_types :
      (x y : Option TypeDef) (t u : TypeDef)
      → IsFieldAccepted R x y
      → x ≡ some t
      → y ≡ some u
      → IsAccepted R t u
  field_types x y t u h e k = (rw (e, k) at h)

module _ (function : String) (producer consumer : ContractSpec) (check_udt : UdtCheck)
    (v : List UdtPair) (path : String) (a b : UdtStruct) where
  abbrev walk : String → TypeDef → TypeDef → Flow
  walk n t u = check_value_flow function check_udt (format (path ∷ "." ∷ n ∷ [])) t u v

  module _ (R : UdtRelation) (sound : (x y p : String) → IsSilent (check_udt x y p v) → R x y) where
    fields_sound :
        (ns : List String) (n : String) (t u : TypeDef)
        → IsSilent (check_fields function producer consumer check_udt path a b ns v)
        → is_member n ns ≡ true
        → last_type n a.fields ≡ some t
        → last_type n b.fields ≡ some u
        → IsAccepted R t u
    unfolding check_fields
    fields_sound [] n t u h m e k = absurd (ground arith)
    fields_sound (k ∷ ns) n t u h m e d =
        let (p, q) = (field_iff (last_type k a.fields) (last_type k b.fields) (walk k) _).0 h in
        elim (Bool-cases (str_eq k n)) [
          | inl same ↦
              value_sound function check_udt v R sound _ t u
                (p t u (rw ((str_eq_iff k n).0 same) e) (rw ((str_eq_iff k n).0 same) d))
          | inr other ↦ fields_sound ns n t u q (rw other at m) e d
        ]

    pub struct_sound :
        IsSilent (struct_flow function producer consumer check_udt path a b v)
        → IsStructAccepted R a b
    unfolding struct_flow IsStructAccepted
    struct_sound h n =
        let (p, q) = (guarded-IsSilent_iff _ _ _).0 h in
        let same = (same_names_iff a b).0 p in
        field-IsAccepted R _ _ (same n) (λ t u e d.
          fields_sound (field_names a) n t u q (is_member-field_names n a ∙ ap is_some e) e d)

  module _ (R : UdtRelation)
      (complete : (x y p : String) → R x y → IsSilent (check_udt x y p v)) where
    fields_complete :
        (ns : List String)
        → IsStructAccepted R a b
        → IsSilent (check_fields function producer consumer check_udt path a b ns v)
    unfolding check_fields IsStructAccepted
    fields_complete [] h = refl
    fields_complete (n ∷ ns) h = (field_iff _ _ _ _).1 (
      (λ t u e d.
          value_complete function check_udt v R complete _ t u (field_types R _ _ t u (h n) e d)),
      fields_complete ns h,
    )

    pub struct_complete :
        IsStructAccepted R a b
        → IsSilent (struct_flow function producer consumer check_udt path a b v)
    unfolding struct_flow IsStructAccepted
    struct_complete h =
        (guarded-IsSilent_iff _ _ _).1 (
          (same_names_iff a b).1 (λ n. both_or_none R _ _ (h n)),
          fields_complete (field_names a) h,
        )

  module _ (runs : (x y p : String) → IsRun (check_udt x y p v)) where
    fields-IsRun :
        (ns : List String) → IsRun (check_fields function producer consumer check_udt path a b ns v)
    unfolding check_fields
    fields-IsRun [] = refl
    fields-IsRun (n ∷ ns) =
        field-IsRun (last_type n a.fields) (last_type n b.fields) (walk n) _
          (λ t u. value-IsRun function check_udt v runs _ t u) (fields-IsRun ns)

    pub struct-IsRun : IsRun (struct_flow function producer consumer check_udt path a b v)
    unfolding struct_flow
    struct-IsRun = guarded-IsRun _ _ _ (fields-IsRun (field_names a))

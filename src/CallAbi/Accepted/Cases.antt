-- ===== src/CallAbi/Accepted/Cases.antt =====
-- src/call_abi.rs: enums, error enums and unions are walked in silence exactly when the consumer
-- has what the producer has, the payloads of a union's cases accepted.
use soroban_upgrade_safeguar.Base.{
  ℕ, String, Option, none, some, List, [], ◌∷◌, ◌≡◌, refl, ap, sym, ◌↔◌, inl, inr, Bool, true,
  false, not, ◌||◌, ◌==◌, arith, any, keep, map_list, ==_iff, Bool-cases, if◌then◌else◌,
  append-nil_iff,
}
use soroban_upgrade_safeguar.Spec.{EnumCase, UnionCase, void_v0, tuple_v0, ContractSpec}
use soroban_upgrade_safeguar.CallAbi.{CallAbiBreak}
use soroban_upgrade_safeguar.CallAbi.Flow.{
  UdtPair, UdtCheck, insert_value, sort_values, missing_values, value_breaks, case_flow, union_flow,
}
use soroban_upgrade_safeguar.CallAbi.Accepted.{
  UdtRelation, IsEnumAccepted, IsCaseAccepted, IsUnionAccepted,
}
use soroban_upgrade_safeguar.CallAbi.Accepted.Values.{
  IsSilent, IsRun, and_flow-IsSilent_iff, and_flow-IsRun, guarded-IsSilent_iff, guarded-IsRun,
  values_sound, values_complete, values-IsRun,
}

insert_value-nonempty : (n : ℕ) (ms : List ℕ) → insert_value n ms ≡ [] → ⊥
unfolding insert_value
insert_value-nonempty n [] h = cc
insert_value-nonempty n (m ∷ ms) h = ground arith

sort_values-nil_iff : (ns : List ℕ) → (sort_values ns ≡ []) ↔ (ns ≡ [])
unfolding sort_values
sort_values-nil_iff [] = ((λ h. refl), (λ h. refl))
sort_values-nil_iff (n ∷ ns) = ((λ h. absurd (insert_value-nonempty n _ h)), (λ h. absurd cc))

-- The consumer's test on a value of the producer.
abbrev is_missing : List EnumCase → ℕ → Bool
is_missing accepted v = not (any (λ c. c.value == v) accepted)

kept_iff :
    (b : Bool) (n : ℕ) (ns : List ℕ)
    → ((if not b then n ∷ ns else ns) ≡ []) ↔ ((b ≡ true) × (ns ≡ []))
kept_iff b n ns = ground arith

unkept-IsEnumAccepted :
    (produced accepted : List EnumCase)
    → keep (is_missing accepted) (map_list (λ c. c.value) produced) ≡ []
    → IsEnumAccepted produced accepted
unfolding IsEnumAccepted
unkept-IsEnumAccepted [] accepted h v m = absurd cc
unkept-IsEnumAccepted (c ∷ cs) accepted h v m =
    let (p, q) = (kept_iff (any (λ d. d.value == c.value) accepted) c.value _).0 h in
    elim (Bool-cases (c.value == v)) [
      | inl e ↦ rw (sym ((==_iff c.value v).0 e)) p
      | inr e ↦ unkept-IsEnumAccepted cs accepted q v (rw e at m)
    ]

IsEnumAccepted-unkept :
    (produced accepted : List EnumCase)
    → IsEnumAccepted produced accepted
    → keep (is_missing accepted) (map_list (λ c. c.value) produced) ≡ []
unfolding IsEnumAccepted
IsEnumAccepted-unkept [] accepted h = refl
IsEnumAccepted-unkept (c ∷ cs) accepted h =
    (kept_iff (any (λ d. d.value == c.value) accepted) c.value _).1 (
      h c.value (rw ((==_iff c.value c.value).1 refl) refl),
      IsEnumAccepted-unkept cs accepted (λ v m. h v (later (c.value == v) m)),
    )
  where
    later : {y : Bool} (x : Bool) → y ≡ true → (x || y) ≡ true
    later true h = refl
    later false h = h

module _ (function : String) (producer consumer : ContractSpec) where
  value_breaks-nil_iff :
      (at : String → ℕ → List CallAbiBreak) (path : String)
      → ((n : ℕ) → at path n ≡ [] → ⊥)
      → (ns : List ℕ) → (value_breaks function producer consumer at path ns ≡ []) ↔ (ns ≡ [])
  unfolding value_breaks
  value_breaks-nil_iff at path h [] = ((λ e. refl), (λ e. refl))
  value_breaks-nil_iff at path h (n ∷ ns) =
      ((λ e. absurd (h n ((append-nil_iff _ _).0 e).0)), (λ e. absurd cc))

  pub missing-IsSilent_iff :
      (at : String → ℕ → List CallAbiBreak) (path : String)
      → ((n : ℕ) → at path n ≡ [] → ⊥)
      → (produced accepted : List EnumCase)
      → IsSilent (
          some (value_breaks function producer consumer at path (missing_values produced accepted)))
        ↔ IsEnumAccepted produced accepted
  missing-IsSilent_iff at path h produced accepted = (
    (λ e.
        unkept-IsEnumAccepted produced accepted
          ((sort_values-nil_iff _).0 ((value_breaks-nil_iff at path h _).0 cc))),
    (λ e. ap some (
        (value_breaks-nil_iff at path h _).1
          ((sort_values-nil_iff _).1 (IsEnumAccepted-unkept produced accepted e)))),
  )

  module _ (check_udt : UdtCheck) (v : List UdtPair) (path : String) where
    module _ (R : UdtRelation)
        (sound : (x y p : String) → IsSilent (check_udt x y p v) → R x y) where
      case_sound :
          (a : UnionCase) (o : Option UnionCase)
          → IsSilent (case_flow function producer consumer check_udt path a o v)
          → IsCaseAccepted R a o
      unfolding case_flow
      case_sound (void_v0 d n) (some (void_v0 e m)) h = tt
      case_sound (tuple_v0 d n ts) (some (tuple_v0 e m us)) h =
          let (p, q) = (guarded-IsSilent_iff _ _ _).0 h in
          values_sound function check_udt v R sound _ 0 ts us p q
      case_sound (void_v0 d n) none h = absurd cc
      case_sound (tuple_v0 d n ts) none h = absurd cc
      case_sound (void_v0 d n) (some (tuple_v0 e m us)) h = absurd cc
      case_sound (tuple_v0 d n ts) (some (void_v0 e m)) h = absurd cc

      pub union_sound :
          (as_ bs : List UnionCase)
          → IsSilent (union_flow function producer consumer check_udt path as_ bs v)
          → IsUnionAccepted R as_ bs
      unfolding union_flow IsUnionAccepted
      union_sound [] bs h = tt
      union_sound (a ∷ as_) bs h =
          let (p, q) = (and_flow-IsSilent_iff _ _).0 h in (case_sound a _ p, union_sound as_ bs q)

    module _ (R : UdtRelation)
        (complete : (x y p : String) → R x y → IsSilent (check_udt x y p v)) where
      case_complete :
          (a : UnionCase) (o : Option UnionCase)
          → IsCaseAccepted R a o
          → IsSilent (case_flow function producer consumer check_udt path a o v)
      unfolding case_flow
      case_complete (void_v0 d n) (some (void_v0 e m)) h = refl
      case_complete (tuple_v0 d n ts) (some (tuple_v0 e m us)) h =
          (guarded-IsSilent_iff _ _ _).1
            (values_complete function check_udt v R complete _ 0 ts us h)
      case_complete (void_v0 d n) none h = elim h [ ]
      case_complete (tuple_v0 d n ts) none h = elim h [ ]
      case_complete (void_v0 d n) (some (tuple_v0 e m us)) h = elim h [ ]
      case_complete (tuple_v0 d n ts) (some (void_v0 e m)) h = elim h [ ]

      pub union_complete :
          (as_ bs : List UnionCase)
          → IsUnionAccepted R as_ bs
          → IsSilent (union_flow function producer consumer check_udt path as_ bs v)
      unfolding union_flow IsUnionAccepted
      union_complete [] bs h = refl
      union_complete (a ∷ as_) bs (p, q) =
          (and_flow-IsSilent_iff _ _).1 (case_complete a _ p, union_complete as_ bs q)

    module _ (runs : (x y p : String) → IsRun (check_udt x y p v)) where
      case-IsRun :
          (a : UnionCase) (o : Option UnionCase)
          → IsRun (case_flow function producer consumer check_udt path a o v)
      unfolding case_flow
      case-IsRun (void_v0 d n) (some (void_v0 e m)) = refl
      case-IsRun (tuple_v0 d n ts) (some (tuple_v0 e m us)) =
          guarded-IsRun _ _ _ (values-IsRun function check_udt v runs _ 0 ts us)
      case-IsRun (void_v0 d n) none = refl
      case-IsRun (tuple_v0 d n ts) none = refl
      case-IsRun (void_v0 d n) (some (tuple_v0 e m us)) = refl
      case-IsRun (tuple_v0 d n ts) (some (void_v0 e m)) = refl

      pub union-IsRun :
          (as_ bs : List UnionCase)
          → IsRun (union_flow function producer consumer check_udt path as_ bs v)
      unfolding union_flow
      union-IsRun [] bs = refl
      union-IsRun (a ∷ as_) bs = and_flow-IsRun _ _ (case-IsRun a _) (union-IsRun as_ bs)

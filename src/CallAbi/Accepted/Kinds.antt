-- ===== src/CallAbi/Accepted/Kinds.antt =====
-- src/call_abi.rs: the ladder over the kinds of type in `check_udt_flow`, and which pairs of names
-- it walks into.
use soroban_upgrade_safeguar.Base.{
  String, Option, none, some, List, [], ◌∷◌, ◌≡◌, refl, inl, inr, true, arith, member_left,
  member_right, Option-cases,
}
use soroban_upgrade_safeguar.Spec.{ContractSpec, get, UdtStruct, UdtUnion}
use soroban_upgrade_safeguar.Diff.Cascade.{owners, is_cascaded}
use soroban_upgrade_safeguar.Diff.Cascade.Rounds.{all_pairs, is_cascaded-all_pairs, get-key}
use soroban_upgrade_safeguar.CallAbi.{CallAbiBreak}
use soroban_upgrade_safeguar.CallAbi.Flow.{
  UdtPair, UdtCheck, both, enum_break, error_break, kind_flow,
}
use soroban_upgrade_safeguar.CallAbi.Accepted.{UdtRelation, IsUdtAccepted}
use soroban_upgrade_safeguar.CallAbi.Accepted.Values.{IsSilent, IsRun}
use soroban_upgrade_safeguar.CallAbi.Accepted.Structs.{struct_sound, struct_complete, struct-IsRun}
use soroban_upgrade_safeguar.CallAbi.Accepted.Cases.{
  missing-IsSilent_iff, union_sound, union_complete, union-IsRun,
}

both-some {ℓ κ} :
    {A : Type ℓ} {B : Type κ} (x : Option A) (y : Option B) (a : A) (b : B)
    → both x y ≡ some (a, b)
    → (x ≡ some a) × (y ≡ some b)
both-some none y a b h = absurd cc
both-some (some c) none a b h = absurd cc
both-some (some c) (some d) a b h = (cc, cc)

break-nonempty : (x : CallAbiBreak) → x ∷ [] ≡ [] → ⊥
break-nonempty x h = ground arith

some-nonempty : (x : CallAbiBreak) (xs : List CallAbiBreak) → some (x ∷ xs) ≡ some [] → ⊥
some-nonempty x xs h = ground arith

module _ (function : String) (producer consumer : ContractSpec) where
  -- The pairs that the walk can go into.
  unfoldable pub universe : List UdtPair
  universe = all_pairs (owners producer) (owners consumer)

  abbrev pub IsBranch : String → String → Type 0
  IsBranch a b = is_cascaded (a, b) universe ≡ true

  module _ (check_udt : UdtCheck) (a b path : String) (v : List UdtPair) where
    module _ (R : UdtRelation)
        (sound : (x y p : String) → IsSilent (check_udt x y p v) → R x y) where
      pub kind_sound :
          IsSilent (kind_flow function producer consumer check_udt a b path v)
          → IsUdtAccepted producer consumer R a b
      unfolding kind_flow IsUdtAccepted
      kind_sound h = elim (Option-cases (both (get a producer.structs) (get b consumer.structs))) [
        | inr ((s, t), e) ↦
            rw (e, IsUdtAccepted)
              (struct_sound function producer consumer check_udt v path s t R sound
                (rw (e, kind_flow) at h))
        | inl e ↦ elim (Option-cases (both (get a producer.enums) (get b consumer.enums))) [
          | inr ((s, t), f) ↦
              rw (e, f, IsUdtAccepted)
                ((missing-IsSilent_iff function producer consumer
                    (enum_break function producer consumer) path (λ n. break-nonempty _) s.cases
                    t.cases).0
                  (rw (e, f, kind_flow) at h))
          | inl f ↦ elim (Option-cases (both (get a producer.unions) (get b consumer.unions))) [
            | inr ((s, t), g) ↦
                rw (e, f, g, IsUdtAccepted)
                  (union_sound function producer consumer check_udt v path R sound s.cases t.cases
                    (rw (e, f, g, kind_flow) at h))
            | inl g ↦
                elim (Option-cases
                  (both (get a producer.error_enums) (get b consumer.error_enums))) [
                    | inr ((s, t), k) ↦
                        rw (e, f, g, k, IsUdtAccepted)
                          ((missing-IsSilent_iff function producer consumer
                              (error_break function producer consumer) path (λ n. break-nonempty _)
                              s.cases t.cases).0
                            (rw (e, f, g, k, kind_flow) at h))
                    | inl k ↦ absurd (some-nonempty _ _ (rw (e, f, g, k, kind_flow) at h))
                  ]
          ]
        ]
      ]

    struct_pair :
        (s t : UdtStruct)
        → both (get a producer.structs) (get b consumer.structs) ≡ some (s, t)
        → IsBranch a b
    unfolding universe owners
    struct_pair s t e =
        let (p, q) = both-some _ _ s t e in
        is_cascaded-all_pairs a b (owners producer) (owners consumer)
          (member_left a _ _ (get-key a s _ p)) (member_left b _ _ (get-key b t _ q))

    union_pair :
        (s t : UdtUnion)
        → both (get a producer.unions) (get b consumer.unions) ≡ some (s, t)
        → IsBranch a b
    unfolding universe owners
    union_pair s t e =
        let (p, q) = both-some _ _ s t e in
        is_cascaded-all_pairs a b (owners producer) (owners consumer)
          (member_right a _ _ (get-key a s _ p)) (member_right b _ _ (get-key b t _ q))

    module _ (R : UdtRelation)
        (complete : IsBranch a b → (x y p : String) → R x y → IsSilent (check_udt x y p v)) where
      pub kind_complete :
          IsUdtAccepted producer consumer R a b
          → IsSilent (kind_flow function producer consumer check_udt a b path v)
      unfolding kind_flow IsUdtAccepted
      kind_complete h =
          elim (Option-cases (both (get a producer.structs) (get b consumer.structs))) [
            | inr ((s, t), e) ↦
                rw (e, kind_flow)
                  (struct_complete function producer consumer check_udt v path s t R
                    (complete (struct_pair s t e)) (rw (e, IsUdtAccepted) at h))
            | inl e ↦ elim (Option-cases (both (get a producer.enums) (get b consumer.enums))) [
              | inr ((s, t), f) ↦
                  rw (e, f, kind_flow)
                    ((missing-IsSilent_iff function producer consumer
                        (enum_break function producer consumer) path (λ n. break-nonempty _) s.cases
                        t.cases).1
                      (rw (e, f, IsUdtAccepted) at h))
              | inl f ↦ elim (Option-cases (both (get a producer.unions) (get b consumer.unions))) [
                | inr ((s, t), g) ↦
                    rw (e, f, g, kind_flow)
                      (union_complete function producer consumer check_udt v path R
                        (complete (union_pair s t g)) s.cases t.cases
                        (rw (e, f, g, IsUdtAccepted) at h))
                | inl g ↦
                    elim (Option-cases
                      (both (get a producer.error_enums) (get b consumer.error_enums))) [
                        | inr ((s, t), k) ↦
                            rw (e, f, g, k, kind_flow)
                              ((missing-IsSilent_iff function producer consumer
                                  (error_break function producer consumer) path
                                  (λ n. break-nonempty _) s.cases t.cases).1
                                (rw (e, f, g, k, IsUdtAccepted) at h))
                        | inl k ↦ absurd (rw (e, f, g, k, IsUdtAccepted) at h)
                      ]
              ]
            ]
          ]

    module _ (runs : IsBranch a b → (x y p : String) → IsRun (check_udt x y p v)) where
      pub kind-IsRun : IsRun (kind_flow function producer consumer check_udt a b path v)
      unfolding kind_flow
      kind-IsRun = elim (Option-cases (both (get a producer.structs) (get b consumer.structs))) [
        | inr ((s, t), e) ↦
            rw (e, kind_flow)
              (struct-IsRun function producer consumer check_udt v path s t
                (runs (struct_pair s t e)))
        | inl e ↦ elim (Option-cases (both (get a producer.enums) (get b consumer.enums))) [
          | inr (p, f) ↦ rw (e, f, kind_flow) refl
          | inl f ↦ elim (Option-cases (both (get a producer.unions) (get b consumer.unions))) [
            | inr ((s, t), g) ↦
                rw (e, f, g, kind_flow)
                  (union-IsRun function producer consumer check_udt v path (runs (union_pair s t g))
                    s.cases t.cases)
            | inl g ↦
                elim (Option-cases
                  (both (get a producer.error_enums) (get b consumer.error_enums))) [
                    | inr (p, k) ↦ rw (e, f, g, k, kind_flow) refl
                    | inl k ↦ rw (e, f, g, k, kind_flow) refl
                  ]
          ]
        ]
      ]

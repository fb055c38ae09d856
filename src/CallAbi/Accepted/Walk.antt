-- ===== src/CallAbi/Accepted/Walk.antt =====
-- src/call_abi.rs: `check_udt_flow` returns within `flow_rounds`, also where types embed each
-- other, and it is silent exactly where the types are accepted at every depth.
use soroban_upgrade_safeguar.Base.{
  ℕ, zero, suc, ◌+◌, ◌*◌, ◌∙◌, ◌≤◌, String, some, List, [], ◌∷◌, ◌≡◌, refl, ◌↔◌, inl, inr, Bool,
  true, false, ◌&&◌, arith, length, if◌then◌else◌, Bool-cases, str_eq, str_eq_iff, Every,
}
use soroban_upgrade_safeguar.Spec.{TypeDef, ContractSpec}
use soroban_upgrade_safeguar.Diff.Cascade.{owners}
use soroban_upgrade_safeguar.Diff.Cascade.Rounds.{
  unseen, unseen-cons, unseen-le, length-all_pairs, length-owners,
}
use soroban_upgrade_safeguar.CallAbi.Flow.{Flow, UdtPair, is_visiting, check_udt_flow, flow_rounds}
use soroban_upgrade_safeguar.CallAbi.Directions.{value_flow}
use soroban_upgrade_safeguar.CallAbi.Accepted.{UdtRelation, IsAcceptedTo, IsCompatible}
use soroban_upgrade_safeguar.CallAbi.Accepted.Values.{
  IsSilent, IsRun, value_sound, value_complete, value-IsRun,
}
use soroban_upgrade_safeguar.CallAbi.Accepted.Kinds.{
  universe, IsBranch, kind_sound, kind_complete, kind-IsRun,
}

visiting-holds :
    (R : UdtRelation) (a b : String) (v : List UdtPair)
    → Every (λ q. R q.0 q.1) v
    → is_visiting (a, b) v ≡ true
    → R a b
visiting-holds R a b [] h m = absurd (ground arith)
visiting-holds R a b ((c, d) ∷ v) (r, h) m = elim (Bool-cases (str_eq c a && str_eq d b)) [
  | inl e ↦
      rw
        (
          (str_eq_iff a c).0 (ground (arith, str_eq_iff a c, str_eq_iff c a)),
          (str_eq_iff b d).0 (ground (arith, str_eq_iff b d, str_eq_iff d b)),
        )
        r
  | inr e ↦ visiting-holds R a b v h (rw e at m)
]

fresh-IsSilent : (b : Bool) (g : Flow) → IsSilent g → IsSilent (if b then some [] else g)
fresh-IsSilent b g h = ground arith

fresh-IsRun : (b : Bool) (g : Flow) → IsRun g → IsRun (if b then some [] else g)
fresh-IsRun true g h = refl
fresh-IsRun false g h = h

module _ (function : String) (producer consumer : ContractSpec) where
  lower :
      (depth : ℕ) (v : List UdtPair)
      → Every (λ q. IsAcceptedTo producer consumer (suc depth) q.0 q.1) v
      → Every (λ q. IsAcceptedTo producer consumer depth q.0 q.1) v
  unfolding IsAcceptedTo
  lower depth [] h = tt
  lower depth (q ∷ v) h = (h.0.0, lower depth v h.1)

  udt_sound :
      (depth rounds : ℕ) (a b path : String) (v : List UdtPair)
      → Every (λ q. IsAcceptedTo producer consumer depth q.0 q.1) v
      → IsSilent (check_udt_flow function producer consumer rounds a b path v)
      → IsAcceptedTo producer consumer depth a b
  unfolding IsAcceptedTo check_udt_flow
  udt_sound zero rounds a b path v h s = tt
  udt_sound (suc depth) zero a b path v h s = absurd cc
  udt_sound (suc depth) (suc rounds) a b path v h s = elim (Bool-cases (is_visiting (a, b) v)) [
    | inl e ↦ visiting-holds (IsAcceptedTo producer consumer (suc depth)) a b v h e
    | inr e ↦
        let shallow = udt_sound depth (suc rounds) a b path v (lower depth v h) s in
        (
          shallow,
          kind_sound function producer consumer _ a b path ((a, b) ∷ v)
              (IsAcceptedTo producer consumer depth)
              (λ x y p t. udt_sound depth rounds x y p ((a, b) ∷ v) (shallow, lower depth v h) t)
              (rw e at s),
        )
  ]

  fits :
      (rounds : ℕ) (a b : String) (v : List UdtPair)
      → suc (unseen (universe function producer consumer) v) ≤ suc rounds
      → IsBranch function producer consumer a b
      → is_visiting (a, b) v ≡ false
      → suc (unseen (universe function producer consumer) ((a, b) ∷ v)) ≤ rounds
  fits rounds a b v le m e =
      omega (arith, unseen-cons (universe function producer consumer) (a, b) v m e)

  udt_complete :
      (rounds : ℕ) (a b path : String) (v : List UdtPair)
      → suc (unseen (universe function producer consumer) v) ≤ rounds
      → IsAcceptedTo producer consumer rounds a b
      → IsSilent (check_udt_flow function producer consumer rounds a b path v)
  unfolding IsAcceptedTo check_udt_flow
  udt_complete zero a b path v le h = absurd (omega arith)
  udt_complete (suc rounds) a b path v le h = elim (Bool-cases (is_visiting (a, b) v)) [
    | inl e ↦ rw e refl
    | inr e ↦ rw e (
        kind_complete function producer consumer _ a b path ((a, b) ∷ v)
          (IsAcceptedTo producer consumer rounds)
          (λ m x y p g. udt_complete rounds x y p ((a, b) ∷ v) (fits rounds a b v le m e) g) h.1)
  ]

  udt-IsRun :
      (rounds : ℕ) (a b path : String) (v : List UdtPair)
      → suc (unseen (universe function producer consumer) v) ≤ rounds
      → IsRun (check_udt_flow function producer consumer rounds a b path v)
  unfolding check_udt_flow
  udt-IsRun zero a b path v le = absurd (omega arith)
  udt-IsRun (suc rounds) a b path v le = elim (Bool-cases (is_visiting (a, b) v)) [
    | inl e ↦ rw e refl
    | inr e ↦ rw e (
        kind-IsRun function producer consumer _ a b path ((a, b) ∷ v)
          (λ m x y p. udt-IsRun rounds x y p ((a, b) ∷ v) (fits rounds a b v le m e)))
  ]

  length-universe :
      length (universe function producer consumer)
      ≡ (length producer.structs + length producer.unions)
        * (length consumer.structs + length consumer.unions)
  unfolding universe
  length-universe =
      length-all_pairs (owners producer) (owners consumer)
      ∙ rw (length-owners producer, length-owners consumer) refl

  -- One round is left for each pair that the walk can go into.
  rounds_fit :
      suc (unseen (universe function producer consumer) []) ≤ flow_rounds function producer consumer
  unfolding flow_rounds
  rounds_fit = omega (arith, unseen-le (universe function producer consumer) [], length-universe)

  pub value_flow-IsRun :
      (path : String) (a b : TypeDef) → IsRun (value_flow function producer consumer path a b)
  unfolding value_flow
  value_flow-IsRun path a b =
      value-IsRun function _ [] (λ x y p. udt-IsRun _ x y p [] rounds_fit) path a b

  -- A flow between two types is silent exactly when they are compatible at every depth.
  pub value_flow-IsSilent_iff :
      (path : String) (a b : TypeDef)
      → IsSilent (value_flow function producer consumer path a b)
        ↔ IsCompatible producer consumer a b
  unfolding value_flow IsCompatible
  value_flow-IsSilent_iff path a b = (
    (λ h depth.
        value_sound function _ [] (IsAcceptedTo producer consumer depth)
          (λ x y p s. udt_sound depth (flow_rounds function producer consumer) x y p [] tt s) path a
          b h),
    (λ h.
        value_complete function _ []
          (IsAcceptedTo producer consumer (flow_rounds function producer consumer))
          (λ x y p g. udt_complete _ x y p [] rounds_fit g) path a b (h _)),
  )

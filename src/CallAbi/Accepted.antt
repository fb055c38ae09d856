-- ===== src/CallAbi/Accepted.antt =====
-- What src/call_abi.rs promises of a flow, without paths, breaks or pairs in progress: every value
-- that the producer's type encodes is one that the consumer's type decodes. A pair of defined types
-- is accepted to a depth; types that embed each other are accepted when they are at every depth.
pub mod Values
pub mod Structs
pub mod Cases
pub mod Kinds
pub mod Walk
use soroban_upgrade_safeguar.Base.{
  ℕ, zero, suc, String, Option, none, some, List, ◌≡◌, ◌⊎◌, ◌==◌, true, any, Every,
}
use soroban_upgrade_safeguar.Spec.{
  TypeDef, TypeDefs, primitive, val, option, result, vec, map, tuple, udt, nil, cons, UdtStruct,
  EnumCase, UnionCase, void_v0, tuple_v0, ContractSpec, get,
}
use soroban_upgrade_safeguar.Diff.Unions.{union_case_name}
use soroban_upgrade_safeguar.CallAbi.Flow.{last_type, last_case, both}

-- A relation between the producer's and the consumer's defined types.
abbrev pub UdtRelation : Type 1
UdtRelation = String → String → Type 0

unfoldable mutual
  pub IsAccepted : UdtRelation → TypeDef → TypeDef → Type 0
  IsAccepted R (option a) (option b) = IsAccepted R a b
  IsAccepted R (vec a) (vec b) = IsAccepted R a b
  IsAccepted R (map k a) (map l b) = IsAccepted R k l × IsAccepted R a b
  IsAccepted R (tuple as_) (tuple bs) = AreAccepted R as_ bs
  IsAccepted R (result a e) (result b f) = IsAccepted R a b × IsAccepted R e f
  IsAccepted R (udt a) (udt b) = R a b
  IsAccepted R a b = (b ≡ primitive val) ⊎ (a ≡ b)

  -- As many types on both sides, each accepted.
  pub AreAccepted : UdtRelation → TypeDefs → TypeDefs → Type 0
  AreAccepted R nil nil = Unit
  AreAccepted R (cons a as_) (cons b bs) = IsAccepted R a b × AreAccepted R as_ bs
  AreAccepted R _ _ = ⊥

-- A field is on both sides and its type accepted, or on neither side.
abbrev pub IsFieldAccepted : UdtRelation → Option TypeDef → Option TypeDef → Type 0
IsFieldAccepted R none none = Unit
IsFieldAccepted R (some a) (some b) = IsAccepted R a b
IsFieldAccepted R _ _ = ⊥

unfoldable pub IsStructAccepted : UdtRelation → UdtStruct → UdtStruct → Type 0
IsStructAccepted R a b =
    (n : String) → IsFieldAccepted R (last_type n a.fields) (last_type n b.fields)

-- The consumer has every value that the producer has.
unfoldable pub IsEnumAccepted : List EnumCase → List EnumCase → Type 0
IsEnumAccepted produced accepted =
    (v : ℕ) → any (λ c. c.value == v) produced ≡ true → any (λ c. c.value == v) accepted ≡ true

-- The consumer's case of the name has the same shape, and its payload is accepted.
abbrev pub IsCaseAccepted : UdtRelation → UnionCase → Option UnionCase → Type 0
IsCaseAccepted R (void_v0 d n) (some (void_v0 e m)) = Unit
IsCaseAccepted R (tuple_v0 d n ts) (some (tuple_v0 e m us)) = AreAccepted R ts us
IsCaseAccepted R _ _ = ⊥

unfoldable pub IsUnionAccepted : UdtRelation → List UnionCase → List UnionCase → Type 0
IsUnionAccepted R as_ bs = Every (λ a. IsCaseAccepted R a (last_case (union_case_name a) bs)) as_

module _ (producer consumer : ContractSpec) where
  -- The first kind of type that both names have.
  unfoldable pub IsUdtAccepted : UdtRelation → String → String → Type 0
  IsUdtAccepted R a b = elim (both (get a producer.structs) (get b consumer.structs)) [
    | some (s, t) ↦ IsStructAccepted R s t
    | none ↦ elim (both (get a producer.enums) (get b consumer.enums)) [
      | some (s, t) ↦ IsEnumAccepted s.cases t.cases
      | none ↦ elim (both (get a producer.unions) (get b consumer.unions)) [
        | some (s, t) ↦ IsUnionAccepted R s.cases t.cases
        | none ↦ elim (both (get a producer.error_enums) (get b consumer.error_enums)) [
          | some (s, t) ↦ IsEnumAccepted s.cases t.cases
          | none ↦ ⊥
        ]
      ]
    ]
  ]

  -- Accepted at every depth up to this one.
  unfoldable pub IsAcceptedTo : ℕ → UdtRelation
  IsAcceptedTo zero a b = Unit
  IsAcceptedTo (suc depth) a b = IsAcceptedTo depth a b × IsUdtAccepted (IsAcceptedTo depth) a b

  -- The types are compatible, however deep the values are.
  unfoldable pub IsCompatible : TypeDef → TypeDef → Type 0
  IsCompatible a b = (depth : ℕ) → IsAccepted (IsAcceptedTo depth) a b

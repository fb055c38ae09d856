-- ===== src/CallAbi/Accepted/Values.antt =====
-- src/call_abi.rs: `check_value_flow` is silent exactly on the accepted pairs of types, where the
-- walk over defined types is, and it returns where this walk does.
use soroban_upgrade_safeguar.Base.{
  ℕ, suc, Bool, String, none, some, List, [], ◌∷◌, ◌≡◌, refl, ◌↔◌, ◌⊎◌, ◌==◌, ◌||◌, true, false,
  arith, if◌then◌else◌, append-nil_iff, is_some,
}
use soroban_upgrade_safeguar.Spec.{
  TypeDef, TypeDefs, primitive, val, option, result, vec, map, tuple, udt, nil, cons, types_len,
  types_equal,
}
use soroban_upgrade_safeguar.Spec.Equality.{types_equal_iff}
use soroban_upgrade_safeguar.CallAbi.{CallAbiBreak}
use soroban_upgrade_safeguar.CallAbi.Flow.{
  Flow, UdtPair, UdtCheck, and_flow, is_val, check_value_flow, check_value_flows, encodes_decodes,
  tuple_lengths,
}
use soroban_upgrade_safeguar.CallAbi.Accepted.{UdtRelation, IsAccepted, AreAccepted}

-- The walk pushed no break.
abbrev pub IsSilent : Flow → Type 0
IsSilent g = g ≡ some []

-- The walk ended within its rounds.
abbrev pub IsRun : Flow → Type 0
IsRun g = is_some g ≡ true

pub and_flow-IsSilent_iff : (f g : Flow) → IsSilent (and_flow f g) ↔ (IsSilent f × IsSilent g)
and_flow-IsSilent_iff none g = ground arith
and_flow-IsSilent_iff (some xs) none = ground arith
and_flow-IsSilent_iff (some xs) (some ys) = ground (arith, append-nil_iff xs ys)

pub and_flow-IsRun : (f g : Flow) → IsRun f → IsRun g → IsRun (and_flow f g)
and_flow-IsRun none g h k = ground arith
and_flow-IsRun (some xs) none h k = ground arith
and_flow-IsRun (some xs) (some ys) h k = refl

-- A flow under a test is silent when the test holds and the flow is silent.
pub guarded-IsSilent_iff :
    (b : Bool) (g : Flow) (x : CallAbiBreak)
    → IsSilent (if b then g else some (x ∷ [])) ↔ ((b ≡ true) × IsSilent g)
guarded-IsSilent_iff b g x = ground arith

pub guarded-IsRun :
    (b : Bool) (g : Flow) (xs : List CallAbiBreak) → IsRun g → IsRun (if b then g else some xs)
guarded-IsRun true g xs h = h
guarded-IsRun false g xs h = refl

pub suc_iff : (m n : ℕ) → ((suc m == suc n) ≡ true) ↔ ((m == n) ≡ true)
suc_iff m n = ground arith

pub zero_or_suc : (n : ℕ) → (0 == suc n) ≡ true → ⊥
zero_or_suc n h = ground arith

pub suc_or_zero : (n : ℕ) → (suc n == 0) ≡ true → ⊥
suc_or_zero n h = ground arith

is_val_iff : (b : TypeDef) → (is_val b ≡ true) ↔ (b ≡ primitive val)
is_val_iff b = (sound b, λ e. rw e refl)
  where
    sound : (b : TypeDef) → is_val b ≡ true → b ≡ primitive val
    sound (primitive val) h = refl
    sound _ h = cc

module _ (function : String) where
  leaf_iff :
      (path : String) (a b : TypeDef)
      → IsSilent (
          if is_val b || types_equal a b then some [] else some (encodes_decodes function path a b))
        ↔ ((b ≡ primitive val) ⊎ (a ≡ b))
  unfolding encodes_decodes
  leaf_iff path a b = ground (arith, is_val_iff b, types_equal_iff a b)

  module _ (check_udt : UdtCheck) (v : List UdtPair) where
    module _ (R : UdtRelation)
        (sound : (a b path : String) → IsSilent (check_udt a b path v) → R a b) where
      mutual
        unfolding check_value_flow IsAccepted tuple_lengths

        pub value_sound :
            (path : String) (a b : TypeDef)
            → IsSilent (check_value_flow function check_udt path a b v)
            → IsAccepted R a b
        value_sound path (option a) (option b) h = value_sound _ a b h
        value_sound path (vec a) (vec b) h = value_sound _ a b h
        value_sound path (map k a) (map l b) h =
            let (p, q) = (and_flow-IsSilent_iff _ _).0 h in
            (value_sound _ k l p, value_sound _ a b q)
        value_sound path (tuple as_) (tuple bs) h =
            let (p, q) = (guarded-IsSilent_iff _ _ _).0 h in values_sound path 0 as_ bs p q
        value_sound path (result a e) (result b f) h =
            let (p, q) = (and_flow-IsSilent_iff _ _).0 h in
            (value_sound _ a b p, value_sound _ e f q)
        value_sound path (udt a) (udt b) h = sound a b path h
        value_sound path a b h = (leaf_iff path a b).0 h

        pub values_sound :
            (path : String) (index : ℕ) (as_ bs : TypeDefs)
            → (types_len as_ == types_len bs) ≡ true
            → IsSilent (check_value_flows function check_udt path index as_ bs v)
            → AreAccepted R as_ bs
        values_sound path index nil nil e h = tt
        values_sound path index (cons a as_) (cons b bs) e h =
            let (p, q) = (and_flow-IsSilent_iff _ _).0 h in
            (value_sound _ a b p, values_sound path (suc index) as_ bs ((suc_iff _ _).0 e) q)
        values_sound path index nil (cons b bs) e h = absurd (zero_or_suc (types_len bs) e)
        values_sound path index (cons a as_) nil e h = absurd (suc_or_zero (types_len as_) e)

    module _ (R : UdtRelation)
        (complete : (a b path : String) → R a b → IsSilent (check_udt a b path v)) where
      mutual
        unfolding check_value_flow IsAccepted tuple_lengths

        pub value_complete :
            (path : String) (a b : TypeDef)
            → IsAccepted R a b
            → IsSilent (check_value_flow function check_udt path a b v)
        value_complete path (option a) (option b) h = value_complete _ a b h
        value_complete path (vec a) (vec b) h = value_complete _ a b h
        value_complete path (map k a) (map l b) (p, q) =
            (and_flow-IsSilent_iff _ _).1 (value_complete _ k l p, value_complete _ a b q)
        value_complete path (tuple as_) (tuple bs) h =
            let (p, q) = values_complete path 0 as_ bs h in (guarded-IsSilent_iff _ _ _).1 (p, q)
        value_complete path (result a e) (result b f) (p, q) =
            (and_flow-IsSilent_iff _ _).1 (value_complete _ a b p, value_complete _ e f q)
        value_complete path (udt a) (udt b) h = complete a b path h
        value_complete path a b h = (leaf_iff path a b).1 h

        pub values_complete :
            (path : String) (index : ℕ) (as_ bs : TypeDefs)
            → AreAccepted R as_ bs
            → ((types_len as_ == types_len bs) ≡ true)
              × IsSilent (check_value_flows function check_udt path index as_ bs v)
        values_complete path index nil nil h = (refl, refl)
        values_complete path index (cons a as_) (cons b bs) (p, q) =
            let (e, rest) = values_complete path (suc index) as_ bs q in
            ((suc_iff _ _).1 e, (and_flow-IsSilent_iff _ _).1 (value_complete _ a b p, rest))
        values_complete path index nil (cons b bs) h = elim h [ ]
        values_complete path index (cons a as_) nil h = elim h [ ]

    module _ (runs : (a b path : String) → IsRun (check_udt a b path v)) where
      mutual
        unfolding check_value_flow tuple_lengths

        pub value-IsRun :
            (path : String) (a b : TypeDef) → IsRun (check_value_flow function check_udt path a b v)
        value-IsRun path (option a) (option b) = value-IsRun _ a b
        value-IsRun path (vec a) (vec b) = value-IsRun _ a b
        value-IsRun path (map k a) (map l b) =
            and_flow-IsRun _ _ (value-IsRun _ k l) (value-IsRun _ a b)
        value-IsRun path (tuple as_) (tuple bs) = guarded-IsRun _ _ _ (values-IsRun path 0 as_ bs)
        value-IsRun path (result a e) (result b f) =
            and_flow-IsRun _ _ (value-IsRun _ a b) (value-IsRun _ e f)
        value-IsRun path (udt a) (udt b) = runs a b path
        value-IsRun path a b = guarded-IsRun (is_val b || types_equal a b) (some []) _ refl

        pub values-IsRun :
            (path : String) (index : ℕ) (as_ bs : TypeDefs)
            → IsRun (check_value_flows function check_udt path index as_ bs v)
        values-IsRun path index (cons a as_) (cons b bs) =
            and_flow-IsRun _ _ (value-IsRun _ a b) (values-IsRun path (suc index) as_ bs)
        values-IsRun path index nil _ = refl
        values-IsRun path index (cons a as_) nil = refl

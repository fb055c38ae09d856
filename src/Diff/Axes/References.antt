-- ===== src/Diff/Axes/References.antt =====
-- src/diff.rs: `references_type` finds exactly the types that lead to its target.
pub mod Sound
pub mod Complete
pub mod Rounds
use soroban_upgrade_safeguar.Base.{
  ℕ, suc, ◌≡◌, ◌⊎◌, String, List, [], ◌∷◌, Bool, true, false, not, count, is_member, length,
}
use soroban_upgrade_safeguar.Spec.{
  TypeDef, TypeDefs, option, result, vec, map, tuple, udt, nil, cons, ContractSpec,
}
use soroban_upgrade_safeguar.Diff.Axes.{members}

unfoldable mutual
  -- The name occurs in the type itself.
  pub Mentions : String → TypeDef → Type 0
  Mentions m (udt n) = n ≡ m
  Mentions m (option t) = Mentions m t
  Mentions m (result t e) = Mentions m t ⊎ Mentions m e
  Mentions m (vec t) = Mentions m t
  Mentions m (map k t) = Mentions m k ⊎ Mentions m t
  Mentions m (tuple ts) = MentionsAny m ts
  Mentions m _ = ⊥

  pub MentionsAny : String → TypeDefs → Type 0
  MentionsAny m nil = ⊥
  MentionsAny m (cons t ts) = Mentions m t ⊎ MentionsAny m ts

-- A name leads to the target: it is the target, or its members mention a name that does.
pub data LeadsTo (spec : ContractSpec) (target : String) : String → Type 0 where
  here : LeadsTo spec target target
  through :
      (n m : String)
      → MentionsAny m (members spec n)
      → LeadsTo spec target m
      → LeadsTo spec target n

-- The type mentions a name that leads to the target.
unfoldable pub IsUse : ContractSpec → String → TypeDef → Type 0
IsUse spec target t = (n : String) × Mentions n t × LeadsTo spec target n

-- ===== src/Diff/Axes/References/Sound.antt =====
-- src/diff.rs: what the search finds leads to its target.
use soroban_upgrade_safeguar.Base.{
  ℕ, zero, suc, ◌≡◌, refl, ◌⊎◌, inl, inr, String, List, ◌∷◌, true, false, none, some, arith,
  is_member, str_eq, str_eq_iff, Bool-cases,
}
use soroban_upgrade_safeguar.Spec.{
  TypeDef, TypeDefs, primitive, option, result, vec, map, tuple, bytes_n, udt, nil, cons,
  ContractSpec,
}
use soroban_upgrade_safeguar.Diff.Axes.{Found, and_search, walk, walk_all, members, expand}
use soroban_upgrade_safeguar.Diff.Axes.References.{Mentions, MentionsAny, LeadsTo, here, through}

abbrev missed : List String → Found
missed v = some (false, v)

abbrev hit : List String → Found
hit v = some (true, v)

missed-hit : (v w : List String) → missed v ≡ hit w → ⊥
missed-hit v w h = ground arith

-- Where a search found the target, its first or its second part did.
and_search-found :
    (f : Found) (k : List String → Found) (w : List String)
    → and_search f k ≡ some (true, w)
    → ((v : List String) × (f ≡ some (true, v))) ⊎ ((v : List String) × (k v ≡ some (true, w)))
and_search-found none k w h = absurd (ground arith)
and_search-found (some (true, v)) k w h = inl (v, refl)
and_search-found (some (false, v)) k w h = inr (v, h)

module _ (spec : ContractSpec) (target : String) where
  abbrev UseIn : TypeDef → Type 0
  UseIn t = (n : String) × Mentions n t × LeadsTo spec target n

  abbrev UseInAny : TypeDefs → Type 0
  UseInAny ts = (n : String) × MentionsAny n ts × LeadsTo spec target n

  module _ (search : String → List String → Found)
      (sound : (n : String) (v w : List String)
        → search n v ≡ some (true, w)
        → LeadsTo spec target n) where
    named :
        (n : String) (v w : List String)
        → walk target search (udt n) v ≡ some (true, w)
        → LeadsTo spec target n
    unfolding walk
    named n v w h = elim (Bool-cases (str_eq n target)) [
      | inl e ↦ rw ((str_eq_iff n target).0 e) here
      | inr e ↦ elim (Bool-cases (is_member n v)) [
        | inl k ↦ absurd (missed-hit v w (rw (e, k) at h))
        | inr k ↦ sound n (n ∷ v) w (rw (e, k) at h)
      ]
    ]

    mutual
      unfolding walk Mentions

      pub walk-UseIn :
          (t : TypeDef) (v w : List String) → walk target search t v ≡ some (true, w) → UseIn t
      walk-UseIn (udt n) v w h = (n, refl, named n v w h)
      walk-UseIn (option t) v w h = walk-UseIn t v w h
      walk-UseIn (result t e) v w h = elim (and_search-found (walk target search t v) _ w h) [
        | inl (x, p) ↦ let (n, m, l) = walk-UseIn t v x p in (n, inl m, l)
        | inr (x, p) ↦ let (n, m, l) = walk-UseIn e x w p in (n, inr m, l)
      ]
      walk-UseIn (vec t) v w h = walk-UseIn t v w h
      walk-UseIn (map k t) v w h = elim (and_search-found (walk target search k v) _ w h) [
        | inl (x, p) ↦ let (n, m, l) = walk-UseIn k v x p in (n, inl m, l)
        | inr (x, p) ↦ let (n, m, l) = walk-UseIn t x w p in (n, inr m, l)
      ]
      walk-UseIn (tuple ts) v w h = walk_all-UseInAny ts v w h
      walk-UseIn (primitive p) v w h = absurd (ground arith)
      walk-UseIn (bytes_n k) v w h = absurd (ground arith)

      pub walk_all-UseInAny :
          (ts : TypeDefs) (v w : List String)
          → walk_all target search ts v ≡ some (true, w)
          → UseInAny ts
      walk_all-UseInAny nil v w h = absurd (ground arith)
      walk_all-UseInAny (cons t ts) v w h = elim (and_search-found (walk target search t v) _ w h) [
        | inl (x, p) ↦ let (n, m, l) = walk-UseIn t v x p in (n, inl m, l)
        | inr (x, p) ↦ let (n, m, l) = walk_all-UseInAny ts x w p in (n, inr m, l)
      ]

  pub expand-LeadsTo :
      (rounds : ℕ) (n : String) (v w : List String)
      → expand spec target rounds n v ≡ some (true, w)
      → LeadsTo spec target n
  unfolding expand
  expand-LeadsTo zero n v w h = absurd (ground arith)
  expand-LeadsTo (suc rounds) n v w h =
      let (m, k, l) =
        walk_all-UseInAny (expand spec target rounds) (expand-LeadsTo rounds) (members spec n) v w
          h in
      through n m k l

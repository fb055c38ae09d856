-- ===== src/Diff/Axes/References/Complete.antt =====
-- src/diff.rs: the search for a target ends within its rounds, and what it does not find does not
-- lead to the target: the visited set is closed under the members of its names.
use soroban_upgrade_safeguar.Base.{
  ℕ, zero, suc, ◌≡◌, refl, ◌⊎◌, inl, inr, String, List, [], ◌∷◌, true, false, none, some, arith,
  is_member, str_eq, str_eq_iff, Bool-cases, sym,
}
use soroban_upgrade_safeguar.Spec.{
  TypeDef, TypeDefs, primitive, option, result, vec, map, tuple, bytes_n, udt, nil, cons,
  ContractSpec,
}
use soroban_upgrade_safeguar.Diff.Axes.{Found, and_search, walk, walk_all, members, expand}
use soroban_upgrade_safeguar.Diff.Axes.References.{Mentions, MentionsAny, LeadsTo, here, through}

-- A search that missed missed in both of its parts.
and_search-missed :
    (f : Found) (k : List String → Found) (w : List String)
    → and_search f k ≡ some (false, w)
    → (v : List String) × (f ≡ some (false, v)) × (k v ≡ some (false, w))
and_search-missed none k w h = absurd (ground arith)
and_search-missed (some (true, v)) k w h = absurd (ground arith)
and_search-missed (some (false, v)) k w h = (v, refl, h)

same_visited : (v w : List String) (f : Found) → f ≡ some (false, v) → f ≡ some (false, w) → v ≡ w
same_visited v w f h k = ground arith

module _ (spec : ContractSpec) (target : String) where
  -- From `v` to `w` the visited set only grew, by names whose members mention visited names only,
  -- and none of them is the target.
  abbrev pub IsGrowth : List String → List String → Type 0
  IsGrowth v w =
      ((x : String) → is_member x v ≡ true → is_member x w ≡ true)
      × ((x : String)
          → is_member x w ≡ true
          → (is_member x v ≡ true)
            ⊎ ((str_eq x target ≡ false)
                × ((m : String) → MentionsAny m (members spec x) → is_member m w ≡ true)))

  IsGrowth-refl : (v : List String) → IsGrowth v v
  IsGrowth-refl v = ((λ x m. m), (λ x m. inl m))

  IsGrowth-trans : (v w u : List String) → IsGrowth v w → IsGrowth w u → IsGrowth v u
  IsGrowth-trans v w u (a, b) (c, d) = (
    (λ x m. c x (a x m)),
    (λ x m. elim (d x m) [
      | inr r ↦ inr r
      | inl k ↦ elim (b x k) [ inl j ↦ inl j | inr (ne, r) ↦ inr (ne, λ y t. c y (r y t)) ]
    ]),
  )

  -- A name that was pushed, and what the search of its members visited.
  IsGrowth-of_push :
      (n : String) (v w : List String)
      → str_eq n target ≡ false
      → IsGrowth (n ∷ v) w
      → ((m : String) → MentionsAny m (members spec n) → is_member m w ≡ true)
      → IsGrowth v w
  IsGrowth-of_push n v w ne (a, b) ms = (
    (λ x m. a x (ground arith)),
    (λ x m. elim (b x m) [
      | inr r ↦ inr r
      | inl k ↦ elim (Bool-cases (str_eq n x)) [
        | inl e ↦ rw (sym ((str_eq_iff n x).0 e)) (inr (ne, ms))
        | inr e ↦ inl (rw e at k)
      ]
    ]),
  )

  module _ (search : String → List String → Found)
      (complete : (n : String) (v w : List String)
        → search n v ≡ some (false, w)
        → IsGrowth v w
          × ((m : String) → MentionsAny m (members spec n) → is_member m w ≡ true)) where
    named-IsGrowth :
        (n : String) (v w : List String)
        → walk target search (udt n) v ≡ some (false, w)
        → IsGrowth v w × (is_member n w ≡ true)
    unfolding walk
    named-IsGrowth n v w h = elim (Bool-cases (str_eq n target)) [
      | inl e ↦ absurd (ground (arith, (rw e at h)))
      | inr e ↦ elim (Bool-cases (is_member n v)) [
        | inl k ↦ rw (sym (same_visited v w _ refl (rw (e, k) at h))) (IsGrowth-refl v, k)
        | inr k ↦
            let (g, ms) = complete n (n ∷ v) w (rw (e, k) at h) in
            (IsGrowth-of_push n v w e g ms, g.0 n (ground (arith, str_eq_iff n n)))
      ]
    ]

    mutual
      unfolding walk Mentions

      pub walk-IsGrowth :
          (t : TypeDef) (v w : List String)
          → walk target search t v ≡ some (false, w)
          → IsGrowth v w × ((m : String) → Mentions m t → is_member m w ≡ true)
      walk-IsGrowth (udt n) v w h = let (g, k) = named-IsGrowth n v w h in (g, λ m e. rw (sym e) k)
      walk-IsGrowth (option t) v w h = walk-IsGrowth t v w h
      walk-IsGrowth (vec t) v w h = walk-IsGrowth t v w h
      walk-IsGrowth (result t e) v w h =
          let (x, p, q) = and_search-missed (walk target search t v) _ w h in
          let (g, a) = walk-IsGrowth t v x p in
          let (k, b) = walk-IsGrowth e x w q in
          (IsGrowth-trans v x w g k, λ m o. elim o [ inl y ↦ k.0 m (a m y) | inr y ↦ b m y ])
      walk-IsGrowth (map s t) v w h =
          let (x, p, q) = and_search-missed (walk target search s v) _ w h in
          let (g, a) = walk-IsGrowth s v x p in
          let (k, b) = walk-IsGrowth t x w q in
          (IsGrowth-trans v x w g k, λ m o. elim o [ inl y ↦ k.0 m (a m y) | inr y ↦ b m y ])
      walk-IsGrowth (tuple ts) v w h = walk_all-IsGrowth ts v w h
      walk-IsGrowth (primitive p) v w h =
          rw (sym (same_visited v w _ refl h)) (IsGrowth-refl v, λ m o. elim o [ ])
      walk-IsGrowth (bytes_n n) v w h =
          rw (sym (same_visited v w _ refl h)) (IsGrowth-refl v, λ m o. elim o [ ])

      walk_all-IsGrowth :
          (ts : TypeDefs) (v w : List String)
          → walk_all target search ts v ≡ some (false, w)
          → IsGrowth v w × ((m : String) → MentionsAny m ts → is_member m w ≡ true)
      walk_all-IsGrowth nil v w h =
          rw (sym (same_visited v w _ refl h)) (IsGrowth-refl v, λ m o. elim o [ ])
      walk_all-IsGrowth (cons t ts) v w h =
          let (x, p, q) = and_search-missed (walk target search t v) _ w h in
          let (g, a) = walk-IsGrowth t v x p in
          let (k, b) = walk_all-IsGrowth ts x w q in
          (IsGrowth-trans v x w g k, λ m o. elim o [ inl y ↦ k.0 m (a m y) | inr y ↦ b m y ])

  pub expand-IsGrowth :
      (rounds : ℕ) (n : String) (v w : List String)
      → expand spec target rounds n v ≡ some (false, w)
      → IsGrowth v w × ((m : String) → MentionsAny m (members spec n) → is_member m w ≡ true)
  unfolding expand
  expand-IsGrowth zero n v w h = absurd (ground arith)
  expand-IsGrowth (suc rounds) n v w h =
      walk_all-IsGrowth (expand spec target rounds) (expand-IsGrowth rounds) (members spec n) v w h

  -- No visited name leads to the target.
  pub visited-LeadsTo :
      (w : List String) (n : String)
      → IsGrowth [] w
      → is_member n w ≡ true
      → LeadsTo spec target n
      → ⊥
  visited-LeadsTo w _ (a, b) m here = elim (b target m) [
    | inl k ↦ ground arith
    | inr r ↦ ground (arith, str_eq_iff target target)
  ]
  visited-LeadsTo w n (a, b) m (through _ k o l) = elim (b n m) [
    | inl j ↦ ground arith
    | inr (ne, r) ↦ visited-LeadsTo w k (a, b) (r k o) l
  ]

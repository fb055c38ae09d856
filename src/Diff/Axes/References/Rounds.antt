-- ===== src/Diff/Axes/References/Rounds.antt =====
-- src/diff.rs: the search for the uses of a type ends within `search_rounds`, so that it finds
-- exactly the types that lead to its target.
use soroban_upgrade_safeguar.Base.{
  ℕ, ◌≤◌, ◌≡◌, refl, inl, inr, String, List, ◌∷◌, Bool, true, false, not, some, arith, count,
  is_member, str_eq, Bool-cases,
}
use soroban_upgrade_safeguar.Spec.{
  TypeDef, TypeDefs, primitive, option, result, vec, map, tuple, bytes_n, udt, nil, cons,
  ContractSpec,
}
use soroban_upgrade_safeguar.Diff.Cascade.{owners}
use soroban_upgrade_safeguar.Diff.Axes.{Found, and_search, walk, walk_all}

-- The names that are not visited yet.
abbrev unvisited : List String → List String → ℕ
unvisited names v = count (λ n. not (is_member n v)) names

module _ (spec : ContractSpec) (target : String) where
  -- The search from `v` returned, and no name was forgotten.
  abbrev IsDone : Found → List String → Type 0
  IsDone f v =
      (b : Bool) × (w : List String) × (f ≡ some (b, w))
      × (unvisited (owners spec) w ≤ unvisited (owners spec) v)

  and_search-IsDone :
      (f : Found) (k : List String → Found) (v : List String)
      → IsDone f v
      → ((w : List String) → unvisited (owners spec) w ≤ unvisited (owners spec) v → IsDone (k w) w)
      → IsDone (and_search f k) v
  and_search-IsDone f k v (true, w, e, le) h = rw e (true, w, refl, le)
  and_search-IsDone f k v (false, w, e, le) h =
      let (b, u, e2, le2) = h w le in rw e (b, u, e2, omega arith)

  module _ (search : String → List String → Found) (rounds : ℕ)
      (done : (n : String) (v : List String)
        → is_member n v ≡ false
        → unvisited (owners spec) v ≤ rounds
        → IsDone (search n (n ∷ v)) v) where
    named-IsDone :
        (n : String) (v : List String)
        → unvisited (owners spec) v ≤ rounds
        → IsDone (walk target search (udt n) v) v
    unfolding walk
    named-IsDone n v le = elim (Bool-cases (str_eq n target)) [
      | inl e ↦ rw e (true, v, refl, omega arith)
      | inr e ↦ elim (Bool-cases (is_member n v)) [
        | inl k ↦ rw (e, k) (false, v, refl, omega arith)
        | inr k ↦ rw (e, k) (done n v k le)
      ]
    ]

    mutual
      unfolding walk

      walk-IsDone :
          (t : TypeDef) (v : List String)
          → unvisited (owners spec) v ≤ rounds
          → IsDone (walk target search t v) v
      walk-IsDone (udt n) v le = named-IsDone n v le
      walk-IsDone (option t) v le = walk-IsDone t v le
      walk-IsDone (vec t) v le = walk-IsDone t v le
      walk-IsDone (result t e) v le =
          and_search-IsDone _ _ v (walk-IsDone t v le) (λ w d. walk-IsDone e w (omega arith))
      walk-IsDone (map k t) v le =
          and_search-IsDone _ _ v (walk-IsDone k v le) (λ w d. walk-IsDone t w (omega arith))
      walk-IsDone (tuple ts) v le = walk_all-IsDone ts v le
      walk-IsDone (primitive p) v le = (false, v, refl, omega arith)
      walk-IsDone (bytes_n n) v le = (false, v, refl, omega arith)

      walk_all-IsDone :
          (ts : TypeDefs) (v : List String)
          → unvisited (owners spec) v ≤ rounds
          → IsDone (walk_all target search ts v) v
      walk_all-IsDone nil v le = (false, v, refl, omega arith)
      walk_all-IsDone (cons t ts) v le =
          and_search-IsDone _ _ v (walk-IsDone t v le) (λ w d. walk_all-IsDone ts w (omega arith))

-- ===== src/Diff/Cascade/Rounds.antt =====
-- src/diff.rs: the `while` loop of `detect_cascading_layout_breaks` ends.
use soroban_upgrade_safeguar.Base.{
  ℕ, zero, suc, ◌+◌, ◌*◌, ◌≤◌, ◌≡◌, String, List, [], ◌∷◌, ◌++◌, true, false, not, ◌&&◌, ◌||◌, some,
  ◌∙◌, Every, Every-append, Every-split, Every-of_map, IsSubset-refl, ap, for_each, count,
  is_member, length, map_list, length-append, str_eq, str_eq_iff, str_eq_refl, arith, Bool-cases,
  inl, inr, refl,
}
use soroban_upgrade_safeguar.Spec.{ContractSpec, Dict, get}
use soroban_upgrade_safeguar.Mapper.Graph.{build_reverse_dependencies, dependents}
use soroban_upgrade_safeguar.Mapper.Graph.Owners.{dependents-Every}
use soroban_upgrade_safeguar.Diff.{Finding}
use soroban_upgrade_safeguar.Diff.Kinds.{keys}
use soroban_upgrade_safeguar.Diff.Cascade.{
  Pair, is_cascaded, cascade_finding, fresh, pairs, cascade_loop, owners, start, cascade_rounds,
}

-- The pairs of `universe` that the set does not hold yet.
abbrev pub unseen : List Pair → List Pair → ℕ
unseen universe seen = count (λ p. not (is_cascaded p seen)) universe

is_cascaded-swap :
    (p q : Pair) (xs ys : List Pair) → is_cascaded p (xs ++ q ∷ ys) ≡ is_cascaded p (q ∷ (xs ++ ys))
is_cascaded-swap p q [] ys = refl
is_cascaded-swap p q (x ∷ xs) ys = ground (arith, is_cascaded-swap p q xs ys)

unseen-swap :
    (universe : List Pair) (q : Pair) (xs ys : List Pair)
    → unseen universe (xs ++ q ∷ ys) ≡ unseen universe (q ∷ (xs ++ ys))
unseen-swap [] q xs ys = refl
unseen-swap (p ∷ universe) q xs ys =
    rw (is_cascaded-swap p q xs ys, unseen-swap universe q xs ys) refl

unseen_mono :
    (universe : List Pair) (q : Pair) (seen : List Pair)
    → unseen universe (q ∷ seen) ≤ unseen universe seen
unseen_mono [] q seen = omega arith
unseen_mono (p ∷ universe) q seen = ground (arith, unseen_mono universe q seen)

pub unseen-cons :
    (universe : List Pair) (q : Pair) (seen : List Pair)
    → is_cascaded q universe ≡ true
    → is_cascaded q seen ≡ false
    → unseen universe (q ∷ seen) + 1 ≤ unseen universe seen
unseen-cons [] q seen h k = ground arith
unseen-cons ((a, b) ∷ universe) (c, d) seen h k = elim (Bool-cases (str_eq a c && str_eq b d)) [
  | inl e ↦
      rw ((str_eq_iff a c).0 (ground arith), (str_eq_iff b d).0 (ground arith))
        (ground (arith, unseen_mono universe (c, d) seen, str_eq_refl c, str_eq_refl d))
  | inr e ↦ ground (
    arith,
    unseen-cons universe (c, d) seen (ground arith) k,
    str_eq_iff a c,
    str_eq_iff c a,
    str_eq_iff b d,
    str_eq_iff d b,
  )
]

-- Each fresh dependent takes one pair of the universe.
unseen-fresh :
    (universe : List Pair) (root : String) (deps : List String) (seen : List Pair)
    → Every (λ d. is_cascaded (d, root) universe ≡ true) deps
    → unseen universe (pairs root (fresh root deps seen) ++ seen) + length (fresh root deps seen)
      ≤ unseen universe seen
unfolding fresh
unseen-fresh universe root [] seen h = omega arith
unseen-fresh universe root (dep ∷ deps) seen (m, h) =
    elim (Bool-cases (is_cascaded (dep, root) seen)) [
      | inl e ↦ rw (e, fresh) (unseen-fresh universe root deps seen h)
      | inr e ↦
          let later = fresh root deps ((dep, root) ∷ seen) in
          rw (e, fresh)
            (omega (
              arith,
              unseen-swap universe (dep, root) (pairs root later) seen,
              unseen-fresh universe root deps ((dep, root) ∷ seen) h,
              unseen-cons universe (dep, root) seen m e,
            ))
    ]

length-pairs : (root : String) (deps : List String) → length (pairs root deps) ≡ length deps
length-pairs root [] = refl
length-pairs root (d ∷ deps) = ap suc (length-pairs root deps)

pairs-root :
    (roots : List String) (root : String) (deps : List String)
    → is_member root roots ≡ true
    → Every (λ (p : Pair). is_member p.1 roots ≡ true) (pairs root deps)
pairs-root roots root [] h = tt
pairs-root roots root (d ∷ deps) h = (h, pairs-root roots root deps h)

module _ (deps : String → List String) (universe : List Pair) (roots : List String)
    (covers : (broken root : String)
      → is_member root roots ≡ true
      → Every (λ d. is_cascaded (d, root) universe ≡ true) (deps broken)) where
  loop-some :
      (rounds : ℕ) (queue seen : List Pair)
      → Every (λ (p : Pair). is_member p.1 roots ≡ true) queue
      → length queue + unseen universe seen ≤ rounds
      → (found : List Finding) × (cascade_loop deps rounds queue seen ≡ some found)
  unfolding cascade_loop
  loop-some zero [] seen h le = ([], refl)
  loop-some (suc rounds) [] seen h le = ([], refl)
  loop-some zero (q ∷ queue) seen h le = absurd (omega arith)
  loop-some (suc rounds) ((broken, root) ∷ queue) seen (m, h) le =
      let new = fresh root (deps broken) seen in
      let rest =
        loop-some rounds (queue ++ pairs root new) (pairs root new ++ seen)
          (Every-append _ queue (pairs root new) h (pairs-root roots root new m))
          (omega (
            arith,
            unseen-fresh universe root (deps broken) seen (covers broken root m),
            length-append queue (pairs root new),
            length-pairs root new,
          )) in
      (map_list (cascade_finding broken root) new ++ rest.0, rw (rest.1) refl)

length-keys : {V : Type 0} (m : Dict V) → length (keys m) ≡ length m
length-keys [] = refl
length-keys (e ∷ m) = ap suc (length-keys m)

pub length-owners : (s : ContractSpec) → length (owners s) ≡ length s.structs + length s.unions
unfolding owners
length-owners s =
    length-append (keys s.structs) (keys s.unions)
    ∙ rw (length-keys s.structs, length-keys s.unions) refl

-- A name that is found is a key.
pub get-key :
    {V : Type 0} (k : String) (x : V) (m : Dict V) → get k m ≡ some x → is_member k (keys m) ≡ true
unfolding get
get-key k x [] h = absurd cc
get-key k x ((j, y) ∷ m) h = ground (arith, get-key k x m)

-- The pairs that can be pushed: each owner with each root.
pub all_pairs : List String → List String → List Pair
all_pairs names roots = for_each (λ r. pairs r names) roots

pub length-all_pairs :
    (names roots : List String) → length (all_pairs names roots) ≡ length names * length roots
unfolding all_pairs
length-all_pairs names [] = omega arith
length-all_pairs names (r ∷ roots) = omega (
  arith,
  length-all_pairs names roots,
  length-pairs r names,
  length-append (pairs r names) (all_pairs names roots),
)

pub unseen-le : (universe seen : List Pair) → unseen universe seen ≤ length universe
unseen-le [] seen = omega arith
unseen-le (p ∷ universe) seen = ground (arith, unseen-le universe seen)

pub is_cascaded-append :
    (p : Pair) (xs ys : List Pair)
    → is_cascaded p (xs ++ ys) ≡ (is_cascaded p xs || is_cascaded p ys)
is_cascaded-append p [] ys = refl
is_cascaded-append p (x ∷ xs) ys = ground (arith, is_cascaded-append p xs ys)

pub is_cascaded-pairs :
    (d r root : String) (names : List String)
    → is_cascaded (d, r) (pairs root names) ≡ (str_eq root r && is_member d names)
is_cascaded-pairs d r root [] = ground arith
is_cascaded-pairs d r root (n ∷ names) = ground (arith, is_cascaded-pairs d r root names)

pub is_cascaded-all_pairs :
    (d root : String) (names roots : List String)
    → is_member d names ≡ true
    → is_member root roots ≡ true
    → is_cascaded (d, root) (all_pairs names roots) ≡ true
unfolding all_pairs
is_cascaded-all_pairs d root names [] h k = ground arith
is_cascaded-all_pairs d root names (r ∷ roots) h k =
    rw (is_cascaded-append (d, root) (pairs r names) (all_pairs names roots))
      (elim (Bool-cases (str_eq r root)) [
        | inl e ↦
            rw ((str_eq_iff r root).0 e, is_cascaded-pairs d root root names, str_eq_refl root, h)
              refl
        | inr e ↦ rw (is_cascaded-all_pairs d root names roots h (ground arith)) (ground arith)
      ])

start-roots :
    (roots all_roots : List String)
    → Every (λ r. is_member r all_roots ≡ true) roots
    → Every (λ (p : Pair). is_member p.1 all_roots ≡ true) (start roots)
start-roots [] all_roots h = tt
start-roots (r ∷ roots) all_roots h = (h.0, start-roots roots all_roots h.1)

length-start : (roots : List String) → length (start roots) ≡ length roots
length-start [] = refl
length-start (r ∷ roots) = ap suc (length-start roots)

covers_of_owners :
    (names roots deps : List String) (root : String)
    → is_member root roots ≡ true
    → Every (λ d. is_member d names ≡ true) deps
    → Every (λ d. is_cascaded (d, root) (all_pairs names roots) ≡ true) deps
covers_of_owners names roots [] root h k = tt
covers_of_owners names roots (d ∷ deps) root h (m, k) =
    (is_cascaded-all_pairs d root names roots m h, covers_of_owners names roots deps root h k)

dependents-owners :
    (spec : ContractSpec) (name : String)
    → Every
        (λ d. is_member d (owners spec) ≡ true)
        (dependents (build_reverse_dependencies spec) name)
unfolding owners
dependents-owners spec name =
    let all_owners =
      Every-split _ (keys spec.structs) (keys spec.unions) (IsSubset-refl (owners spec)) in
    dependents-Every (λ d. is_member d (owners spec) ≡ true) spec
      (Every-of_map _ (λ e. e.0) spec.structs all_owners.0)
      (Every-of_map _ (λ e. e.0) spec.unions all_owners.1) name

-- The search for broken dependents ends within `cascade_rounds`, also where the types embed each
-- other: whichever types it starts from, the queue is empty before the rounds run out.
pub cascade_loop-some :
    (spec : ContractSpec) (roots : List String)
    → (found : List Finding) × (cascade_loop
          (dependents (build_reverse_dependencies spec))
          (cascade_rounds spec roots)
          (start roots)
          []
        ≡ some found)
unfolding cascade_rounds
cascade_loop-some spec roots =
    loop-some (dependents (build_reverse_dependencies spec)) (all_pairs (owners spec) roots) roots
      (λ broken root m.
        covers_of_owners (owners spec) roots _ root m (dependents-owners spec broken))
      (cascade_rounds spec roots) (start roots) [] (start-roots roots roots (IsSubset-refl roots))
      (omega (
        arith,
        length-start roots,
        unseen-le (all_pairs (owners spec) roots) [],
        length-all_pairs (owners spec) roots,
      ))

-- ===== src/Diff/Cascade/Reachable.antt =====
-- src/diff.rs: which types `detect_cascading_layout_breaks` reports.
use soroban_upgrade_safeguar.Base.{
  ℕ, zero, suc, ◌≡◌, String, List, [], ◌∷◌, ◌++◌, Bool, true, false, not, ◌&&◌, ◌||◌, Option, none,
  some, Every, Every-append, IsSubset, IsSubset-refl, any, is_member, map_list, str_eq, str_eq_iff,
  str_eq_refl, opt_str_eq, arith, Bool-cases, inl, inr, refl, ◌⊎◌, ◌↔◌, ◌∙◌, sym, ap,
}
use soroban_upgrade_safeguar.Spec.{ContractSpec}
use soroban_upgrade_safeguar.Mapper.Graph.{build_reverse_dependencies, dependents}
use soroban_upgrade_safeguar.Diff.{Finding}
use soroban_upgrade_safeguar.Diff.Cascade.{
  Pair, is_cascaded, cascade_finding, fresh, pairs, push_findings, cascade_loop, start,
  cascade_rounds, broken_types, detect_cascading_layout_breaks,
}
use soroban_upgrade_safeguar.Diff.Cascade.Rounds.{
  cascade_loop-some, is_cascaded-pairs, is_cascaded-append,
}

-- A finding about this type, with this root.
abbrev pub names_pair : Pair → Finding → Bool
names_pair p f = opt_str_eq f.target (some p.0) && opt_str_eq f.root_target (some p.1)

unfoldable pub is_reported : Pair → List Finding → Bool
is_reported p fs = any (names_pair p) fs

module _ (deps : String → List String) where
  -- A type that embeds the root, directly or through other types.
  pub data Reaches (root : String) : String → Type 0 where
    direct_dependent : (d : String) → is_member d (deps root) ≡ true → Reaches root d
    further_dependent :
        (b d : String) → Reaches root b → is_member d (deps b) ≡ true → Reaches root d

is_reported-append :
    (p : Pair) (fs gs : List Finding)
    → is_reported p (fs ++ gs) ≡ (is_reported p fs || is_reported p gs)
unfolding is_reported
is_reported-append p [] gs = refl
is_reported-append p (f ∷ fs) gs = ground (arith, is_reported-append p fs gs)

is_reported-findings :
    (d r broken root : String) (names : List String)
    → is_reported (d, r) (map_list (cascade_finding broken root) names)
      ≡ (str_eq root r && is_member d names)
unfolding is_reported
is_reported-findings d r broken root [] = ground arith
is_reported-findings d r broken root (n ∷ names) =
    ground (arith, is_reported-findings d r broken root names)

is_member-fresh :
    (d root : String) (deps : List String) (seen : List Pair)
    → is_member d (fresh root deps seen) ≡ (is_member d deps && not (is_cascaded (d, root) seen))
unfolding fresh
is_member-fresh d root [] seen = refl
is_member-fresh d root (dep ∷ deps) seen = elim (Bool-cases (is_cascaded (dep, root) seen)) [
  | inl e ↦
      rw (e, fresh)
        (elim (Bool-cases (str_eq dep d)) [
          | inl same ↦
              let old : is_cascaded (d, root) seen ≡ true = rw (← (str_eq_iff dep d).0 same) e in
              ground (arith, is_member-fresh d root deps seen)
          | inr other ↦ ground (arith, is_member-fresh d root deps seen)
        ])
  | inr e ↦
      rw (e, fresh)
        (elim (Bool-cases (str_eq dep d)) [
          | inl same ↦
              let new : is_cascaded (d, root) seen ≡ false = rw (← (str_eq_iff dep d).0 same) e in
              ground arith
          | inr other ↦ ground (arith, is_member-fresh d root deps ((dep, root) ∷ seen))
        ])
]

push_findings-some :
    (fs found : List Finding) (o : Option (List Finding))
    → push_findings fs o ≡ some found
    → (gs : List Finding) × (o ≡ some gs) × (found ≡ fs ++ gs)
push_findings-some fs found none e = ground arith
push_findings-some fs found (some gs) e = (gs, refl, ground arith)

module _ (deps : String → List String) where
  -- What a reported or queued type leads to is reported, or was seen before.
  IsClosed : (queue seen : List Pair) → List Finding → Type 0
  IsClosed queue seen found =
      (b r d : String)
      → (is_cascaded (b, r) queue || is_reported (b, r) found) ≡ true
      → is_member d (deps b) ≡ true
      → (is_cascaded (d, r) seen || is_reported (d, r) found) ≡ true

  empty-IsClosed :
      (seen : List Pair) (found : List Finding) → some [] ≡ some found → IsClosed [] seen found
  unfolding IsClosed is_reported
  empty-IsClosed seen [] e b r d h m = ground arith
  empty-IsClosed seen (f ∷ fs) e b r d h m = ground arith

  step-IsClosed :
      (broken root : String) (queue seen : List Pair) (gs : List Finding)
      → IsClosed
          (queue ++ pairs root (fresh root (deps broken) seen))
          (pairs root (fresh root (deps broken) seen) ++ seen)
          gs
      → IsClosed
          ((broken, root) ∷ queue)
          seen
          (map_list (cascade_finding broken root) (fresh root (deps broken) seen) ++ gs)
  unfolding IsClosed
  step-IsClosed broken root queue seen gs go b r d h m =
      let new = fresh root (deps broken) seen in
      elim (Bool-cases (str_eq broken b && str_eq root r)) [
        | inl e ↦
            let here : is_member d (deps broken) ≡ true =
              rw ((str_eq_iff broken b).0 (ground arith)) m in
            rw (← (str_eq_iff root r).0 (ground arith)) (
              ground (
                arith,
                is_member-fresh d root (deps broken) seen,
                str_eq_refl root,
                is_reported-append (d, root) (map_list (cascade_finding broken root) new) gs,
                is_reported-findings d root broken root new,
              ))
        | inr e ↦ ground (
          arith,
          go b r d,
          is_cascaded-append (b, r) queue (pairs root new),
          is_cascaded-pairs b r root new,
          is_cascaded-append (d, r) (pairs root new) seen,
          is_cascaded-pairs d r root new,
          is_reported-append (b, r) (map_list (cascade_finding broken root) new) gs,
          is_reported-append (d, r) (map_list (cascade_finding broken root) new) gs,
          is_reported-findings b r broken root new,
          is_reported-findings d r broken root new,
        )
      ]

  loop-IsClosed :
      (rounds : ℕ) (queue seen : List Pair) (found : List Finding)
      → cascade_loop deps rounds queue seen ≡ some found
      → IsClosed queue seen found
  unfolding cascade_loop
  loop-IsClosed zero [] seen found e = empty-IsClosed seen found e
  loop-IsClosed (suc rounds) [] seen found e = empty-IsClosed seen found e
  loop-IsClosed zero (q ∷ queue) seen found e = ground arith
  loop-IsClosed (suc rounds) ((broken, root) ∷ queue) seen found e =
      let new = fresh root (deps broken) seen in
      let cut =
        push_findings-some (map_list (cascade_finding broken root) new) found
          (cascade_loop deps rounds (queue ++ pairs root new) (pairs root new ++ seen)) e in
      rw (cut.2) (
        step-IsClosed broken root queue seen cut.0
          (loop-IsClosed rounds (queue ++ pairs root new) (pairs root new ++ seen) cut.0 cut.1))

  -- A root with a type that embeds it.
  abbrev pub IsBroken : List String → String → String → Type 0
  IsBroken roots r d = (is_member r roots ≡ true) × Reaches deps r d

  -- A pair of the queue: a root with itself or with a type that embeds it.
  abbrev IsQueued : List String → Pair → Type 0
  IsQueued roots p = (is_member p.1 roots ≡ true) × ((p.0 ≡ p.1) ⊎ Reaches deps p.1 p.0)

  fresh-Reaches :
      (broken root d : String) (seen : List Pair)
      → (broken ≡ root) ⊎ Reaches deps root broken
      → is_member d (fresh root (deps broken) seen) ≡ true
      → Reaches deps root d
  fresh-Reaches broken root d seen s m =
      let here : is_member d (deps broken) ≡ true =
        ground (arith, is_member-fresh d root (deps broken) seen) in
      elim s [
        | inl e ↦ direct_dependent d (rw (← e) here)
        | inr reach ↦ further_dependent broken d reach here
      ]

  pairs-Reaches :
      (roots : List String) (root : String) (names : List String)
      → is_member root roots ≡ true
      → ((n : String) → is_member n names ≡ true → Reaches deps root n)
      → Every (IsQueued roots) (pairs root names)
  pairs-Reaches roots root [] known h = tt
  pairs-Reaches roots root (n ∷ names) known h = (
    (known, inr (h n (ground (arith, str_eq_refl n)))),
    pairs-Reaches roots root names known (λ x e. h x (ground arith)),
  )

  -- Only what the queue leads to is reported.
  loop-Reaches :
      (roots : List String) (rounds : ℕ) (queue seen : List Pair) (found : List Finding)
      → cascade_loop deps rounds queue seen ≡ some found
      → Every (IsQueued roots) queue
      → (d r : String) → is_reported (d, r) found ≡ true
      → IsBroken roots r d
  unfolding cascade_loop is_reported
  loop-Reaches roots zero [] seen [] e h d r k = ground arith
  loop-Reaches roots zero [] seen (f ∷ fs) e h d r k = ground arith
  loop-Reaches roots (suc rounds) [] seen [] e h d r k = ground arith
  loop-Reaches roots (suc rounds) [] seen (f ∷ fs) e h d r k = ground arith
  loop-Reaches roots zero (q ∷ queue) seen found e h d r k = ground arith
  loop-Reaches roots (suc rounds) ((broken, root) ∷ queue) seen found e ((known, s), h) d r k =
      let new = fresh root (deps broken) seen in
      let cut =
        push_findings-some (map_list (cascade_finding broken root) new) found
          (cascade_loop deps rounds (queue ++ pairs root new) (pairs root new ++ seen)) e in
      let parts : (is_reported (d, r) (map_list (cascade_finding broken root) new)
            || is_reported (d, r) cut.0)
          ≡ true =
        sym (is_reported-append (d, r) (map_list (cascade_finding broken root) new) cut.0)
        ∙ ap (is_reported (d, r)) (sym cut.2)
        ∙ k in
      elim (Bool-cases (str_eq root r && is_member d new)) [
        | inl here ↦
            rw (← (str_eq_iff root r).0 (ground arith))
              (known, fresh-Reaches broken root d seen s (ground arith))
        | inr later ↦
            loop-Reaches roots rounds (queue ++ pairs root new) (pairs root new ++ seen) cut.0 cut.1
              (Every-append _ queue (pairs root new) h
                (pairs-Reaches roots root new known (λ n m. fresh-Reaches broken root n seen s m)))
              d r (ground (arith, is_reported-findings d r broken root new))
      ]

  start-Reaches :
      (roots names : List String) → IsSubset names roots → Every (IsQueued roots) (start names)
  start-Reaches roots [] h = tt
  start-Reaches roots (r ∷ names) (known, h) = ((known, inl refl), start-Reaches roots names h)

  is_cascaded-start :
      (r : String) (roots : List String)
      → is_member r roots ≡ true
      → is_cascaded (r, r) (start roots) ≡ true
  is_cascaded-start r [] h = ground arith
  is_cascaded-start r (s ∷ roots) h = ground (arith, is_cascaded-start r roots)

  closed-Reaches :
      (roots : List String) (found : List Finding) (r : String)
      → is_member r roots ≡ true
      → IsClosed (start roots) [] found
      → (d : String) → Reaches deps r d
      → is_reported (d, r) found ≡ true
  unfolding IsClosed
  closed-Reaches roots found r h closed _ (direct_dependent d m) =
      closed r r d (rw (is_cascaded-start r roots h) refl) m
  closed-Reaches roots found r h closed _ (further_dependent b d reach m) =
      closed b r d (ground (arith, closed-Reaches roots found r h closed b reach)) m

-- The pass only appends findings, and it reports a type under a root exactly when the root is one of
-- the broken types and the graph leads from it to the type.
pub detect_cascading-IsBroken :
    (spec : ContractSpec) (fs : List Finding)
    → (found : List Finding) × (detect_cascading_layout_breaks spec fs ≡ fs ++ found)
      × ((r d : String)
          → (is_reported (d, r) found ≡ true)
            ↔ IsBroken (dependents (build_reverse_dependencies spec)) (broken_types fs) r d)
unfolding detect_cascading_layout_breaks
detect_cascading-IsBroken spec fs =
    let deps = dependents (build_reverse_dependencies spec) in
    let roots = broken_types fs in
    let run = cascade_loop-some spec roots in
    let rounds = cascade_rounds spec roots in
    let queued = start-Reaches deps roots roots (IsSubset-refl roots) in
    let closed = loop-IsClosed deps rounds (start roots) [] run.0 run.1 in
    (
      run.0,
      rw (run.1, detect_cascading_layout_breaks) refl,
      λ r d. (
        λ k. loop-Reaches deps roots rounds (start roots) [] run.0 run.1 queued d r k,
        λ broken. closed-Reaches deps roots run.0 r broken.0 closed d broken.1,
      ),
    )

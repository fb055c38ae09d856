-- ===== src/ContractMigration/Sources.antt =====
-- src/contract_migration.rs: the finding on a root type whose coverage a cascade inherits, in the
-- terms of the coverage that each finding has by itself.
use soroban_upgrade_safeguar.Base.{
  String, Option, none, some, List, [], ◌∷◌, Bool, true, false, not, ◌||◌, any, all, find, is_some,
  map_list, ◌≡◌, ◌↔◌, refl, ap, sym, subst, ◌∙◌, Bool-cases, Option-cases, inl, inr, IsIn,
  and-true_iff, arith, opt_str_eq_iff,
}
use soroban_upgrade_safeguar.Category.{Severity, critical, warning, info}
use soroban_upgrade_safeguar.Diff.{Finding}
use soroban_upgrade_safeguar.ContractMigration.{FindingCoverage, needs_migration, is_about}
use soroban_upgrade_safeguar.ContractMigration.Cascades.{Covered, is_attributable, inherited}
use soroban_upgrade_safeguar.ContractMigration.Inheritance.{breaks_root}
use soroban_upgrade_safeguar.ContractMigration.Ownership.{IsFirst}

-- A finding on the type that is more than information.
abbrev pub Breaks : String → Finding → Type 0
Breaks type_name f = (f.type_name ≡ some type_name) × ¬ (f.severity ≡ info)

breaks_root-Breaks :
    (root : String) (f : Finding) (s : Severity) (o : Option FindingCoverage)
    → f.severity ≡ s
    → (breaks_root root (f, o) ≡ true) ↔ Breaks root f
breaks_root-Breaks root f critical o e = ground (arith, e, opt_str_eq_iff f.type_name (some root))
breaks_root-Breaks root f warning o e = ground (arith, e, opt_str_eq_iff f.type_name (some root))
breaks_root-Breaks root f info o e = ground (arith, e, opt_str_eq_iff f.type_name (some root))

module _ (root : String) (own : Finding → Option FindingCoverage) where
  abbrev pub with_own : List Finding → List Covered
  with_own fs = map_list (λ f. (f, own f)) fs

  breaks_root-with_own : (f : Finding) → (breaks_root root (f, own f) ≡ true) ↔ Breaks root f
  breaks_root-with_own f = breaks_root-Breaks root f f.severity (own f) refl

  abbrev pub is_settled : Covered → Bool
  is_settled p = not (breaks_root root p) || is_some p.1

  pub settled-Breaks :
      (fs : List Finding) (g : Finding)
      → all is_settled (with_own fs) ≡ true
      → IsIn g fs
      → Breaks root g
      → (d : FindingCoverage) × (own g ≡ some d)
  settled-Breaks [] g h m b = elim m [ ]
  settled-Breaks (f ∷ fs) g h (inr m) b = settled-Breaks fs g ((and-true_iff _ _).0 h).1 m b
  settled-Breaks (f ∷ fs) g h (inl e) b = elim (Option-cases (own g)) [
    | inr (d, k) ↦ (d, k)
    | inl k ↦
        let b' : breaks_root root (f, own f) ≡ true =
          (breaks_root-with_own f).1 (subst (Breaks root) (sym e) b) in
        let k' : own f ≡ none = ap own e ∙ k in
        let q = ((and-true_iff (is_settled (f, own f)) (all is_settled (with_own fs))).0 h).0 in
        absurd (ground (arith, b', rw k' at q))
  ]

  pub Breaks-settled :
      (fs : List Finding)
      → ((g : Finding) → IsIn g fs → Breaks root g → (d : FindingCoverage) × (own g ≡ some d))
      → all is_settled (with_own fs) ≡ true
  Breaks-settled [] h = refl
  Breaks-settled (f ∷ fs) h = (and-true_iff _ _).1 (
    elim (Bool-cases (breaks_root root (f, own f))) [
      | inl b ↦ let (d, k) = h f (inl refl) ((breaks_root-with_own f).0 b) in rw k (ground arith)
      | inr b ↦ rw b refl
    ],
    Breaks-settled fs (λ g m b. h g (inr m) b),
  )

  pub IsFirst-any :
      (g : Finding) (fs : List Finding)
      → IsFirst (Breaks root) g fs
      → any (breaks_root root) (with_own fs) ≡ true
  IsFirst-any g [] m = elim m [ ]
  IsFirst-any g (f ∷ fs) (inl (e, b)) = rw ((breaks_root-with_own f).1 b) refl
  IsFirst-any g (f ∷ fs) (inr (n, m)) = ground (arith, IsFirst-any g fs m)

  pub IsFirst-find :
      (g : Finding) (fs : List Finding) (d : FindingCoverage)
      → IsFirst (Breaks root) g fs
      → own g ≡ some d
      → find (is_attributable root) (with_own fs) ≡ some (g, some d)
  IsFirst-find g [] d m k = elim m [ ]
  IsFirst-find g (f ∷ fs) d (inl (e, b)) k =
      let k' : own f ≡ some d = ap own e ∙ k in
      let b' =
        (and-true_iff (is_about root f) (needs_migration f)).0 ((breaks_root-with_own f).1 b) in
      rw (k', b'.0, b'.1) (λ i. some (e i, some d))
  IsFirst-find g (f ∷ fs) d (inr (n, m)) k = elim (Bool-cases (breaks_root root (f, own f))) [
    | inl b ↦ absurd (n ((breaks_root-with_own f).0 b))
    | inr b ↦ ground (arith, b, IsFirst-find g fs d m k)
  ]

  unbroken : (f : Finding) → breaks_root root (f, own f) ≡ false → ¬ Breaks root f
  unbroken f b n = absurd (ground (arith, b, (breaks_root-with_own f).1 n))

  not_attributable :
      (f : Finding) (fs : List Finding)
      → breaks_root root (f, own f) ≡ false
      → find (is_attributable root) (with_own (f ∷ fs)) ≡ find (is_attributable root) (with_own fs)
  not_attributable f fs b = ground (arith, b)

  -- The finding whose coverage is inherited.
  abbrev pub IsSource : FindingCoverage → List Finding → Type 0
  IsSource c fs =
      (c.via ≡ some root)
      × ((g : Finding) × IsFirst (Breaks root) g fs
          × ((d : FindingCoverage) × (own g ≡ some d) × (d.migration ≡ c.migration)))

  pub inherited-IsSource :
      (fs : List Finding) (c : FindingCoverage)
      → all is_settled (with_own fs) ≡ true
      → inherited root (find (is_attributable root) (with_own fs)) ≡ some c
      → IsSource c fs
  inherited-IsSource [] c h e = cc
  inherited-IsSource (f ∷ fs) c h e = elim (Bool-cases (breaks_root root (f, own f))) [
    | inl b ↦
        let (d, k) = settled-Breaks (f ∷ fs) f h (inl refl) ((breaks_root-with_own f).0 b) in
        let b' = (and-true_iff (is_about root f) (needs_migration f)).0 b in
        let e' : some (record { migration = d.migration; via = some root }) ≡ some c =
          rw (k, b'.0, b'.1) at e in
        (cc, (f, inl (refl, (breaks_root-with_own f).0 b), (d, k, cc)))
    | inr b ↦
        let e' : inherited root (find (is_attributable root) (with_own fs)) ≡ some c =
          subst (λ o. inherited root o ≡ some c) (not_attributable f fs b) e in
        let (v, (g, m, s)) = inherited-IsSource fs c ((and-true_iff _ _).0 h).1 e' in
        (v, (g, inr (unbroken f b, m), s))
  ]

-- ===== src/ContractMigration/Specified.antt =====
-- src/contract_migration.rs: which findings `audit` reports as covered, and by which migration.
use soroban_upgrade_safeguar.Base.{
  String, Option, none, some, List, [], ◌∷◌, true, find, map_list, ◌≡◌, ◌↔◌, refl, ap, sym, subst,
  ◌∙◌, Bool-cases, Option-cases, ◌⊎◌, inl, inr, IsIn, and-true_iff, arith,
}
use soroban_upgrade_safeguar.Diff.{Finding}
use soroban_upgrade_safeguar.ContractMigration.{MigrationDeclaration, FindingCoverage}
use soroban_upgrade_safeguar.ContractMigration.Cascades.{Covered, is_attributable, inherited}
use soroban_upgrade_safeguar.ContractMigration.Audit.{applicable_of, audit}
use soroban_upgrade_safeguar.ContractMigration.Inheritance.{is_fully_migrated, final_coverage}
use soroban_upgrade_safeguar.ContractMigration.Coverage.{directly, coverage_by, audit-coverage}
use soroban_upgrade_safeguar.ContractMigration.Ownership.{IsFirst, IsOwned}
use soroban_upgrade_safeguar.ContractMigration.Owned.{directly-IsOwned}
use soroban_upgrade_safeguar.ContractMigration.Sources.{
  Breaks, settled-Breaks, Breaks-settled, IsFirst-any, IsFirst-find, inherited-IsSource,
}

module _ (findings : List Finding) (ms : List MigrationDeclaration) (contract : Option String) where
  abbrev pub IsOwnedBySome : Finding → Type 0
  IsOwnedBySome f = (id : String) × IsOwned ms contract f id

  -- Every breaking finding on the root is owned, and the first is owned by this migration.
  abbrev pub IsInherited : Finding → FindingCoverage → Type 0
  IsInherited f c =
      (root : String) × (f.root_target ≡ some root)
      × (c.via ≡ some root)
      × ((g : Finding) → IsIn g findings → Breaks root g → IsOwnedBySome g)
      × ((g : Finding) × IsFirst (Breaks root) g findings × IsOwned ms contract g c.migration)

  abbrev pub IsCoveredBy : Finding → FindingCoverage → Type 0
  IsCoveredBy f c =
      ((c.via ≡ none) × IsOwned ms contract f c.migration) ⊎ ((¬ IsOwnedBySome f) × IsInherited f c)

  abbrev own_coverage : Finding → Option FindingCoverage
  own_coverage f = (directly (applicable_of ms contract) f).1

  IsOwned-coverage :
      (f : Finding) (id : String)
      → IsOwned ms contract f id
      → own_coverage f ≡ some (record { migration = id; via = none })
  IsOwned-coverage f id o =
      (directly-IsOwned ms contract f (record { migration = id; via = none })).1 (refl, o)

  coverage-IsOwned :
      (f : Finding) (d : FindingCoverage)
      → own_coverage f ≡ some d
      → IsOwned ms contract f d.migration
  coverage-IsOwned f d e = ((directly-IsOwned ms contract f d).0 e).1

  abbrev fs : List Covered
  fs = map_list (λ f. (f, own_coverage f)) findings

  inherited-IsInherited :
      (f : Finding) (root : String) (c : FindingCoverage)
      → f.root_target ≡ some root
      → is_fully_migrated root fs ≡ true
      → inherited root (find (is_attributable root) fs) ≡ some c
      → IsInherited f c
  inherited-IsInherited f root c n full e =
      let settled = ((and-true_iff _ _).0 full).1 in
      let (v, (g, m, (d, k, same))) = inherited-IsSource root own_coverage findings c settled e in
      (
        root,
        n,
        v,
        (λ h i b.
            let (x, j) = settled-Breaks root own_coverage findings h settled i b in
            (x.migration, coverage-IsOwned h x j)),
        (g, m, subst (IsOwned ms contract g) same (coverage-IsOwned g d k)),
      )

  IsInherited-inherited :
      (f : Finding) (root : String) (c : FindingCoverage)
      → f.root_target ≡ some root
      → IsInherited f c
      → (is_fully_migrated root fs ≡ true)
        × (inherited root (find (is_attributable root) fs) ≡ some c)
  IsInherited-inherited f root c n (other, n', v, owned, (g, m, o)) =
      let same : other ≡ root = ground (arith, n, n') in
      let v' : some root ≡ c.via = ground (arith, v, same) in
      let m' : IsFirst (Breaks root) g findings =
        subst (λ r. IsFirst (Breaks r) g findings) same m in
      let owned' : (h : Finding) → IsIn h findings → Breaks root h → IsOwnedBySome h =
        subst (λ r. (h : Finding) → IsIn h findings → Breaks r h → IsOwnedBySome h) same owned in
      (
        (and-true_iff _ _).1 (
          IsFirst-any root own_coverage g findings m',
          Breaks-settled root own_coverage findings (λ h i b.
              let (id, j) = owned' h i b in
              (record { migration = id; via = none }, IsOwned-coverage h id j)),
        ),
        ap (inherited root) (
              IsFirst-find root own_coverage g findings
                (record { migration = c.migration; via = none }) m'
                (IsOwned-coverage g c.migration o))
            ∙ (λ i. some (record { migration = c.migration; via = v' i })),
      )

  coverage-IsCoveredBy :
      (f : Finding) (o : Option FindingCoverage) (c : FindingCoverage)
      → own_coverage f ≡ o
      → (final_coverage fs (f, o) ≡ some c) ↔ IsCoveredBy f c
  coverage-IsCoveredBy f (some d) c e = (
    (λ h. inl ((directly-IsOwned ms contract f c).0 (e ∙ h))),
    (λ s. elim s [
      | inl k ↦ sym e ∙ (directly-IsOwned ms contract f c).1 k
      | inr (n, k) ↦ absurd (n (d.migration, coverage-IsOwned f d e))
    ]),
  )
  coverage-IsCoveredBy f none c e =
      let unowned : ¬ IsOwnedBySome f =
        (λ (id, o). absurd (ground (arith, e, IsOwned-coverage f id o))) in
      (
        (λ h. inr (
          unowned,
          elim (Option-cases f.root_target) [
            | inl n ↦ cc (rw n at h)
            | inr (root, n) ↦ elim (Bool-cases (is_fully_migrated root fs)) [
              | inl b ↦ inherited-IsInherited f root c n b (rw (n, b) at h)
              | inr b ↦ cc (rw (n, b) at h)
            ]
          ],
        )),
        (λ s. elim s [
          | inl (v, o) ↦ absurd (unowned (c.migration, o))
          | inr (u, k) ↦ let (full, got) = IsInherited-inherited f k.0 c k.1 k in rw (k.1, full) got
        ]),
      )

  -- The outcomes of these findings, in their order.
  abbrev pub AreCovered : List Finding → List (Option FindingCoverage) → Type 0
  AreCovered [] [] = Unit
  AreCovered [] (o ∷ os) = ⊥
  AreCovered (g ∷ gs) [] = ⊥
  AreCovered (g ∷ gs) (o ∷ os) =
      ((c : FindingCoverage) → (o ≡ some c) ↔ IsCoveredBy g c) × AreCovered gs os

  map-AreCovered :
      (gs : List Finding)
      → AreCovered gs (map_list (coverage_by findings (applicable_of ms contract)) gs)
  map-AreCovered [] = tt
  map-AreCovered (g ∷ gs) =
      ((λ c. coverage-IsCoveredBy g (own_coverage g) c refl), map-AreCovered gs)

-- `audit` reports for each finding, in their order, that a migration covers it exactly when (1)
-- exactly one declared claim holds of the finding, and it is this migration's, which is then covered
-- by itself; or (2) no claim or more than one holds of it, the finding is a cascade of a root type,
-- each finding on the root that is more than information has exactly one claim, and the first such
-- finding has this migration's, where the root is named as the way. A claim holds of a finding if its
-- migration is for this contract, attests that it runs before the old layout is read and lists the
-- type of the finding, and if the claim names the category and the target of the finding, and its
-- change if it names a change. By (2) a finding with two claims is covered when it is such a cascade.
pub audit-AreCovered :
    (findings : List Finding) (migrations : List MigrationDeclaration) (contract : Option String)
    → AreCovered findings migrations contract findings (audit findings migrations contract).coverage
audit-AreCovered findings migrations contract =
    rw (audit-coverage findings migrations contract)
      (map-AreCovered findings migrations contract findings)

-- ===== src/ContractMigration/Attested.antt =====
-- Who can cover a finding in src/contract_migration.rs: only a migration that attests its ordering
-- and lists the type of a finding that it claims.
use soroban_upgrade_safeguar.Base.{
  String, Option, none, some, List, [], ◌∷◌, true, ◌&&◌, map_list, for_each, find, keep, is_member,
  ◌≡◌, refl, ap, subst, ◌∙◌, inl, inr, Bool-cases, Option-cases, Every, Every-map_in, IsIn,
  IsIn-of_for_each, IsIn-of_keep, IsIn-of_map, IsIn-of_find, and-true_iff,
}
use soroban_upgrade_safeguar.Diff.{Finding}
use soroban_upgrade_safeguar.ContractMigration.{
  MigrationDeclaration, CoverageClaim, FindingCoverage, applies_to, addresses, change_matches,
}
use soroban_upgrade_safeguar.ContractMigration.Claims.{claimant_of}
use soroban_upgrade_safeguar.ContractMigration.Cascades.{Covered, is_attributable, inherited}
use soroban_upgrade_safeguar.ContractMigration.Audit.{is_verified, resolve, applicable_of, audit}
use soroban_upgrade_safeguar.ContractMigration.Inheritance.{final_coverage, is_fully_migrated}
use soroban_upgrade_safeguar.ContractMigration.Coverage.{
  claim_on, claims_on, directly, coverage_by, audit-coverage,
}

-- The migration of this id claims a finding of the report on a type that it lists, and it attests
-- that it runs before the old layout is read.
pub record Vouches (findings : List Finding) (contract : Option String) (id : String)
    (m : MigrationDeclaration) : Type 0 where
  pub named : m.id ≡ id
  pub applies : applies_to m contract ≡ true
  pub attested : m.runs_before_read ≡ true
  pub finding : Finding
  pub reported : IsIn finding findings
  pub type_name : String
  pub on_type : finding.type_name ≡ some type_name
  pub listed : is_member type_name m.migrates ≡ true

abbrev pub IsVouched :
    List Finding → List MigrationDeclaration → Option String → Option FindingCoverage → Type 0
IsVouched findings ms contract none = Unit
IsVouched findings ms contract (some c) =
    (m : MigrationDeclaration) × IsIn m ms × Vouches findings contract c.migration m

resolve-IsIn :
    (ids : List String) (c : FindingCoverage) → resolve ids ≡ some c → IsIn c.migration ids
resolve-IsIn [] c h = cc
resolve-IsIn (id ∷ []) c h = inl (cc)
resolve-IsIn (id ∷ jd ∷ ids) c h = cc

only : (a b : String) → IsIn b (a ∷ []) → a ≡ b
only a b (inl e) = e
only a b (inr m) = elim m [ ]

claimant-vouches :
    (m : MigrationDeclaration) (f : Finding) (id : String) (o : Option String)
    → f.type_name ≡ o
    → IsIn id (claimant_of m f)
    → (t : String) × (f.type_name ≡ some t) × (is_member t m.migrates ≡ true) × (m.id ≡ id)
claimant-vouches m f id none e k = absurd (rw e at k)
claimant-vouches m f id (some t) e k = elim (Bool-cases (is_member t m.migrates)) [
  | inl l ↦ (t, e, l, only m.id id (rw (e, l) at k))
  | inr l ↦ absurd (rw (e, l) at k)
]

claim-vouches :
    (m : MigrationDeclaration) (f : Finding) (id : String) (c : CoverageClaim)
    → IsIn id (claim_on m c f)
    → IsIn id (claimant_of m f)
claim-vouches m f id c k = elim (Bool-cases (addresses c f && change_matches c f)) [
  | inl e ↦ rw e at k
  | inr e ↦ absurd (rw e at k)
]

module _ (findings : List Finding) (migrations : List MigrationDeclaration)
    (contract : Option String) where
  abbrev ms : List MigrationDeclaration
  ms = applicable_of migrations contract

  claims-vouched :
      (f : Finding) (id : String)
      → IsIn f findings
      → IsIn id (claims_on (keep is_verified ms) f)
      → (m : MigrationDeclaration) × IsIn m migrations × Vouches findings contract id m
  claims-vouched f id here k =
      let (m, m_in, k') =
        IsIn-of_for_each (λ m. for_each (λ c. claim_on m c f) m.covers) id (keep is_verified ms)
          k in
      let (c, c_in, k'') = IsIn-of_for_each (λ c. claim_on m c f) id m.covers k' in
      let (m_ms, ver) = IsIn-of_keep is_verified m ms m_in in
      let (m_all, app) = IsIn-of_keep (λ n. applies_to n contract) m migrations m_ms in
      let (t, on, l, n) = claimant-vouches m f id f.type_name refl (claim-vouches m f id c k'') in
      (
        m,
        m_all,
        record {
          named = n;
          applies = app;
          attested = ((and-true_iff _ _).0 ver).0;
          finding = f;
          reported = here;
          type_name = t;
          on_type = on;
          listed = l;
        },
      )

  directly-IsVouched :
      (f : Finding) (c : FindingCoverage)
      → IsIn f findings
      → (directly ms f).1 ≡ some c
      → IsVouched findings migrations contract (some c)
  directly-IsVouched f c here e = claims-vouched f c.migration here (resolve-IsIn _ c e)

  inherited-IsVouched :
      (root : String) (o : Option Covered) (c : FindingCoverage)
      → ((p : Covered)
          → o ≡ some p
          → (d : FindingCoverage) → p.1 ≡ some d
          → IsVouched findings migrations contract (some d))
      → inherited root o ≡ some c
      → IsVouched findings migrations contract (some c)
  inherited-IsVouched root none c h e = cc
  inherited-IsVouched root (some (f, none)) c h e = cc
  inherited-IsVouched root (some (f, some d)) c h e =
      let q : d.migration ≡ c.migration = cc in
      subst (λ id. (m : MigrationDeclaration) × IsIn m migrations × Vouches findings contract id m)
        q (h (f, some d) refl d refl)

  abbrev ds : List Covered
  ds = map_list (directly ms) findings

  found-IsVouched :
      (root : String) (p : Covered) (d : FindingCoverage)
      → find (is_attributable root) ds ≡ some p
      → p.1 ≡ some d
      → IsVouched findings migrations contract (some d)
  found-IsVouched root p d e k =
      let (f, here, q) =
        IsIn-of_map (directly ms) p findings (IsIn-of_find (is_attributable root) p ds e) in
      directly-IsVouched f d here (ap (λ (r : Covered). r.1) q ∙ k)

  final-IsVouched :
      (f : Finding) (o : Option FindingCoverage) (c : FindingCoverage)
      → IsIn f findings
      → (directly ms f).1 ≡ o
      → final_coverage ds (f, o) ≡ some c
      → IsVouched findings migrations contract (some c)
  final-IsVouched f (some d) c here e k = directly-IsVouched f c here (e ∙ k)
  final-IsVouched f none c here e k = elim (Option-cases f.root_target) [
    | inl n ↦ cc (rw n at k)
    | inr (root, n) ↦ elim (Bool-cases (is_fully_migrated root ds)) [
      | inl b ↦
          inherited-IsVouched root (find (is_attributable root) ds) c
            (λ p q d r. found-IsVouched root p d q r) (rw (n, b) at k)
      | inr b ↦ cc (rw (n, b) at k)
    ]
  ]

  covered-IsVouched :
      (f : Finding) (o : Option FindingCoverage)
      → IsIn f findings
      → coverage_by findings ms f ≡ o
      → IsVouched findings migrations contract o
  covered-IsVouched f none here e = tt
  covered-IsVouched f (some c) here e = final-IsVouched f (directly ms f).1 c here refl e

  -- Every finding that is covered is covered in the name of a migration of the configuration that
  -- applies to the contract, attests that it runs before the old layout is read, and lists the type of
  -- a finding of the report.
  pub audit-IsVouched :
      Every (IsVouched findings migrations contract) (audit findings migrations contract).coverage
  audit-IsVouched = rw (audit-coverage findings migrations contract) (
      Every-map_in (IsVouched findings migrations contract) (coverage_by findings ms) findings
        (λ f here. covered-IsVouched f (coverage_by findings ms f) here refl))

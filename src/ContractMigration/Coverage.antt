-- ===== src/ContractMigration/Coverage.antt =====
-- Which findings the migrations of src/contract_migration.rs cover: each finding by itself, with no
-- regard to the order of the loops.
use soroban_upgrade_safeguar.Base.{
  String, Option, List, [], ◌∷◌, ◌++◌, ◌&&◌, if◌then◌else◌, map_list, for_each, keep, ◌≡◌, refl, ap,
  sym, ◌∙◌, append-nil, append_assoc, Bool-cases, List-cases, inl, inr, map-map,
}
use soroban_upgrade_safeguar.Diff.{Finding}
use soroban_upgrade_safeguar.ContractMigration.{
  CoverageClaim, MigrationDeclaration, FindingCoverage, addresses, change_matches,
}
use soroban_upgrade_safeguar.ContractMigration.Cascades.{Covered, inherit_through_cascades}
use soroban_upgrade_safeguar.ContractMigration.Audit.{
  is_verified, resolve, resolved, applicable_of, direct_claims, covered_findings, audit,
}
use soroban_upgrade_safeguar.ContractMigration.Inheritance.{
  final, final_coverage, inherit_through_cascades-final,
}
use soroban_upgrade_safeguar.ContractMigration.Claims.{
  Claimed, claimant_of, matched, push_claimants, claimants_after, Claiming, record_claim,
  record_claims, record_all,
}

-- The ids of the migrations whose claims hold of a finding, one for each claim.
abbrev pub claim_on : MigrationDeclaration → CoverageClaim → Finding → List String
claim_on m c f = if addresses c f && change_matches c f then claimant_of m f else []

abbrev pub claims_on : List MigrationDeclaration → Finding → List String
claims_on ms f = for_each (λ m. for_each (λ c. claim_on m c f) m.covers) ms

-- The claimed findings after these more claimants.
abbrev add_ids : (Finding → List String) → Claimed → Claimed
add_ids g p = (p.0, p.1 ++ g p.0)

push_claimants-map :
    (m : MigrationDeclaration) (c : CoverageClaim) (fs : List Claimed)
    → push_claimants m c fs ≡ map_list (add_ids (claim_on m c)) fs
unfolding push_claimants
push_claimants-map m c [] = refl
push_claimants-map m c ((f, ids) ∷ fs) = elim (Bool-cases (addresses c f && change_matches c f)) [
  | inl e ↦ rw e (rw (push_claimants-map m c fs))
  | inr e ↦ rw e (rw (push_claimants-map m c fs, append-nil ids))
]

-- A claim that matches no finding leaves the claimants alone, as pushing them would.
push_claimants_unmatched :
    (m : MigrationDeclaration) (c : CoverageClaim) (fs : List Claimed)
    → matched c fs ≡ []
    → push_claimants m c fs ≡ fs
unfolding push_claimants
push_claimants_unmatched m c [] h = refl
push_claimants_unmatched m c ((f, ids) ∷ fs) h = elim (Bool-cases (addresses c f)) [
  | inl e ↦ elim (Bool-cases (change_matches c f)) [
    | inl k ↦ cc (rw (e, k) at h)
    | inr k ↦ rw (e, k) (ap (λ r. (f, ids) ∷ r) (push_claimants_unmatched m c fs (rw (e, k) at h)))
  ]
  | inr e ↦ rw e (ap (λ r. (f, ids) ∷ r) (push_claimants_unmatched m c fs (rw e at h)))
]

claimants_after-map :
    (m : MigrationDeclaration) (c : CoverageClaim) (fs : List Claimed)
    → claimants_after m c fs ≡ map_list (add_ids (claim_on m c)) fs
unfolding claimants_after
claimants_after-map m c fs = elim (List-cases (matched c fs)) [
  | inl e ↦
      rw (e, claimants_after) (sym (push_claimants_unmatched m c fs e) ∙ push_claimants-map m c fs)
  | inr (p, ps, e) ↦ rw (e, claimants_after) (push_claimants-map m c fs)
]

add_ids-nothing : (fs : List Claimed) → map_list (add_ids (λ f. [])) fs ≡ fs
add_ids-nothing [] = refl
add_ids-nothing ((f, ids) ∷ fs) = λ i. (f, append-nil ids i) ∷ add_ids-nothing fs i

add_ids-add_ids :
    (g h : Finding → List String) (fs : List Claimed)
    → map_list (add_ids h) (map_list (add_ids g) fs) ≡ map_list (add_ids (λ f. g f ++ h f)) fs
add_ids-add_ids g h [] = refl
add_ids-add_ids g h ((f, ids) ∷ fs) =
    λ i. (f, append_assoc ids (g f) (h f) i) ∷ add_ids-add_ids g h fs i

record_claims-map :
    (m : MigrationDeclaration) (cs : List CoverageClaim) (s : Claiming)
    → (record_claims m cs s).claimants
      ≡ map_list (add_ids (λ f. for_each (λ c. claim_on m c f) cs)) s.claimants
unfolding record_claims record_claim
record_claims-map m [] s = sym (add_ids-nothing s.claimants)
record_claims-map m (c ∷ cs) s =
    record_claims-map m cs (record_claim m c s)
    ∙ ap (map_list (add_ids (λ f. for_each (λ d. claim_on m d f) cs)))
        (claimants_after-map m c s.claimants)
    ∙ add_ids-add_ids (claim_on m c) (λ f. for_each (λ d. claim_on m d f) cs) s.claimants

record_all-map :
    (ms : List MigrationDeclaration) (s : Claiming)
    → (record_all ms s).claimants ≡ map_list (add_ids (claims_on ms)) s.claimants
unfolding record_all
record_all-map [] s = sym (add_ids-nothing s.claimants)
record_all-map (m ∷ ms) s =
    record_all-map ms (record_claims m m.covers s)
    ∙ ap (map_list (add_ids (claims_on ms))) (record_claims-map m m.covers s)
    ∙ add_ids-add_ids (λ f. for_each (λ c. claim_on m c f) m.covers) (claims_on ms) s.claimants

-- A finding with the coverage of the one claim on it, if there is one claim.
abbrev pub directly : List MigrationDeclaration → Finding → Covered
directly ms f = (f, resolve (claims_on (keep is_verified ms) f))

resolved-claimants :
    (v : List MigrationDeclaration) (findings : List Finding)
    → map_list resolved (map_list (add_ids (claims_on v)) (map_list (λ f. (f, [])) findings))
      ≡ map_list (λ f. (f, resolve (claims_on v f))) findings
resolved-claimants v [] = refl
resolved-claimants v (f ∷ fs) = λ i. (f, resolve (claims_on v f)) ∷ resolved-claimants v fs i

covered_findings-directly :
    (findings : List Finding) (ms : List MigrationDeclaration)
    → covered_findings findings ms
      ≡ map_list (final (map_list (directly ms) findings)) (map_list (directly ms) findings)
unfolding covered_findings direct_claims
covered_findings-directly findings ms =
    ap (λ cs. inherit_through_cascades (map_list resolved cs))
      (record_all-map (keep is_verified ms) _)
    ∙ ap inherit_through_cascades (resolved-claimants (keep is_verified ms) findings)
    ∙ inherit_through_cascades-final (map_list (directly ms) findings)

-- The coverage of a finding, by the claims on it and on its root.
abbrev pub coverage_by : List Finding → List MigrationDeclaration → Finding → Option FindingCoverage
coverage_by findings ms f = final_coverage (map_list (directly ms) findings) (directly ms f)

-- The coverage of each finding by itself.
pub audit-coverage :
    (findings : List Finding) (migrations : List MigrationDeclaration) (contract : Option String)
    → (audit findings migrations contract).coverage
      ≡ map_list (coverage_by findings (applicable_of migrations contract)) findings
unfolding audit
audit-coverage findings migrations contract =
    let ms = applicable_of migrations contract in
    ap (map_list (λ p. p.1)) (covered_findings-directly findings ms)
    ∙ map-map (λ p. p.1) (final (map_list (directly ms) findings)) (map_list (directly ms) findings)
    ∙ map-map (final_coverage (map_list (directly ms) findings)) (directly ms) findings

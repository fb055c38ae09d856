-- ===== src/ContractMigration/Owned.antt =====
-- src/contract_migration.rs: a finding is covered without its root exactly when one claim holds of it.
use soroban_upgrade_safeguar.Base.{
  String, Option, none, some, List, [], ◌∷◌, ◌++◌, true, false, ◌&&◌, if◌then◌else◌, map_list,
  for_each, keep, is_member, ◌≡◌, ◌↔◌, refl, ap, sym, ◌∙◌, append_assoc, Bool-cases, Option-cases,
  List-cases, ◌⊎◌, inl, inr, IsIn, and-true_iff, arith, str_eq_iff, opt_str_eq_iff,
}
use soroban_upgrade_safeguar.Diff.{Finding}
use soroban_upgrade_safeguar.ContractMigration.{
  CoverageClaim, MigrationDeclaration, FindingCoverage, applies_to, addresses, change_matches,
}
use soroban_upgrade_safeguar.ContractMigration.Claims.{claimant_of}
use soroban_upgrade_safeguar.ContractMigration.Audit.{
  is_verified, has_types, resolve, applicable_of,
}
use soroban_upgrade_safeguar.ContractMigration.Coverage.{claim_on, claims_on, directly}
use soroban_upgrade_safeguar.ContractMigration.Ownership.{
  for_each-only, IsOnly-of_for_each, is_member_sound, is_member_complete, applies_to-IsFor,
  DeclaredClaim, declared_claims, Claims, IsOwned,
}

abbrev IsListed : MigrationDeclaration → Finding → Type 0
IsListed m f = (name : String) × (f.type_name ≡ some name) × IsIn name m.migrates

claimant-cases :
    (m : MigrationDeclaration) (f : Finding)
    → ((claimant_of m f ≡ m.id ∷ []) × IsListed m f) ⊎ ((claimant_of m f ≡ []) × ¬ IsListed m f)
claimant-cases m f = elim (Option-cases f.type_name) [
  | inl n ↦ inr (rw n refl, λ (name, e, i). absurd (ground (arith, n, e)))
  | inr (t, n) ↦ elim (Bool-cases (is_member t m.migrates)) [
    | inl b ↦ inl (rw (n, b) refl, (t, n, is_member_sound t m.migrates b))
    | inr b ↦ inr (
      rw (n, b) refl,
      λ (name, e, i). absurd (ground (arith, b, n, e, is_member_complete name m.migrates i)),
    )
  ]
]

change_matches_iff :
    (c : CoverageClaim) (f : Finding)
    → (change_matches c f ≡ true) ↔ ((c.change ≡ none) ⊎ (c.change ≡ f.change))
change_matches_iff c f = elim (Option-cases c.change) [
  | inl e ↦ ((λ h. inl e), (λ s. rw e refl))
  | inr (p, e) ↦ (
    (λ h. inr (e ∙ sym ((opt_str_eq_iff f.change (some p)).0 (rw e at h)))),
    (λ s. elim s [
      | inl n ↦ absurd (ground (arith, e, n))
      | inr n ↦ rw e ((opt_str_eq_iff f.change (some p)).1 (sym n ∙ e))
    ]),
  )
]

IsListed-has_types : (m : MigrationDeclaration) (f : Finding) → IsListed m f → has_types m ≡ true
IsListed-has_types m f (name, e, i) = elim (List-cases m.migrates) [
  | inl n ↦ absurd (rw n at i)
  | inr (t, ts, n) ↦ rw n refl
]

-- The claimant that one declared claim makes.
abbrev claimants_by : Option String → Finding → DeclaredClaim → List String
claimants_by contract f (m, c) =
    if applies_to m contract then if is_verified m then claim_on m c f else [] else []

claimants_by-cases :
    (contract : Option String) (f : Finding) (d : DeclaredClaim)
    → ((claimants_by contract f d ≡ d.0.id ∷ []) × Claims contract f d)
      ⊎ ((claimants_by contract f d ≡ []) × ¬ Claims contract f d)
claimants_by-cases contract f (m, c) = elim (Bool-cases (applies_to m contract)) [
  | inr a ↦ inr (rw a refl, λ s. absurd (ground (arith, a, (applies_to-IsFor m contract).1 s.0)))
  | inl a ↦ elim (Bool-cases (is_verified m)) [
    | inr v ↦ inr (
      rw (a, v) refl,
      λ (app, runs, named, pinned, listed).
          absurd (ground (arith, v, runs, IsListed-has_types m f listed)),
    )
    | inl v ↦ elim (Bool-cases (addresses c f && change_matches c f)) [
      | inr t ↦ inr (
        rw (a, v, t) refl,
        λ (app, runs, named, pinned, listed). absurd (
            ground (
              arith,
              t,
              (str_eq_iff c.category f.category).1 named.0,
              (opt_str_eq_iff c.target f.target).1 named.1,
              (change_matches_iff c f).1 pinned,
            )),
      )
      | inl t ↦ elim (claimant-cases m f) [
        | inr (e, n) ↦ inr (rw (a, v, t) e, λ (app, runs, named, pinned, listed). n listed)
        | inl (e, listed) ↦
            let both = (and-true_iff (addresses c f) (change_matches c f)).0 t in
            let named = (and-true_iff _ _).0 both.0 in
            inl (
              rw (a, v, t) e,
              (
                (applies_to-IsFor m contract).0 a,
                ((and-true_iff _ _).0 v).0,
                (
                  (str_eq_iff c.category f.category).0 named.0,
                  (opt_str_eq_iff c.target f.target).0 named.1,
                ),
                (change_matches_iff c f).0 both.1,
                listed,
              ),
            )
      ]
    ]
  ]
]

for_each-append :
    {A : Type 0} (g : A → List String) (xs ys : List A)
    → for_each g (xs ++ ys) ≡ for_each g xs ++ for_each g ys
for_each-append g [] ys = refl
for_each-append g (x ∷ xs) ys =
    ap (λ r. g x ++ r) (for_each-append g xs ys) ∙ sym (append_assoc (g x) _ _)

module _ (contract : Option String) (f : Finding) where
  claimants_by-not_applied :
      (m : MigrationDeclaration) (cs : List CoverageClaim)
      → applies_to m contract ≡ false
      → for_each (claimants_by contract f) (map_list (λ c. (m, c)) cs) ≡ []
  claimants_by-not_applied m [] e = refl
  claimants_by-not_applied m (c ∷ cs) e = rw e (claimants_by-not_applied m cs e)

  claimants_by-unverified :
      (m : MigrationDeclaration) (cs : List CoverageClaim)
      → applies_to m contract ≡ true
      → is_verified m ≡ false
      → for_each (claimants_by contract f) (map_list (λ c. (m, c)) cs) ≡ []
  claimants_by-unverified m [] e k = refl
  claimants_by-unverified m (c ∷ cs) e k = rw (e, k) (claimants_by-unverified m cs e k)

  claimants_by-verified :
      (m : MigrationDeclaration) (cs : List CoverageClaim)
      → applies_to m contract ≡ true
      → is_verified m ≡ true
      → for_each (claimants_by contract f) (map_list (λ c. (m, c)) cs)
        ≡ for_each (λ c. claim_on m c f) cs
  claimants_by-verified m [] e k = refl
  claimants_by-verified m (c ∷ cs) e k =
      rw (e, k) (ap (λ r. claim_on m c f ++ r) (claimants_by-verified m cs e k))

  claims_on-declared :
      (ms : List MigrationDeclaration)
      → claims_on (keep is_verified (applicable_of ms contract)) f
        ≡ for_each (claimants_by contract f) (declared_claims ms)
  claims_on-declared [] = refl
  claims_on-declared (m ∷ ms) = sym (
      for_each-append (claimants_by contract f) (map_list (λ c. (m, c)) m.covers)
        (declared_claims ms)
      ∙ elim (Bool-cases (applies_to m contract)) [
        | inr a ↦ rw (a, claimants_by-not_applied m m.covers a) (sym (claims_on-declared ms))
        | inl a ↦ elim (Bool-cases (is_verified m)) [
          | inr v ↦ rw (a, v, claimants_by-unverified m m.covers a v) (sym (claims_on-declared ms))
          | inl v ↦
              rw (a, v, claimants_by-verified m m.covers a v)
                (ap (λ r. for_each (λ c. claim_on m c f) m.covers ++ r)
                  (sym (claims_on-declared ms)))
        ]
      ])

resolve_iff :
    (ids : List String) (c : FindingCoverage)
    → (resolve ids ≡ some c) ↔ ((c.via ≡ none) × (ids ≡ c.migration ∷ []))
resolve_iff [] c = ((λ e. absurd (ground arith)), (λ s. absurd (ground arith)))
resolve_iff (id ∷ []) c = (
  (λ e. (cc, ap (λ z. z ∷ []) (cc))),
  (λ (v, s).
      let p : id ≡ c.migration = ground (arith, s) in
      λ i. some (record { migration = p i; via = sym v i })),
)
resolve_iff (id ∷ jd ∷ ids) c = ((λ e. absurd (ground arith)), (λ s. absurd (ground arith)))

-- The coverage that a finding has without its root.
pub directly-IsOwned :
    (ms : List MigrationDeclaration) (contract : Option String) (f : Finding) (c : FindingCoverage)
    → ((directly (applicable_of ms contract) f).1 ≡ some c)
      ↔ ((c.via ≡ none) × IsOwned ms contract f c.migration)
directly-IsOwned ms contract f c =
    let r = resolve_iff (claims_on (keep is_verified (applicable_of ms contract)) f) c in
    let e = claims_on-declared contract f ms in
    (
      (λ h.
          let (v, k) = r.0 h in
          (
            v,
            IsOnly-of_for_each (Claims contract f) (λ d. d.0.id) (claimants_by contract f)
                (claimants_by-cases contract f) c.migration (declared_claims ms) (sym e ∙ k),
          )),
      (λ (v, (d, o, same)). r.1 (
        v,
        e
            ∙ for_each-only (Claims contract f) (λ d. d.0.id) (claimants_by contract f)
                (claimants_by-cases contract f) d (declared_claims ms) o
            ∙ ap (λ z. z ∷ []) same,
      )),
    )

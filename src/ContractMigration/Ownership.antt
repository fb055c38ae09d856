-- ===== src/ContractMigration/Ownership.antt =====
-- src/contract_migration.rs: when a migration owns a finding, in the words of the declarations.
use soroban_upgrade_safeguar.Base.{
  String, Option, none, some, List, [], ◌∷◌, true, map_list, for_each, is_member, str_eq,
  str_eq_iff, ◌≡◌, ◌↔◌, refl, ap, Bool-cases, List-cases, ◌⊎◌, inl, inr, Every, IsIn, arith,
}
use soroban_upgrade_safeguar.Diff.{Finding}
use soroban_upgrade_safeguar.ContractMigration.{CoverageClaim, MigrationDeclaration, applies_to}

module _ {A : Type 0} (P : A → Type 0) where
  -- P holds of one entry of the list, this one, and of no other.
  abbrev pub IsOnly : A → List A → Type 0
  IsOnly x [] = ⊥
  IsOnly x (y ∷ ys) = ((y ≡ x) × P y × Every (λ z. ¬ P z) ys) ⊎ (¬ P y × IsOnly x ys)

  -- This is the first entry of which P holds.
  abbrev pub IsFirst : A → List A → Type 0
  IsFirst x [] = ⊥
  IsFirst x (y ∷ ys) = ((y ≡ x) × P y) ⊎ (¬ P y × IsFirst x ys)

  module _ (id_of : A → String) (g : A → List String)
      (h : (x : A) → ((g x ≡ id_of x ∷ []) × P x) ⊎ ((g x ≡ []) × ¬ P x)) where
    for_each-nothing : (xs : List A) → Every (λ z. ¬ P z) xs → for_each g xs ≡ []
    for_each-nothing [] n = refl
    for_each-nothing (x ∷ xs) n = elim (h x) [
      | inl (e, p) ↦ absurd (n.0 p)
      | inr (e, p) ↦ rw e (for_each-nothing xs n.1)
    ]

    nothing-for_each : (xs : List A) → for_each g xs ≡ [] → Every (λ z. ¬ P z) xs
    nothing-for_each [] n = tt
    nothing-for_each (x ∷ xs) n = elim (h x) [
      | inl (e, p) ↦ absurd (ground (arith, rw e at n))
      | inr (e, p) ↦ (p, nothing-for_each xs (rw e at n))
    ]

    pub for_each-only : (x : A) (xs : List A) → IsOnly x xs → for_each g xs ≡ id_of x ∷ []
    for_each-only x [] o = elim o [ ]
    for_each-only x (y ∷ ys) (inl (same, p, n)) = elim (h y) [
      | inl (e, q) ↦ rw (e, for_each-nothing ys n) (ap (λ z. id_of z ∷ []) same)
      | inr (e, q) ↦ absurd (q p)
    ]
    for_each-only x (y ∷ ys) (inr (n, o)) = elim (h y) [
      | inl (e, q) ↦ absurd (n q)
      | inr (e, q) ↦ rw e (for_each-only x ys o)
    ]

    pub IsOnly-of_for_each :
        (id : String) (xs : List A)
        → for_each g xs ≡ id ∷ []
        → (x : A) × IsOnly x xs × (id_of x ≡ id)
    IsOnly-of_for_each id [] e = absurd (ground arith)
    IsOnly-of_for_each id (y ∷ ys) k = elim (h y) [
      | inl (e, q) ↦
          let k' : id_of y ∷ for_each g ys ≡ id ∷ [] = rw e at k in
          (y, inl (refl, q, nothing-for_each ys (ground (arith, k'))), ground (arith, k'))
      | inr (e, q) ↦ let (x, o, s) = IsOnly-of_for_each id ys (rw e at k) in (x, inr (q, o), s)
    ]

pub is_member_sound : (n : String) (ns : List String) → is_member n ns ≡ true → IsIn n ns
is_member_sound n [] h = absurd (ground arith)
is_member_sound n (m ∷ ns) h = elim (Bool-cases (str_eq m n)) [
  | inl e ↦ inl ((str_eq_iff m n).0 e)
  | inr e ↦ inr (is_member_sound n ns (ground (arith, e, h, str_eq_iff m n, str_eq_iff n m)))
]

pub is_member_complete : (n : String) (ns : List String) → IsIn n ns → is_member n ns ≡ true
is_member_complete n [] m = elim m [ ]
is_member_complete n (k ∷ ns) (inl e) = ground (arith, e, str_eq_iff k n, str_eq_iff n k)
is_member_complete n (k ∷ ns) (inr m) = ground (arith, is_member_complete n ns m)

-- The contracts that a migration is limited to, where it is limited.
abbrev pub IsFor : MigrationDeclaration → Option String → Type 0
IsFor m contract =
    (m.contracts ≡ []) ⊎ ((name : String) × (contract ≡ some name) × IsIn name m.contracts)

pub applies_to-IsFor :
    (m : MigrationDeclaration) (contract : Option String)
    → (applies_to m contract ≡ true) ↔ IsFor m contract
unfolding applies_to
applies_to-IsFor m none = elim (List-cases m.contracts) [
  | inl e ↦ ((λ h. inl e), (λ s. rw e refl))
  | inr (c, cs, e) ↦ (
    (λ h. absurd (ground (arith, rw e at h))),
    (λ s. elim s [
      | inl n ↦ absurd (ground (arith, e, n))
      | inr (name, n, i) ↦ absurd (ground (arith, n))
    ]),
  )
]
applies_to-IsFor m (some k) = elim (List-cases m.contracts) [
  | inl e ↦ ((λ h. inl e), (λ s. rw e refl))
  | inr (c, cs, e) ↦ (
    (λ h. inr (k, refl, is_member_sound k m.contracts (ground (arith, e, h)))),
    (λ s. elim s [
      | inl n ↦ absurd (ground (arith, e, n))
      | inr (name, n, i) ↦ ground (arith, e, n, is_member_complete name m.contracts i)
    ]),
  )
]

-- A declared claim with the migration that it stands in.
abbrev pub DeclaredClaim : Type 0
DeclaredClaim = MigrationDeclaration × CoverageClaim

abbrev pub declared_claims : List MigrationDeclaration → List DeclaredClaim
declared_claims ms = for_each (λ m. map_list (λ c. (m, c)) m.covers) ms

-- The claim holds: its migration is for this contract, attests its ordering and lists the finding's
-- type, and the claim names the finding's category and target, and its change if it names one.
abbrev pub Claims : Option String → Finding → DeclaredClaim → Type 0
Claims contract f (m, c) =
    IsFor m contract
    × (m.runs_before_read ≡ true)
    × ((c.category ≡ f.category) × (c.target ≡ f.target))
    × ((c.change ≡ none) ⊎ (c.change ≡ f.change))
    × ((name : String) × (f.type_name ≡ some name) × IsIn name m.migrates)

-- Exactly one claim holds of the finding, and it is one of the migration of this id.
abbrev pub IsOwned : List MigrationDeclaration → Option String → Finding → String → Type 0
IsOwned ms contract f id =
    (d : DeclaredClaim) × IsOnly (Claims contract f) d (declared_claims ms) × (d.0.id ≡ id)

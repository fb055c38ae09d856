-- ===== src/Base/Predicates.antt =====
-- Predicates on the entries of a list, membership, and distinct names.
use mathlib.Core.Path.{◌≡◌, refl, ap, sym, subst, ◌∙◌}
use mathlib.Core.Logic.{◌⊎◌, inl, inr}
use mathlib.Core.Bool.{Bool, true, false}
use mathlib.Core.List.{List, [], ◌∷◌, ◌++◌}
use native.Mathlib.Omega.{arith}
use mathlib.Core.Option.{some}
use soroban_upgrade_safeguar.Base.Lists.{keep, for_each, map_list, find}
use soroban_upgrade_safeguar.Base.Tests.{Bool-cases, if◌then◌else◌}

module _ {ℓ κ} {A : Type ℓ} (P : A → Type κ) where
  abbrev pub Every : List A → Type κ
  Every [] = Unit
  Every (x ∷ xs) = P x × Every xs

  pub Every-append : (xs ys : List A) → Every xs → Every ys → Every (xs ++ ys)
  Every-append [] ys h k = k
  Every-append (x ∷ xs) ys (p, h) k = (p, Every-append xs ys h k)

  pub Every-split : (xs ys : List A) → Every (xs ++ ys) → Every xs × Every ys
  Every-split [] ys h = (tt, h)
  Every-split (x ∷ xs) ys (p, h) = let rest = Every-split xs ys h in ((p, rest.0), rest.1)

  pub Every-keep : (t : A → Bool) (xs : List A) → Every xs → Every (keep t xs)
  Every-keep t [] h = tt
  Every-keep t (x ∷ xs) (p, h) = ground (arith, Every-keep t xs h)

  pub Every-if : (b : Bool) (xs ys : List A) → Every xs → Every ys → Every (if b then xs else ys)
  Every-if true xs ys h k = h
  Every-if false xs ys h k = k

module _ {ℓ κ μ} {A : Type ℓ} {B : Type κ} (P : B → Type μ) (f : A → List B) where
  pub Every-for_each : ((a : A) → Every P (f a)) → (xs : List A) → Every P (for_each f xs)
  Every-for_each h [] = tt
  Every-for_each h (x ∷ xs) = Every-append P (f x) (for_each f xs) (h x) (Every-for_each h xs)

module _ {ℓ κ μ} {A : Type ℓ} {B : Type κ} (P : B → Type μ) (f : A → B) where
  pub Every-of_map : (xs : List A) → Every P (map_list f xs) → Every (λ x. P (f x)) xs
  Every-of_map [] h = tt
  Every-of_map (x ∷ xs) (p, h) = (p, Every-of_map xs h)

module _ {ℓ} {A : Type ℓ} (t : A → Bool) where
  -- What `filter` keeps passes its test.
  pub Every-kept : (xs : List A) → Every (λ x. t x ≡ true) (keep t xs)
  Every-kept [] = tt
  Every-kept (x ∷ xs) = elim (Bool-cases (t x)) [
    | inl e ↦ rw e (e, Every-kept xs)
    | inr e ↦ rw e (Every-kept xs)
  ]

module _ {A : Type 0} where
  -- `x` is an entry of the list.
  abbrev pub IsIn : A → List A → Type 0
  IsIn x [] = ⊥
  IsIn x (y ∷ ys) = (y ≡ x) ⊎ IsIn x ys

  pub IsIn-left : (x : A) (xs ys : List A) → IsIn x xs → IsIn x (xs ++ ys)
  IsIn-left x [] ys m = elim m [ ]
  IsIn-left x (z ∷ zs) ys (inl e) = inl e
  IsIn-left x (z ∷ zs) ys (inr m) = inr (IsIn-left x zs ys m)

  pub IsIn-right : (x : A) (xs ys : List A) → IsIn x ys → IsIn x (xs ++ ys)
  IsIn-right x [] ys m = m
  IsIn-right x (z ∷ zs) ys m = inr (IsIn-right x zs ys m)

  pub IsIn-keep : (t : A → Bool) (x : A) (xs : List A) → t x ≡ true → IsIn x xs → IsIn x (keep t xs)
  IsIn-keep t x [] h m = elim m [ ]
  IsIn-keep t x (z ∷ zs) h (inl e) = rw (ap t e ∙ h) (inl e)
  IsIn-keep t x (z ∷ zs) h (inr m) = elim (Bool-cases (t z)) [
    | inl e ↦ rw e (inr (IsIn-keep t x zs h m))
    | inr e ↦ rw e (IsIn-keep t x zs h m)
  ]

  pub IsIn-of_append : (x : A) (xs ys : List A) → IsIn x (xs ++ ys) → IsIn x xs ⊎ IsIn x ys
  IsIn-of_append x [] ys m = inr m
  IsIn-of_append x (z ∷ zs) ys (inl e) = inl (inl e)
  IsIn-of_append x (z ∷ zs) ys (inr m) = elim (IsIn-of_append x zs ys m) [
    | inl k ↦ inl (inr k)
    | inr k ↦ inr k
  ]

module _ {A B : Type 0} where
  pub IsIn-map : (f : A → B) (x : A) (xs : List A) → IsIn x xs → IsIn (f x) (map_list f xs)
  IsIn-map f x [] m = elim m [ ]
  IsIn-map f x (z ∷ zs) (inl e) = inl (ap f e)
  IsIn-map f x (z ∷ zs) (inr m) = inr (IsIn-map f x zs m)

  pub IsIn-for_each :
      (f : A → List B) (x : A) (y : B) (xs : List A)
      → IsIn x xs
      → IsIn y (f x)
      → IsIn y (for_each f xs)
  IsIn-for_each f x y [] k m = elim k [ ]
  IsIn-for_each f x y (z ∷ zs) (inl e) m =
      IsIn-left y (f z) (for_each f zs) (subst (λ u. IsIn y (f u)) (sym e) m)
  IsIn-for_each f x y (z ∷ zs) (inr k) m =
      IsIn-right y (f z) (for_each f zs) (IsIn-for_each f x y zs k m)

  pub IsIn-of_map :
      (f : A → B) (y : B) (xs : List A) → IsIn y (map_list f xs) → (x : A) × IsIn x xs × (f x ≡ y)
  IsIn-of_map f y [] m = elim m [ ]
  IsIn-of_map f y (z ∷ zs) (inl e) = (z, inl refl, e)
  IsIn-of_map f y (z ∷ zs) (inr m) = let (x, k, e) = IsIn-of_map f y zs m in (x, inr k, e)

  pub IsIn-of_for_each :
      (f : A → List B) (y : B) (xs : List A)
      → IsIn y (for_each f xs)
      → (x : A) × IsIn x xs × IsIn y (f x)
  IsIn-of_for_each f y [] m = elim m [ ]
  IsIn-of_for_each f y (z ∷ zs) m = elim (IsIn-of_append y (f z) (for_each f zs) m) [
    | inl k ↦ (z, inl refl, k)
    | inr k ↦ let (x, i, j) = IsIn-of_for_each f y zs k in (x, inr i, j)
  ]

module _ {A : Type 0} (t : A → Bool) where
  first_or_rest :
      (x z : A) (zs : List A)
      → t z ≡ true
      → (IsIn x (keep t zs) → IsIn x zs × (t x ≡ true))
      → IsIn x (z ∷ keep t zs)
      → IsIn x (z ∷ zs) × (t x ≡ true)
  first_or_rest x z zs e rest (inl p) = (inl p, ap t (sym p) ∙ e)
  first_or_rest x z zs e rest (inr m) = let (i, k) = rest m in (inr i, k)

  pub IsIn-of_keep : (x : A) (xs : List A) → IsIn x (keep t xs) → IsIn x xs × (t x ≡ true)
  IsIn-of_keep x [] m = elim m [ ]
  IsIn-of_keep x (z ∷ zs) m = elim (Bool-cases (t z)) [
    | inl e ↦ first_or_rest x z zs e (IsIn-of_keep x zs) (rw e at m)
    | inr e ↦ let (i, k) = IsIn-of_keep x zs (rw e at m) in (inr i, k)
  ]

  pub IsIn-of_find : (x : A) (xs : List A) → find t xs ≡ some x → IsIn x xs
  IsIn-of_find x [] h = cc
  IsIn-of_find x (z ∷ zs) h = elim (Bool-cases (t z)) [
    | inl e ↦ inl (cc (rw e at h))
    | inr e ↦ inr (IsIn-of_find x zs (rw e at h))
  ]

module _ {ℓ} {A B : Type 0} (P : B → Type ℓ) (f : A → B) where
  pub Every-map_in : (xs : List A) → ((x : A) → IsIn x xs → P (f x)) → Every P (map_list f xs)
  Every-map_in [] h = tt
  Every-map_in (x ∷ xs) h = (h x (inl refl), Every-map_in xs (λ y m. h y (inr m)))

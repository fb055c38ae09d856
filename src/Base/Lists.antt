-- ===== src/Base/Lists.antt =====
-- Lists: lengths and tests over the native numbers, and the loops that push findings.
use Prim.Native.Nat.{ℕ, suc, ◌+◌}
use mathlib.Core.Path.{◌≡◌, refl}
use mathlib.Core.Logic.{◌↔◌, ◌⊎◌, inl, inr}
use Prim.Native.String.{String}
use mathlib.Core.Bool.{not, Bool, true, false, ◌&&◌, ◌||◌}
use mathlib.Core.Option.{Option, none, some}
use mathlib.Core.List.{List, [], ◌∷◌, ◌++◌}
use native.Mathlib.Omega.{arith}
use soroban_upgrade_safeguar.Base.Tests.{if◌then◌else◌, str_eq, str_eq_iff}

module _ {ℓ} {A : Type ℓ} where
  abbrev pub length : List A → ℕ
  length [] = 0
  length (x ∷ xs) = suc (length xs)

  -- `iter().any(p)`
  abbrev pub any : (A → Bool) → List A → Bool
  any p [] = false
  any p (x ∷ xs) = p x || any p xs

  -- `iter().all(p)`
  abbrev pub all : (A → Bool) → List A → Bool
  all p [] = true
  all p (x ∷ xs) = p x && all p xs

  -- `iter().filter(p)` and `retain(p)`
  abbrev pub keep : (A → Bool) → List A → List A
  keep p [] = []
  keep p (x ∷ xs) = let rest = keep p xs in if p x then x ∷ rest else rest

  -- `iter().find(p)`
  abbrev pub find : (A → Bool) → List A → Option A
  find p [] = none
  find p (x ∷ xs) = let rest = find p xs in if p x then some x else rest

  -- `iter().filter(p).count()`
  abbrev pub count : (A → Bool) → List A → ℕ
  count p [] = 0
  count p (x ∷ xs) = let rest = count p xs in if p x then suc rest else rest

  abbrev pub push_if : Bool → A → List A
  push_if true x = x ∷ []
  push_if false x = []

  -- To split on a computed list and keep the equation.
  pub List-cases : (xs : List A) → (xs ≡ []) ⊎ ((x : A) × (r : List A) × (xs ≡ x ∷ r))
  List-cases [] = inl refl
  List-cases (x ∷ xs) = inr (x, xs, refl)

  pub length-append : (xs ys : List A) → length (xs ++ ys) ≡ length xs + length ys
  length-append [] ys = omega arith
  length-append (x ∷ xs) ys = omega (arith, length-append xs ys)

  pub count-append : (p : A → Bool) (xs ys : List A) → count p (xs ++ ys) ≡ count p xs + count p ys
  count-append p [] ys = omega arith
  count-append p (x ∷ xs) ys = ground (arith, count-append p xs ys)

  pub append-eq-nil : (xs ys : List A) → xs ++ ys ≡ [] → (xs ≡ []) × (ys ≡ [])
  append-eq-nil [] ys h = (refl, h)
  append-eq-nil (x ∷ xs) ys h = ground arith

  pub append-nil_iff : (xs ys : List A) → (xs ++ ys ≡ []) ↔ ((xs ≡ []) × (ys ≡ []))
  append-nil_iff [] ys = ground arith
  append-nil_iff (x ∷ xs) ys = ground arith

  pub push_if-nil_iff : (b : Bool) (x : A) → (push_if b x ≡ []) ↔ (b ≡ false)
  push_if-nil_iff b x = ground arith

  -- A finding about two texts that differ.
  pub push_if_differs-nil_iff :
      (s t : String) (x : A) → (push_if (not (str_eq s t)) x ≡ []) ↔ (s ≡ t)
  push_if_differs-nil_iff s t x = ground (arith, str_eq_iff s t)

  -- Four parts of a report are silent together.
  pub append_four-nil_iff :
      (xs ys zs ws : List A)
      → (xs ++ (ys ++ (zs ++ ws)) ≡ []) ↔ ((xs ≡ []) × (ys ≡ []) × (zs ≡ []) × (ws ≡ []))
  append_four-nil_iff [] [] [] ws = ground arith
  append_four-nil_iff (x ∷ xs) ys zs ws = ground arith
  append_four-nil_iff [] (y ∷ ys) zs ws = ground arith
  append_four-nil_iff [] [] (z ∷ zs) ws = ground arith

module _ {ℓ κ} {A : Type ℓ} {B : Type κ} where
  -- A loop whose body pushes findings onto a report.
  abbrev pub for_each : (A → List B) → List A → List B
  for_each f [] = []
  for_each f (x ∷ xs) = f x ++ for_each f xs

  abbrev pub map_list : (A → B) → List A → List B
  map_list f [] = []
  map_list f (x ∷ xs) = f x ∷ map_list f xs

  pub map-cong : (f g : A → B) (xs : List A) → ((a : A) → f a ≡ g a) → map_list f xs ≡ map_list g xs
  map-cong f g [] h = refl
  map-cong f g (x ∷ xs) h = λ i. h x i ∷ map-cong f g xs h i

pub map-map {ℓ κ μ} :
    {A : Type ℓ} {B : Type κ} {C : Type μ} (g : B → C) (f : A → B) (xs : List A)
    → map_list g (map_list f xs) ≡ map_list (λ a. g (f a)) xs
map-map g f [] = refl
map-map g f (x ∷ xs) = λ i. g (f x) ∷ map-map g f xs i

pub map_id {ℓ} : {A : Type ℓ} (xs : List A) → map_list (λ a. a) xs ≡ xs
map_id [] = refl
map_id (x ∷ xs) = λ i. x ∷ map_id xs i

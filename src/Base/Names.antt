-- ===== src/Base/Names.antt =====
-- Lists of names: membership, inclusion, distinctness, and the pigeonhole principle.
use Prim.Native.Nat.{◌≤◌, ◌+◌}
use Prim.Native.String.{String}
use mathlib.Core.Path.{◌≡◌, refl}
use mathlib.Core.Logic.{inl, inr}
use mathlib.Core.Bool.{Bool, true, false}
use mathlib.Core.List.{List, [], ◌∷◌, ◌++◌}
use native.Mathlib.Omega.{arith}
use soroban_upgrade_safeguar.Base.Lists.{length, any, map_list}
use soroban_upgrade_safeguar.Base.Predicates.{Every}
use soroban_upgrade_safeguar.Base.Tests.{str_eq, str_eq_iff, str_eq_refl, Bool-cases, if◌then◌else◌}

-- `names.contains(n)`
abbrev pub is_member : String → List String → Bool
is_member n names = any (λ m. str_eq m n) names

abbrev pub IsSubset : List String → List String → Type 0
IsSubset ms ns = Every (λ m. is_member m ns ≡ true) ms

abbrev pub HasDistinctNames : List String → Type 0
HasDistinctNames [] = Unit
HasDistinctNames (n ∷ ns) = (is_member n ns ≡ false) × HasDistinctNames ns

erase : String → List String → List String
erase x [] = []
erase x (n ∷ ns) = let rest = erase x ns in if str_eq n x then ns else n ∷ rest

length-erase :
    (x : String) (ns : List String) → is_member x ns ≡ true → length (erase x ns) + 1 ≡ length ns
unfolding erase
length-erase x [] h = ground arith
length-erase x (n ∷ ns) h = ground (arith, length-erase x ns)

is_member-erase :
    (x m : String) (ns : List String)
    → str_eq x m ≡ false
    → is_member m ns ≡ true
    → is_member m (erase x ns) ≡ true
unfolding erase
is_member-erase x m [] d h = ground arith
is_member-erase x m (n ∷ ns) d h =
    ground (arith, is_member-erase x m ns d, str_eq_iff n x, str_eq_iff n m, str_eq_iff x m)

IsSubset-erase :
    (x : String) (ms ns : List String)
    → is_member x ms ≡ false
    → IsSubset ms ns
    → IsSubset ms (erase x ns)
IsSubset-erase x [] ns d h = tt
IsSubset-erase x (m ∷ ms) ns d h = (
  is_member-erase x m ns (ground (arith, str_eq_iff x m, str_eq_iff m x)) h.0,
  IsSubset-erase x ms ns (ground arith) h.1,
)

-- Distinct names that all occur in a list are no more than its entries.
pub length-le_of_IsSubset :
    (ms ns : List String) → HasDistinctNames ms → IsSubset ms ns → length ms ≤ length ns
length-le_of_IsSubset [] ns d h = omega arith
length-le_of_IsSubset (m ∷ ms) ns d h = omega (
  arith,
  length-erase m ns h.0,
  length-le_of_IsSubset ms (erase m ns) d.1 (IsSubset-erase m ms ns d.0 h.1),
)

is_member_of_full :
    (x : String) (ms ns : List String)
    → HasDistinctNames ms
    → IsSubset ms ns
    → length ns ≤ length ms
    → is_member x ns ≡ true
    → is_member x ms ≡ true
is_member_of_full x ms ns d h le m = elim (Bool-cases (is_member x ms)) [
  | inl old ↦ old
  | inr new ↦ absurd (omega (arith, length-le_of_IsSubset (x ∷ ms) ns (new, d) (m, h)))
]

IsSubset-intro :
    (ms ns : List String)
    → ((x : String) → is_member x ms ≡ true → is_member x ns ≡ true)
    → IsSubset ms ns
IsSubset-intro [] ns h = tt
IsSubset-intro (m ∷ ms) ns h =
    (h m (ground (arith, str_eq_refl m)), IsSubset-intro ms ns (λ x e. h x (ground arith)))

-- The pigeonhole principle: distinct names that fill a list are all of its names.
pub IsSubset-of_full :
    (ms ns : List String)
    → HasDistinctNames ms
    → IsSubset ms ns
    → length ns ≤ length ms
    → IsSubset ns ms
IsSubset-of_full ms ns d h le = IsSubset-intro ns ms (λ x e. is_member_of_full x ms ns d h le e)

pub IsSubset-elim :
    (x : String) (ms ns : List String)
    → IsSubset ms ns
    → is_member x ms ≡ true
    → is_member x ns ≡ true
IsSubset-elim x [] ns h m = ground arith
IsSubset-elim x (n ∷ ms) ns h m = ground (arith, IsSubset-elim x ms ns h.1, str_eq_iff n x)

pub IsSubset-refl : (ms : List String) → IsSubset ms ms
IsSubset-refl ms = IsSubset-intro ms ms (λ x e. e)

-- A name that does not occur in `ms` can be left out of the list around them.
pub IsSubset-drop :
    (x : String) (ms ns : List String)
    → is_member x ms ≡ false
    → IsSubset ms (x ∷ ns)
    → IsSubset ms ns
IsSubset-drop x [] ns d h = tt
IsSubset-drop x (m ∷ ms) ns d h =
    (ground (arith, str_eq_iff x m, str_eq_iff m x), IsSubset-drop x ms ns (ground arith) h.1)

pub any-map {ℓ} :
    {A : Type ℓ} (f : A → String) (x : String) (xs : List A)
    → any (λ a. str_eq (f a) x) xs ≡ is_member x (map_list f xs)
any-map f x [] = refl
any-map f x (a ∷ xs) = ground (arith, any-map f x xs)

pub member_left :
    (x : String) (ms ns : List String) → is_member x ms ≡ true → is_member x (ms ++ ns) ≡ true
member_left x [] ns h = absurd (ground arith)
member_left x (m ∷ ms) ns h = ground (arith, member_left x ms ns)

pub member_right :
    (x : String) (ms ns : List String) → is_member x ns ≡ true → is_member x (ms ++ ns) ≡ true
member_right x [] ns h = h
member_right x (m ∷ ms) ns h = ground (arith, member_right x ms ns h)

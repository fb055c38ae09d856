-- ===== src/Spec/Equality.antt =====
-- The tests on types decide equality.
use soroban_upgrade_safeguar.Base.{
  ◌≡◌, refl, ◌↔◌, ap, true, arith, ℕ, suc, zero, ==_iff, str_eq_iff, str_eq_refl, and-true_iff,
}
use soroban_upgrade_safeguar.Spec.{
  Primitive, val, bool, void, error, u32, i32, u64, i64, timepoint, duration, u128, i128, u256,
  i256, bytes, string, symbol, address, TypeDef, TypeDefs, primitive, option, result, vec, map,
  tuple, bytes_n, udt, nil, cons, tag, types_equal, all_types_equal,
}

-- The primitive type of a tag.
abbrev of_tag : ℕ → Primitive
of_tag zero = val
of_tag (suc zero) = bool
of_tag (suc (suc zero)) = void
of_tag (suc (suc (suc zero))) = error
of_tag (suc (suc (suc (suc n)))) = numbers n
  where
    texts : ℕ → Primitive
    texts zero = bytes
    texts (suc zero) = string
    texts (suc (suc zero)) = symbol
    texts _ = address

    wide : ℕ → Primitive
    wide zero = u128
    wide (suc zero) = i128
    wide (suc (suc zero)) = u256
    wide (suc (suc (suc zero))) = i256
    wide (suc (suc (suc (suc n)))) = texts n

    numbers : ℕ → Primitive
    numbers zero = u32
    numbers (suc zero) = i32
    numbers (suc (suc zero)) = u64
    numbers (suc (suc (suc zero))) = i64
    numbers (suc (suc (suc (suc zero)))) = timepoint
    numbers (suc (suc (suc (suc (suc zero))))) = duration
    numbers (suc (suc (suc (suc (suc (suc n)))))) = wide n

of_tag-tag : (p : Primitive) → of_tag (tag p) ≡ p
of_tag-tag val = refl
of_tag-tag _ = refl

tag-injective : (p q : Primitive) → tag p ≡ tag q → p ≡ q
tag-injective p q h = cc (of_tag-tag p, of_tag-tag q, ap of_tag h)

mutual
  unfolding types_equal

  types_equal_refl : (a : TypeDef) → types_equal a a ≡ true
  types_equal_refl (primitive p) = (==_iff (tag p) (tag p)).1 refl
  types_equal_refl (option a) = types_equal_refl a
  types_equal_refl (result a e) = ground (arith, types_equal_refl a, types_equal_refl e)
  types_equal_refl (vec a) = types_equal_refl a
  types_equal_refl (map k v) = ground (arith, types_equal_refl k, types_equal_refl v)
  types_equal_refl (tuple xs) = all_types_equal_refl xs
  types_equal_refl (bytes_n n) = (==_iff n n).1 refl
  types_equal_refl (udt a) = str_eq_refl a

  all_types_equal_refl : (xs : TypeDefs) → all_types_equal xs xs ≡ true
  all_types_equal_refl nil = refl
  all_types_equal_refl (cons a xs) = ground (arith, types_equal_refl a, all_types_equal_refl xs)

mutual
  unfolding types_equal

  types_equal_sound : (a b : TypeDef) → types_equal a b ≡ true → a ≡ b
  types_equal_sound (primitive p) (primitive q) h =
      ap primitive (tag-injective p q ((==_iff (tag p) (tag q)).0 h))
  types_equal_sound (option a) (option b) h = ap option (types_equal_sound a b h)
  types_equal_sound (result a e) (result b f) h =
      let (p, q) = (and-true_iff (types_equal a b) (types_equal e f)).0 h in
      cc (types_equal_sound a b p, types_equal_sound e f q)
  types_equal_sound (vec a) (vec b) h = ap vec (types_equal_sound a b h)
  types_equal_sound (map k v) (map l w) h =
      let (p, q) = (and-true_iff (types_equal k l) (types_equal v w)).0 h in
      cc (types_equal_sound k l p, types_equal_sound v w q)
  types_equal_sound (tuple xs) (tuple ys) h = ap tuple (all_types_equal_sound xs ys h)
  types_equal_sound (bytes_n m) (bytes_n n) h = ap bytes_n ((==_iff m n).0 h)
  types_equal_sound (udt a) (udt b) h = ap udt ((str_eq_iff a b).0 h)
  types_equal_sound _ _ h = cc

  all_types_equal_sound : (xs ys : TypeDefs) → all_types_equal xs ys ≡ true → xs ≡ ys
  all_types_equal_sound nil nil h = refl
  all_types_equal_sound (cons a xs) (cons b ys) h =
      let (p, q) = (and-true_iff (types_equal a b) (all_types_equal xs ys)).0 h in
      cc (types_equal_sound a b p, all_types_equal_sound xs ys q)
  all_types_equal_sound _ _ h = cc

pub types_equal_iff : (a b : TypeDef) → (types_equal a b ≡ true) ↔ (a ≡ b)
types_equal_iff a b = (types_equal_sound a b, λ e. rw e (types_equal_refl b))

pub all_types_equal_iff : (xs ys : TypeDefs) → (all_types_equal xs ys ≡ true) ↔ (xs ≡ ys)
all_types_equal_iff xs ys = (all_types_equal_sound xs ys, λ e. rw e (all_types_equal_refl ys))

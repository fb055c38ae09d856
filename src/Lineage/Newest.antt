-- ===== src/Lineage/Newest.antt =====
-- src/lineage.rs: `live_records` keeps the newest of the records that the policy admits.
use soroban_upgrade_safeguar.Base.{
  ℕ, zero, suc, ◌-◌, ◌<◌, ◌≡◌, refl, ap, sym, ◌∙◌, String, Option, none, some, List, [], ◌∷◌, ◌++◌,
  Bool, true, ◌&&◌, ◌||◌, leb, ltb, ltb→lt, arith, Every, Every-split, keep, find, length, str_eq,
  if◌then◌else◌, Bool-cases, Option-cases, inl, inr, subst,
}
use soroban_upgrade_safeguar.Lineage.{
  LineageRecord, LineageStore, LiveStatus, live, retired, has_id, ok, is_live, drop, newest,
  retain_from, cutoff_of, live_records, validate_integrity,
}
use soroban_upgrade_safeguar.Lineage.Integrity.{IsAscending, IsInOrder, validate_integrity-ok_iff}

-- The order of the version that the policy names as its cutoff; every order is at least 0, which
-- stands for no cutoff and for one that is not in the ledger.
unfoldable pub cutoff_order : Option String → List LineageRecord → ℕ
cutoff_order none rs = 0
cutoff_order (some tag) [] = 0
cutoff_order (some tag) (r ∷ rs) =
    let rest = cutoff_order (some tag) rs in if str_eq r.version_id tag then r.order else rest

abbrev pub has_live_data : Bool → LiveStatus → Bool
has_live_data allow_retired_data live = true
has_live_data allow_retired_data retired = allow_retired_data

-- The record is live, or retired where the policy keeps the data of retired versions, and is not
-- older than the cutoff, which leaves records out whatever the policy says of retired data.
abbrev pub is_admitted : LineageStore → LineageRecord → Bool
is_admitted store r =
    has_live_data store.policy.allow_retired_data r.status
    && leb (cutoff_order store.policy.retire_before_version store.records) r.order

unfoldable pub admitted : LineageStore → List LineageRecord
unfolding cutoff_order
admitted store = keep (is_admitted store) store.records

-- So many of `all_count` records are kept under the limit.
abbrev pub kept_count : Option ℕ → ℕ → ℕ
kept_count none all_count = all_count
kept_count (some limit) all_count = if ltb limit all_count then limit else all_count

-- Every record of the first list is older than every record of the second.
abbrev pub IsOlder : List LineageRecord → List LineageRecord → Type 0
IsOlder older newer = Every (λ o. Every (λ r. o.order < r.order) newer) older

dropped :
    (n : ℕ) (rs : List LineageRecord)
    → (older : List LineageRecord) × (rs ≡ older ++ drop n rs)
      × (length (drop n rs) ≡ length rs - n)
unfolding drop
dropped zero rs = ([], refl, omega arith)
dropped (suc n) [] = ([], refl, omega arith)
dropped (suc n) (r ∷ rs) =
    let (older, e, l) = dropped n rs in (r ∷ older, ap (λ q. r ∷ q) e, omega (arith, l))

newest-suffix :
    (m : Option ℕ) (rs : List LineageRecord)
    → (older : List LineageRecord) × (rs ≡ older ++ newest m rs)
      × (length (newest m rs) ≡ kept_count m (length rs))
unfolding newest
newest-suffix none rs = ([], refl, refl)
newest-suffix (some n) rs = elim (Bool-cases (ltb n (length rs))) [
  | inl e ↦
      let (older, p, l) = dropped (length rs - n) rs in
      rw e (older, p, omega (arith, l, ltb→lt n (length rs) e))
  | inr e ↦ rw e ([], refl, refl)
]

IsAscending-lower :
    (m n : ℕ) (rs : List LineageRecord) → m < n → IsAscending n rs → IsAscending m rs
IsAscending-lower m n [] lt h = tt
IsAscending-lower m n (r ∷ rs) lt (l, h) = (omega arith, h)

IsAscending-keep :
    (p : LineageRecord → Bool) (last : ℕ) (rs : List LineageRecord)
    → IsAscending last rs
    → IsAscending last (keep p rs)
IsAscending-keep p last [] h = tt
IsAscending-keep p last (r ∷ rs) (lt, h) = elim (Bool-cases (p r)) [
  | inl e ↦ rw e (lt, IsAscending-keep p r.order rs h)
  | inr e ↦ rw e (IsAscending-keep p last rs (IsAscending-lower last r.order rs lt h))
]

keep-keep {ℓ} :
    {A : Type ℓ} (p q r : A → Bool) (xs : List A)
    → ((x : A) → (p x && q x) ≡ r x)
    → keep q (keep p xs) ≡ keep r xs
keep-keep p q r [] h = refl
keep-keep p q r (x ∷ xs) h = rw (sym (h x)) (elim (Bool-cases (p x)) [
  | inr e ↦ rw e (keep-keep p q r xs h)
  | inl e ↦ rw e (elim (Bool-cases (q x)) [
    | inl k ↦ rw k (ap (λ rest. x ∷ rest) (keep-keep p q r xs h))
    | inr k ↦ rw k (keep-keep p q r xs h)
  ])
])

status_test :
    (b : Bool) (s : LiveStatus) (r : LineageRecord)
    → r.status ≡ s
    → (is_live r || b) ≡ has_live_data b s
status_test b live r e = rw e refl
status_test b retired r e = rw e refl

-- The order of the record that the code finds.
order_of : Option LineageRecord → ℕ
order_of none = 0
order_of (some r) = r.order

found_order :
    (tag : String) (rs : List LineageRecord)
    → order_of (find (has_id tag) rs) ≡ cutoff_order (some tag) rs
unfolding cutoff_order order_of
found_order tag [] = refl
found_order tag (r ∷ rs) = elim (Bool-cases (str_eq r.version_id tag)) [
  | inl e ↦ rw e refl
  | inr e ↦ rw e (found_order tag rs)
]

cutoff_of-order :
    (store : LineageStore)
    → order_of (cutoff_of store) ≡ cutoff_order store.policy.retire_before_version store.records
unfolding order_of cutoff_order
cutoff_of-order store = elim (Option-cases store.policy.retire_before_version) [
  | inl n ↦ rw n refl
  | inr (tag, n) ↦ rw n (found_order tag store.records)
]

zero_leb : (n : ℕ) → leb 0 n ≡ true
zero_leb n = ground arith

keep_all {ℓ} : {A : Type ℓ} (p : A → Bool) (xs : List A) → ((x : A) → p x ≡ true) → keep p xs ≡ xs
keep_all p [] h = refl
keep_all p (x ∷ xs) h = rw (h x) (ap (λ rest. x ∷ rest) (keep_all p xs h))

retain_from-keep :
    (o : Option LineageRecord) (rs : List LineageRecord)
    → retain_from o rs ≡ keep (λ r. leb (order_of o) r.order) rs
unfolding order_of
retain_from-keep none rs = sym (keep_all (λ r. leb 0 r.order) rs (λ r. zero_leb r.order))
retain_from-keep (some c) rs = refl

-- The two filters of the code are one.
retained-admitted :
    (store : LineageStore)
    → retain_from
        (cutoff_of store)
        (keep (λ r. is_live r || store.policy.allow_retired_data) store.records)
      ≡ admitted store
unfolding admitted
retained-admitted store =
    retain_from-keep (cutoff_of store) _
    ∙ keep-keep (λ r. is_live r || store.policy.allow_retired_data)
        (λ r. leb (order_of (cutoff_of store)) r.order) (is_admitted store) store.records
        (λ r i.
          status_test store.policy.allow_retired_data r.status r refl i
          && leb (cutoff_of-order store i) r.order)

admitted-IsAscending :
    (store : LineageStore) → IsAscending 0 store.records → IsAscending 0 (admitted store)
unfolding admitted
admitted-IsAscending store h = IsAscending-keep (is_admitted store) 0 store.records h

all_after :
    (last : ℕ) (rs : List LineageRecord) → IsAscending last rs → Every (λ r. last < r.order) rs
all_after last [] h = tt
all_after last (r ∷ rs) (lt, h) = (lt, all_after last rs (IsAscending-lower last r.order rs lt h))

IsOlder-of_append :
    (last : ℕ) (older newer : List LineageRecord)
    → IsAscending last (older ++ newer)
    → IsOlder older newer
IsOlder-of_append last [] newer h = tt
IsOlder-of_append last (o ∷ older) newer (lt, h) = (
  (Every-split (λ r. o.order < r.order) older newer (all_after o.order (older ++ newer) h)).1,
  IsOlder-of_append o.order older newer h,
)

IsAscending-of_order : (rs : List LineageRecord) → IsInOrder rs → IsAscending 0 rs
unfolding IsInOrder
IsAscending-of_order rs (p, d, a) = a

-- In a ledger that passes the integrity check, the live records are the newest of those that are
-- live, or retired where the policy keeps the data of retired versions, and not older than the
-- cutoff of the policy: as many as its limit allows, and each newer than every one left out. The
-- cutoff leaves older records out also where the policy keeps the data of retired versions.
pub live_records-IsOlder :
    (store : LineageStore)
    → validate_integrity store ≡ ok
    → (older : List LineageRecord) × (admitted store ≡ older ++ live_records store)
      × IsOlder older (live_records store)
      × (length (live_records store)
          ≡ kept_count store.policy.max_live_versions (length (admitted store)))
unfolding live_records
live_records-IsOlder store valid =
    rw (retained-admitted store, live_records)
      (let order =
          IsAscending-of_order store.records ((validate_integrity-ok_iff store).0 valid).1 in
        let (older, e, count) = newest-suffix store.policy.max_live_versions (admitted store) in
        (
          older,
          e,
          IsOlder-of_append 0 older _
              (subst (λ rs. IsAscending 0 rs) e (admitted-IsAscending store order)),
          count,
        ))

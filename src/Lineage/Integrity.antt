-- ===== src/Lineage/Integrity.antt =====
-- src/lineage.rs: `validate_integrity` accepts exactly the ledgers that are in order.
use soroban_upgrade_safeguar.Base.{
  ℕ, suc, ◌<◌, ◌≤◌, ◌≡◌, ◌↔◌, refl, String, List, [], ◌∷◌, Bool, true, false, not, ◌==◌, leb, arith,
  Every, HasDistinctNames, map_list, is_member, str_eq, str_eq_iff, if◌then◌else◌,
}
use soroban_upgrade_safeguar.Lineage.{
  LineageRecord, LineageStore, Outcome, ok, err, is_blank, Scan, after_record, empty_scan,
  is_order_seen, check_records, validate_integrity,
}

abbrev pub ids : List LineageRecord → List String
ids rs = map_list (λ r. r.version_id) rs

-- The record has an id and a hash.
abbrev pub IsNamed : LineageRecord → Type 0
IsNamed r = (is_blank r.version_id ≡ false) × (is_blank r.wasm_hash ≡ false)

-- The orders increase strictly from this one on.
abbrev pub IsAscending : ℕ → List LineageRecord → Type 0
IsAscending last [] = Unit
IsAscending last (r ∷ rs) = (last < r.order) × IsAscending r.order rs

unfoldable pub IsInOrder : List LineageRecord → Type 0
IsInOrder rs = Every IsNamed rs × HasDistinctNames (ids rs) × IsAscending 0 rs

-- No name is among those seen before it.
abbrev IsFresh : List String → List String → Type 0
IsFresh seen [] = Unit
IsFresh seen (n ∷ ns) = (is_member n seen ≡ false) × IsFresh (n ∷ seen) ns

member_later :
    (n : String) (seen ns : List String)
    → IsFresh seen ns
    → is_member n seen ≡ true
    → is_member n ns ≡ false
member_later n seen [] h m = refl
member_later n seen (k ∷ ns) (f, h) m =
    ground (arith, member_later n (k ∷ seen) ns h (ground arith), str_eq_iff k n)

distinct_of_fresh : (seen ns : List String) → IsFresh seen ns → HasDistinctNames ns
distinct_of_fresh seen [] h = tt
distinct_of_fresh seen (n ∷ ns) (f, h) = (
  member_later n (n ∷ seen) ns h (ground (arith, str_eq_iff n n)),
  distinct_of_fresh (n ∷ seen) ns h,
)

other_name :
    (n k : String) (ns : List String)
    → is_member n (k ∷ ns) ≡ false
    → (str_eq k n ≡ false) × (is_member n ns ≡ false)
other_name n k ns h = ground arith

fresh_cons :
    (n : String) (seen ns : List String)
    → is_member n ns ≡ false
    → Every (λ k. is_member k seen ≡ false) ns
    → Every (λ k. is_member k (n ∷ seen) ≡ false) ns
fresh_cons n seen [] m h = tt
fresh_cons n seen (k ∷ ns) m (f, h) =
    let (p, q) = other_name n k ns m in
    (ground (arith, str_eq_iff n k, str_eq_iff k n), fresh_cons n seen ns q h)

IsFresh-of_distinct :
    (seen ns : List String)
    → HasDistinctNames ns
    → Every (λ k. is_member k seen ≡ false) ns
    → IsFresh seen ns
IsFresh-of_distinct seen [] d h = tt
IsFresh-of_distinct seen (n ∷ ns) (m, d) (f, h) =
    (f, IsFresh-of_distinct (n ∷ seen) ns d (fresh_cons n seen ns m h))

unseen_all : (ns : List String) → Every (λ k. is_member k [] ≡ false) ns
unseen_all [] = tt
unseen_all (n ∷ ns) = (refl, unseen_all ns)

-- A test of the loop that bails out.
bail_iff :
    (b : Bool) (e : String) (g : Outcome)
    → ((if b then err e else g) ≡ ok) ↔ ((b ≡ false) × (g ≡ ok))
bail_iff b e g = ground arith

order_unseen :
    (n last : ℕ) (orders : List ℕ)
    → Every (λ m. m ≤ last) orders
    → last < n
    → is_order_seen n orders ≡ false
order_unseen n last [] h lt = refl
order_unseen n last (m ∷ orders) (le, h) lt = ground (arith, order_unseen n last orders h lt)

raised :
    (last n : ℕ) (orders : List ℕ)
    → last < n
    → Every (λ m. m ≤ last) orders
    → Every (λ m. m ≤ n) orders
raised last n [] lt h = tt
raised last n (m ∷ orders) lt (le, h) = (omega arith, raised last n orders lt h)

above : (n last : ℕ) → leb n last ≡ false → last < n
above n last h = ground arith

positive : (n last : ℕ) → last < n → (n == 0) ≡ false
positive n last h = ground arith

not_below : (n last : ℕ) → last < n → leb n last ≡ false
not_below n last h = ground arith

check_sound :
    (index : ℕ) (rs : List LineageRecord) (s : Scan)
    → check_records index rs s ≡ ok
    → Every IsNamed rs × IsFresh s.seen_ids (ids rs) × IsAscending s.last_order rs
unfolding check_records
check_sound index [] s h = (tt, tt, tt)
check_sound index (r ∷ rs) s h =
    let (named, h1) = (bail_iff (is_blank r.version_id) _ _).0 h in
    let (fresh, h2) = (bail_iff (is_member r.version_id s.seen_ids) _ _).0 h1 in
    let (nonzero, h3) = (bail_iff (r.order == 0) _ _).0 h2 in
    let (unseen, h4) = (bail_iff (is_order_seen r.order s.seen_orders) _ _).0 h3 in
    let (later, h5) = (bail_iff (leb r.order s.last_order) _ _).0 h4 in
    let (hashed, h6) = (bail_iff (is_blank r.wasm_hash) _ _).0 h5 in
    let (p, q, a) = check_sound (suc index) rs (after_record r s) h6 in
    (((named, hashed), p), (fresh, q), (above r.order s.last_order later, a))

check_complete :
    (index : ℕ) (rs : List LineageRecord) (s : Scan)
    → Every (λ m. m ≤ s.last_order) s.seen_orders
    → Every IsNamed rs
    → IsFresh s.seen_ids (ids rs)
    → IsAscending s.last_order rs
    → check_records index rs s ≡ ok
unfolding check_records
check_complete index [] s le p q a = refl
check_complete index (r ∷ rs) s le ((named, hashed), p) (fresh, q) (lt, a) =
    let rest =
      check_complete (suc index) rs (after_record r s)
        (omega arith, raised s.last_order r.order s.seen_orders lt le) p q a in
    (bail_iff (is_blank r.version_id) _ _).1 (
      named,
      (bail_iff (is_member r.version_id s.seen_ids) _ _).1 (
        fresh,
        (bail_iff (r.order == 0) _ _).1 (
          positive r.order s.last_order lt,
          (bail_iff (is_order_seen r.order s.seen_orders) _ _).1 (
            order_unseen r.order s.last_order s.seen_orders le lt,
            (bail_iff (leb r.order s.last_order) _ _).1 (
              not_below r.order s.last_order lt,
              (bail_iff (is_blank r.wasm_hash) _ _).1 (hashed, rest),
            ),
          ),
        ),
      ),
    )

same_version : (m n : ℕ) → (not (m == n) ≡ false) ↔ (m ≡ n)
same_version m n = ground arith

-- A ledger passes the integrity check exactly when its schema is version 1, every record has an
-- id and a hash, no two records have one id, and the orders are positive and strictly increasing.
pub validate_integrity-ok_iff :
    (store : LineageStore)
    → (validate_integrity store ≡ ok) ↔ ((store.schema_version ≡ 1) × IsInOrder store.records)
unfolding validate_integrity IsInOrder
validate_integrity-ok_iff store = (
  (λ h.
      let (v, k) = (bail_iff (not (store.schema_version == 1)) _ _).0 h in
      let (p, q, a) = check_sound 0 store.records empty_scan k in
      ((same_version _ _).0 v, (p, distinct_of_fresh [] _ q, a))),
  (λ h.
      let (v, (p, d, a)) = h in
      (bail_iff (not (store.schema_version == 1)) _ _).1 (
        (same_version _ _).1 v,
        check_complete 0 store.records empty_scan tt p (IsFresh-of_distinct [] _ d (unseen_all _))
            a,
      )),
)

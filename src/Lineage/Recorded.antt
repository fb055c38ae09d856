-- ===== src/Lineage/Recorded.antt =====
-- src/lineage.rs: `record_version` of a new version.
use soroban_upgrade_safeguar.Base.{
  ℕ, ◌+◌, ◌<◌, ◌≡◌, refl, String, List, [], ◌∷◌, ◌++◌, false, lt→ltb, arith, Every-append,
  HasDistinctNames, is_member, any, str_eq, str_eq_iff, any-map, sym, ◌∙◌,
}
use soroban_upgrade_safeguar.Lineage.{
  LineageRecord, LineageStore, ok, has_id, max_order, next_order, u64_max, updated,
  validate_integrity, record_version,
}
use soroban_upgrade_safeguar.Lineage.Integrity.{
  ids, IsNamed, IsAscending, IsInOrder, validate_integrity-ok_iff,
}

IsAscending-append :
    (last : ℕ) (rs : List LineageRecord) (r : LineageRecord)
    → IsAscending last rs
    → last < r.order
    → max_order rs < r.order
    → IsAscending last (rs ++ r ∷ [])
unfolding max_order
IsAscending-append last [] r h lt m = (lt, tt)
IsAscending-append last (q ∷ rs) r (l, h) lt m =
    (l, IsAscending-append q.order rs r h (ground arith) (ground arith))

distinct-append :
    (rs : List LineageRecord) (r : LineageRecord)
    → HasDistinctNames (ids rs)
    → is_member r.version_id (ids rs) ≡ false
    → HasDistinctNames (ids (rs ++ r ∷ []))
distinct-append [] r d m = (refl, tt)
distinct-append (q ∷ rs) r (n, d) m = (
  absent-append q.version_id rs r n
      (ground (arith, str_eq_iff q.version_id r.version_id, str_eq_iff r.version_id q.version_id)),
  distinct-append rs r d (ground arith),
)
  where
    absent-append :
        (n : String) (rs : List LineageRecord) (r : LineageRecord)
        → is_member n (ids rs) ≡ false
        → str_eq r.version_id n ≡ false
        → is_member n (ids (rs ++ r ∷ [])) ≡ false
    absent-append n [] r h e = ground arith
    absent-append n (q ∷ rs) r h e = ground (arith, absent-append n rs r (ground arith) e)

appended-IsInOrder :
    (rs : List LineageRecord) (r : LineageRecord)
    → IsInOrder rs
    → IsNamed r
    → is_member r.version_id (ids rs) ≡ false
    → max_order rs < r.order
    → IsInOrder (rs ++ r ∷ [])
unfolding IsInOrder
appended-IsInOrder rs r (p, d, a) named m lt = (
  Every-append IsNamed rs (r ∷ []) p (named, tt),
  distinct-append rs r d m,
  IsAscending-append 0 rs r a (omega arith) lt,
)

next_order-eq :
    (rs : List LineageRecord) → max_order rs < u64_max → next_order rs ≡ max_order rs + 1
unfolding next_order
next_order-eq rs h = rw (lt→ltb (max_order rs) u64_max h) refl

-- The record with its place in the ledger.
abbrev pub placed : ℕ → LineageRecord → LineageRecord
placed n r = record r { order = n }

updated-new :
    (rs : List LineageRecord) (r : LineageRecord)
    → any (has_id r.version_id) rs ≡ false
    → r.order ≡ 0
    → max_order rs < u64_max
    → updated rs r ≡ rs ++ placed (max_order rs + 1) r ∷ []
updated-new rs r new zero_order h = rw (new, zero_order, next_order-eq rs h) refl

-- A new version without an order is recorded: in a ledger that passes the integrity check, where
-- its id is new and like its hash not blank, and the orders are not exhausted, it is appended with
-- the order after the last one, and the ledger passes the check again.
pub record_version-new :
    (store : LineageStore) (r : LineageRecord)
    → validate_integrity store ≡ ok
    → IsNamed r
    → any (has_id r.version_id) store.records ≡ false
    → r.order ≡ 0
    → max_order store.records < u64_max
    → record_version r store ≡ (
      record store { records = store.records ++ placed (max_order store.records + 1) r ∷ [] },
      ok,
    )
unfolding record_version
record_version-new store r valid (named, hashed) new zero_order h =
    let (v, order) = (validate_integrity-ok_iff store).0 valid in
    let next = record store {
      records = store.records ++ placed (max_order store.records + 1) r ∷ [];
    } in
    let again = (validate_integrity-ok_iff next).1 (
      v,
      appended-IsInOrder store.records (placed (max_order store.records + 1) r) order
          (named, hashed) (sym (any-map (λ q. q.version_id) r.version_id store.records) ∙ new)
          (omega arith),
    ) in
    rw (named, updated-new store.records r new zero_order h, again) refl

-- ===== src/Lineage/Retired.antt =====
-- src/lineage.rs: `retire_version`, and which records are live.
use soroban_upgrade_safeguar.Base.{
  ℕ, zero, suc, ◌-◌, ◌≡◌, refl, ap, String, Option, none, some, List, [], ◌∷◌, Bool, false, ◌||◌,
  leb, ltb, arith, Every, Every-keep, HasDistinctNames, is_member, keep, length, str_eq_iff,
  Bool-cases, inl, inr, any-map, sym,
}
use soroban_upgrade_safeguar.Lineage.{
  LineageRecord, LineageStore, ok, has_id, is_live, drop, newest, retain_from, cutoff_of,
  live_records, retire_first, retire_version, validate_integrity,
}
use soroban_upgrade_safeguar.Lineage.Integrity.{
  ids, IsNamed, IsAscending, IsInOrder, validate_integrity-ok_iff,
}

retire_first-ids : (id : String) (rs : List LineageRecord) → ids (retire_first id rs) ≡ ids rs
unfolding retire_first
retire_first-ids id [] = refl
retire_first-ids id (r ∷ rs) = elim (Bool-cases (has_id id r)) [
  | inl e ↦ rw e refl
  | inr e ↦ rw e (ap (λ ns. r.version_id ∷ ns) (retire_first-ids id rs))
]

retire_first-IsNamed :
    (id : String) (rs : List LineageRecord) → Every IsNamed rs → Every IsNamed (retire_first id rs)
unfolding retire_first
retire_first-IsNamed id [] h = tt
retire_first-IsNamed id (r ∷ rs) (p, h) = elim (Bool-cases (has_id id r)) [
  | inl e ↦ rw e (p, h)
  | inr e ↦ rw e (p, retire_first-IsNamed id rs h)
]

retire_first-IsAscending :
    (id : String) (last : ℕ) (rs : List LineageRecord)
    → IsAscending last rs
    → IsAscending last (retire_first id rs)
unfolding retire_first
retire_first-IsAscending id last [] h = tt
retire_first-IsAscending id last (r ∷ rs) (lt, h) = elim (Bool-cases (has_id id r)) [
  | inl e ↦ rw e (lt, h)
  | inr e ↦ rw e (lt, retire_first-IsAscending id r.order rs h)
]

retire_first-IsInOrder :
    (id : String) (rs : List LineageRecord) → IsInOrder rs → IsInOrder (retire_first id rs)
unfolding IsInOrder
retire_first-IsInOrder id rs (p, d, a) = (
  retire_first-IsNamed id rs p,
  rw (retire_first-ids id rs) d,
  retire_first-IsAscending id 0 rs a,
)

-- The record is not a live one with this id.
abbrev pub IsGone : String → LineageRecord → Type 0
IsGone id r = has_id id r ≡ false

IsGone-of_absent :
    (id : String) (b : Bool) (rs : List LineageRecord)
    → is_member id (ids rs) ≡ false
    → Every (IsGone id) (keep (λ r. is_live r || b) rs)
IsGone-of_absent id b [] h = tt
IsGone-of_absent id b (r ∷ rs) h =
    Every-keep (IsGone id) (λ q. is_live q || b) (r ∷ rs) (gone r rs h)
  where
    gone :
        (r : LineageRecord) (rs : List LineageRecord)
        → is_member id (ids (r ∷ rs)) ≡ false
        → Every (IsGone id) (r ∷ rs)
    gone r [] h = (ground arith, tt)
    gone r (q ∷ rs) h = (ground arith, gone q rs (ground arith))

retired-IsGone :
    (id : String) (rs : List LineageRecord)
    → HasDistinctNames (ids rs)
    → Every (IsGone id) (keep (λ r. is_live r || false) (retire_first id rs))
unfolding retire_first
retired-IsGone id [] d = tt
retired-IsGone id (r ∷ rs) (n, d) = elim (Bool-cases (has_id id r)) [
  | inl e ↦ rw e (IsGone-of_absent id false rs (rw (sym ((str_eq_iff r.version_id id).0 e)) n))
  | inr e ↦ rw e (elim (Bool-cases (is_live r || false)) [
    | inl k ↦ rw k (e, retired-IsGone id rs d)
    | inr k ↦ rw k (retired-IsGone id rs d)
  ])
]

module _ {ℓ} (P : LineageRecord → Type ℓ) where
  drop-Every : (n : ℕ) (rs : List LineageRecord) → Every P rs → Every P (drop n rs)
  unfolding drop
  drop-Every zero rs h = h
  drop-Every (suc n) [] h = tt
  drop-Every (suc n) (r ∷ rs) (p, h) = drop-Every n rs h

  newest-Every : (m : Option ℕ) (rs : List LineageRecord) → Every P rs → Every P (newest m rs)
  unfolding newest
  newest-Every none rs h = h
  newest-Every (some n) rs h = elim (Bool-cases (ltb n (length rs))) [
    | inl e ↦ rw e (drop-Every (length rs - n) rs h)
    | inr e ↦ rw e h
  ]

  retain-Every :
      (o : Option LineageRecord) (rs : List LineageRecord) → Every P rs → Every P (retain_from o rs)
  retain-Every none rs h = h
  retain-Every (some c) rs h = Every-keep P (λ r. leb c.order r.order) rs h

distinct_ids : (rs : List LineageRecord) → IsInOrder rs → HasDistinctNames (ids rs)
unfolding IsInOrder
distinct_ids rs (p, d, a) = d

-- In a ledger that passes the integrity check, whose policy does not keep retired data, retiring a
-- version says whether it was there, the ledger passes the check again, and no record of this
-- version is live.
pub retire_version-IsGone :
    (id : String) (store : LineageStore)
    → validate_integrity store ≡ ok
    → store.policy.allow_retired_data ≡ false
    → ((retire_version id store).1 ≡ is_member id (ids store.records))
      × (validate_integrity (retire_version id store).0 ≡ ok)
      × Every (IsGone id) (live_records (retire_version id store).0)
unfolding retire_version live_records
retire_version-IsGone id store valid policy =
    let (v, order) = (validate_integrity-ok_iff store).0 valid in
    let next = record store { records = retire_first id store.records } in
    (
      any-map (λ q. q.version_id) id store.records,
      (validate_integrity-ok_iff next).1 (v, retire_first-IsInOrder id store.records order),
      newest-Every (IsGone id) _ _ (
          retain-Every (IsGone id) (cutoff_of next) _
            (rw policy (retired-IsGone id store.records (distinct_ids store.records order)))),
    )

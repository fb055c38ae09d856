-- ===== src/Lineage.antt =====
-- src/lineage.rs: the ledger of a contract's versions. `storage_schema` and `metadata` of a record
-- are left out: no operation here reads them, and a record is moved as a whole. Reading the ledger
-- from a file and writing it are not modelled.
pub mod Integrity
pub mod Recorded
pub mod Retired
pub mod Newest
pub mod Tests
use soroban_upgrade_safeguar.Base.{
  ℕ, zero, suc, ◌+◌, ◌-◌, ◌^◌, String, Option, none, some, List, [], ◌∷◌, ◌++◌, Bool, true, false,
  not, ◌&&◌, ◌||◌, ◌==◌, leb, ltb, any, all, keep, find, length, format, decimal, codes, is_member,
  str_eq, if◌then◌else◌,
}

-- `u32` and `u64` are numbers; the one sum on them saturates.
abbrev pub current_schema_version : ℕ
current_schema_version = 1

pub data LiveStatus : Type 0 where
  live retired : LiveStatus

pub record LiveVersionPolicy : Type 0 where
  pub max_live_versions : Option ℕ
  pub retire_before_version : Option String
  pub allow_retired_data : Bool

pub record LineageRecord : Type 0 where
  pub version_id : String
  pub order : ℕ
  pub created_at : String
  pub status : LiveStatus
  pub wasm_hash : String
  pub interface_hash : String
  pub spec_json : Option String

pub record LineageStore : Type 0 where
  pub schema_version : ℕ
  pub contract_id : Option String
  pub contract_name : Option String
  pub records : List LineageRecord
  pub policy : LiveVersionPolicy

-- `Result<()>`
pub data Outcome : Type 0 where
  ok : Outcome
  err : String → Outcome

-- The characters that `trim` takes away.
abbrev pub is_white_space : ℕ → Bool
is_white_space c =
    leb 9 c && leb c 13
    || (c == 32
        || (c == 133
            || (c == 160
                || (c == 5760
                    || (leb 8192 c && leb c 8202
                        || (c == 8232
                            || (c == 8233 || (c == 8239 || (c == 8287 || c == 12288)))))))))

-- `s.trim().is_empty()`
unfoldable pub is_blank : String → Bool
is_blank s = all is_white_space (codes s)

abbrev pub has_id : String → LineageRecord → Bool
has_id id r = str_eq r.version_id id

-- What the loop of `validate_integrity` has seen.
pub record Scan : Type 0 where
  pub seen_ids : List String
  pub seen_orders : List ℕ
  pub last_order : ℕ

abbrev pub is_order_seen : ℕ → List ℕ → Bool
is_order_seen n orders = any (λ m. m == n) orders

abbrev pub after_record : LineageRecord → Scan → Scan
after_record r s = record {
  seen_ids = r.version_id ∷ s.seen_ids;
  seen_orders = r.order ∷ s.seen_orders;
  last_order = r.order;
}

-- The loop over the records, from this index on.
unfoldable pub check_records : ℕ → List LineageRecord → Scan → Outcome
check_records index [] s = ok
check_records index (r ∷ rs) s =
    let rest = check_records (suc index) rs (after_record r s) in
    if is_blank r.version_id
    then err (format ("Lineage record at index " ∷ decimal index ∷ " has empty version_id" ∷ []))
    else if is_member r.version_id s.seen_ids
    then err (format ("Duplicate version_id '" ∷ r.version_id ∷ "' in lineage store" ∷ []))
    else if r.order == 0
    then err (
        format
          ("Lineage record '" ∷ r.version_id ∷ "' has invalid order 0 (order must be >= 1)" ∷ []))
    else if is_order_seen r.order s.seen_orders
    then err (
        format (
          "Duplicate order "
          ∷ decimal r.order
          ∷ " for version_id '"
          ∷ r.version_id
          ∷ "' in lineage store"
          ∷ []))
    else if leb r.order s.last_order
    then err (
        format (
          "Lineage record order skew: version_id '"
          ∷ r.version_id
          ∷ "' has order "
          ∷ decimal r.order
          ∷ ", which is not strictly greater than previous order "
          ∷ decimal s.last_order
          ∷ []))
    else if is_blank r.wasm_hash
    then err (format ("Lineage record '" ∷ r.version_id ∷ "' has empty wasm_hash" ∷ []))
    else rest

abbrev pub empty_scan : Scan
empty_scan = record { seen_ids = []; seen_orders = []; last_order = 0 }

unfoldable pub validate_integrity : LineageStore → Outcome
unfolding check_records
validate_integrity store =
    if not (store.schema_version == current_schema_version)
    then err (
        format (
          "Unsupported lineage store schema version "
          ∷ decimal store.schema_version
          ∷ " (expected "
          ∷ decimal current_schema_version
          ∷ ")"
          ∷ []))
    else check_records 0 store.records empty_scan

abbrev pub is_live : LineageRecord → Bool
is_live r = elim r.status [ live ↦ true | retired ↦ false ]

-- `live.retain(…)`, where the policy names a cutoff that is in the ledger.
abbrev pub retain_from : Option LineageRecord → List LineageRecord → List LineageRecord
retain_from none rs = rs
retain_from (some cutoff) rs = keep (λ r. leb cutoff.order r.order) rs

abbrev pub cutoff_of : LineageStore → Option LineageRecord
cutoff_of store = elim store.policy.retire_before_version [
  | none ↦ none
  | some tag ↦ find (has_id tag) store.records
]

-- `&live[start_idx..]`
unfoldable pub drop {ℓ} : {A : Type ℓ} → ℕ → List A → List A
drop zero xs = xs
drop (suc n) [] = []
drop (suc n) (x ∷ xs) = drop n xs

-- The newest records, as many as the policy allows.
unfoldable pub newest : Option ℕ → List LineageRecord → List LineageRecord
unfolding drop
newest none rs = rs
newest (some max_count) rs =
    if ltb max_count (length rs) then drop (length rs - max_count) rs else rs

unfoldable pub live_records : LineageStore → List LineageRecord
unfolding newest
live_records store = newest store.policy.max_live_versions (
    retain_from (cutoff_of store)
      (keep (λ r. is_live r || store.policy.allow_retired_data) store.records))

-- The record at the first position with this id, replaced.
unfoldable pub replace : LineageRecord → List LineageRecord → List LineageRecord
replace record_ [] = []
replace record_ (r ∷ rs) =
    let rest = replace record_ rs in if has_id record_.version_id r then record_ ∷ rs else r ∷ rest

-- `max().unwrap_or(0)`
unfoldable pub max_order : List LineageRecord → ℕ
max_order [] = 0
max_order (r ∷ rs) = let rest = max_order rs in if leb rest r.order then r.order else rest

abbrev pub u64_max : ℕ
u64_max = 18446744073709551615

unfoldable pub next_order : List LineageRecord → ℕ
unfolding max_order
next_order rs = if ltb (max_order rs) u64_max then max_order rs + 1 else u64_max

abbrev pub with_order : List LineageRecord → LineageRecord → LineageRecord
with_order rs r = if r.order == 0 then record r { order = next_order rs } else r

abbrev pub updated : List LineageRecord → LineageRecord → List LineageRecord
updated rs r = if any (has_id r.version_id) rs then replace r rs else rs ++ with_order rs r ∷ []

-- The ledger afterwards, which holds the record also where its validation fails.
unfoldable pub record_version : LineageRecord → LineageStore → LineageStore × Outcome
unfolding validate_integrity replace next_order
record_version r store =
    let next = record store { records = updated store.records r } in
    if is_blank r.version_id
    then (store, err "Cannot record version with empty version_id")
    else (next, validate_integrity next)

-- The first record with this id, retired.
unfoldable pub retire_first : String → List LineageRecord → List LineageRecord
retire_first id [] = []
retire_first id (r ∷ rs) =
    let rest = retire_first id rs in
    if has_id id r then record r { status = retired } ∷ rs else r ∷ rest

-- The ledger afterwards, and whether there was a record.
unfoldable pub retire_version : String → LineageStore → LineageStore × Bool
unfolding retire_first
retire_version id store =
    (record store { records = retire_first id store.records }, any (has_id id) store.records)

-- ===== src/Lineage/Tests.antt =====
-- Tests of the ledger.
use soroban_upgrade_safeguar.Base.{
  ◌≡◌, ◌↔◌, refl, String, none, some, List, [], ◌∷◌, ◌++◌, false, Every, is_member, map_list,
  str_eq, arith, length,
}
use soroban_upgrade_safeguar.Lineage.{
  LineageRecord, LineageStore, live, ok, is_blank, max_order, validate_integrity, record_version,
  retire_version, live_records,
}
use soroban_upgrade_safeguar.Lineage.Integrity.{ids, IsNamed, IsInOrder, validate_integrity-ok_iff}
use soroban_upgrade_safeguar.Lineage.Recorded.{placed, record_version-new}
use soroban_upgrade_safeguar.Lineage.Newest.{admitted, IsOlder, kept_count, live_records-IsOlder}
use soroban_upgrade_safeguar.Lineage.Retired.{IsGone, retire_version-IsGone}

abbrev version : String → LineageRecord
version id = record {
  version_id = id;
  order = 0;
  created_at = "2025-01-01";
  status = live;
  wasm_hash = "ab12";
  interface_hash = "cd34";
  spec_json = none;
}

abbrev ledger : LineageStore
ledger = record {
  schema_version = 1;
  contract_id = none;
  contract_name = some "token";
  records = placed 1 (version "v1") ∷ placed 2 (version "v2") ∷ [];
  policy = record {
    max_live_versions = some 1;
    retire_before_version = none;
    allow_retired_data = false;
  };
}

-- Of the two live versions the policy keeps the newest.
live_test : map_list (λ r. r.version_id) (live_records ledger) ≡ "v2" ∷ []
unfolding live_records
live_test = refl

-- A blank id is refused, and the ledger stays as it was.
blank_test : (record_version (version " ") ledger).0 ≡ ledger
unfolding record_version is_blank
blank_test = refl

validate_integrity-ok_iff_example :
    (validate_integrity ledger ≡ ok) ↔ ((ledger.schema_version ≡ 1) × IsInOrder ledger.records)
validate_integrity-ok_iff_example = validate_integrity-ok_iff ledger

ledger_valid : validate_integrity ledger ≡ ok
unfolding validate_integrity is_blank str_eq
ledger_valid = refl

v3-IsNamed : IsNamed (version "v3")
unfolding is_blank
v3-IsNamed = (refl, refl)

record_version-new_example :
    record_version (version "v3") ledger
    ≡ (record ledger { records = ledger.records ++ placed 3 (version "v3") ∷ [] }, ok)
unfolding str_eq max_order
record_version-new_example =
    record_version-new ledger (version "v3") ledger_valid v3-IsNamed refl refl (omega arith)

retire_version-IsGone_example :
    ((retire_version "v2" ledger).1 ≡ is_member "v2" (ids ledger.records))
    × (validate_integrity (retire_version "v2" ledger).0 ≡ ok)
    × Every (IsGone "v2") (live_records (retire_version "v2" ledger).0)
retire_version-IsGone_example = retire_version-IsGone "v2" ledger ledger_valid refl

live_records-IsOlder_example :
    (older : List LineageRecord) × (admitted ledger ≡ older ++ live_records ledger)
    × IsOlder older (live_records ledger)
    × (length (live_records ledger)
        ≡ kept_count ledger.policy.max_live_versions (length (admitted ledger)))
live_records-IsOlder_example = live_records-IsOlder ledger ledger_valid

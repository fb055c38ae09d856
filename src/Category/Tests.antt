-- ===== src/Category/Tests.antt =====
-- Tests of the names of categories.
use soroban_upgrade_safeguar.Base.{◌≡◌, some}
use soroban_upgrade_safeguar.Category.{map_key_type_changed, as_str, find_by_name}
use soroban_upgrade_safeguar.Category.Laws.{find_by_name-as_str}

find_by_name-as_str_example : find_by_name (as_str map_key_type_changed) ≡ some map_key_type_changed
find_by_name-as_str_example = find_by_name-as_str map_key_type_changed

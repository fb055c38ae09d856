-- ===== src/Category/Laws.antt =====
-- The names of src/category.rs identify their categories.
use soroban_upgrade_safeguar.Base.{◌≡◌, refl, some, str_eq}
use soroban_upgrade_safeguar.Category.{FindingCategory, environment, as_str, find_by_name}

-- Looking up the name of a category gives the category back.
pub find_by_name-as_str : (c : FindingCategory) → find_by_name (as_str c) ≡ some c
unfolding find_by_name as_str str_eq
find_by_name-as_str environment = refl
find_by_name-as_str _ = refl

pub as_str-injective : (c d : FindingCategory) → as_str c ≡ as_str d → c ≡ d
as_str-injective c d h = cc (find_by_name-as_str c, find_by_name-as_str d, h)

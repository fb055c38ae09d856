-- ===== src/Suppression/RuleIds.antt =====
-- `canonical_rule_id` and `is_known_rule_id` of src/suppression.rs: the rule id of a category.
use Prim.Native.Char.{Char, code, nul}
use soroban_upgrade_safeguar.Base.{
  ℕ, zero, suc, ◌-◌, String, List, [], ◌∷◌, Bool, true, false, not, ◌&&◌, ◌||◌, leb, ◌==◌, any,
  keep, join, str_eq, if◌then◌else◌, ◌≡◌, refl,
}
use soroban_upgrade_safeguar.Category.{as_str, categories}

abbrev pub nth_char : String → ℕ → Char
nth_char String.[] n = nul
nth_char (String.◌∷◌ c s) zero = c
nth_char (String.◌∷◌ c s) (suc n) = nth_char s n

abbrev pub is_upper : ℕ → Bool
is_upper c = leb b'A' c && leb c b'Z'

abbrev pub is_lower_or_digit : ℕ → Bool
is_lower_or_digit c = leb b'a' c && leb c b'z' || leb b'0' c && leb c b'9'

-- `to_ascii_lowercase` of an alphanumeric character, an underscore for any other.
unfoldable pub canonical_char : Char → Char
canonical_char c =
    if is_upper (code c)
    then nth_char "abcdefghijklmnopqrstuvwxyz" (code c - b'A')
    else if is_lower_or_digit (code c)
    then c
    else "_"

unfoldable pub canonical_chars : String → String
unfolding canonical_char
canonical_chars String.[] = ""
canonical_chars (String.◌∷◌ c s) = String.◌∷◌ (canonical_char c) (canonical_chars s)

abbrev pub push_char : Char → List String → List String
push_char c [] = String.◌∷◌ c "" ∷ []
push_char c (p ∷ ps) = String.◌∷◌ c p ∷ ps

-- `split('_')`
unfoldable pub split_underscores : String → List String
split_underscores String.[] = "" ∷ []
split_underscores (String.◌∷◌ c s) =
    let rest = split_underscores s in if code c == b'_' then "" ∷ rest else push_char c rest

abbrev pub is_empty : String → Bool
is_empty String.[] = true
is_empty (String.◌∷◌ c s) = false

unfoldable pub canonical_rule_id : String → String
unfolding canonical_chars split_underscores join
canonical_rule_id category =
    join "_" (keep (λ part. not (is_empty part)) (split_underscores (canonical_chars category)))

unfoldable pub is_known_rule_id : String → Bool
unfolding categories
is_known_rule_id rule_id = any (λ c. str_eq (canonical_rule_id (as_str c)) rule_id) categories

canonical_rule_id_test : canonical_rule_id "WASM  Proposal-Added " ≡ "wasm_proposal_added"
unfolding canonical_rule_id
canonical_rule_id_test = refl

is_known_rule_id_test : is_known_rule_id "map_value_type_changed" ≡ true
unfolding is_known_rule_id canonical_rule_id as_str str_eq
is_known_rule_id_test = refl

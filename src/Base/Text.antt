-- ===== src/Base/Text.antt =====
-- Texts: `format!`, the decimal form of a number, `join`, and tests on the characters.
use Prim.Native.Nat.{ℕ, zero, suc, ◌+◌, ◌/◌, ◌%◌, ◌<◌}
use Prim.Native.Char.{code}
use Prim.Native.String
use Prim.Native.String.{String}
use mathlib.Core.Bool.{Bool, true, false, ◌&&◌, ◌||◌}
use mathlib.Core.Path.{◌≡◌, refl}
use mathlib.Core.Logic.{dite}
use mathlib.Core.List.{List, [], ◌∷◌}
use mathlib.Core.WellFounded.{Acc}
use native.Mathlib.Decide.{dec_lt}
use native.Mathlib.Omega.{arith}
use soroban_upgrade_safeguar.Base.Tests.{leb, ◌==◌, if◌then◌else◌}

-- `format!`: the literal parts and the arguments, one after another.
unfoldable pub format : List String → String
format [] = ""
format (s ∷ parts) = String.◌++◌ s (format parts)

-- `parts.join(sep)`
unfoldable pub join : String → List String → String
join sep [] = ""
join sep (s ∷ []) = s
join sep (s ∷ t ∷ parts) = String.◌++◌ s (String.◌++◌ sep (join sep (t ∷ parts)))

digit : ℕ → String
digit zero = "0"
digit (suc zero) = "1"
digit (suc (suc zero)) = "2"
digit (suc (suc (suc zero))) = "3"
digit (suc (suc (suc (suc zero)))) = "4"
digit (suc (suc (suc (suc (suc zero))))) = "5"
digit (suc (suc (suc (suc (suc (suc zero)))))) = "6"
digit (suc (suc (suc (suc (suc (suc (suc zero))))))) = "7"
digit (suc (suc (suc (suc (suc (suc (suc (suc zero)))))))) = "8"
digit _ = "9"

Acc-below : (k n : ℕ) → n < k → Acc ◌<◌ n
Acc-below zero n h = elim h [ ]
Acc-below (suc k) n h = Acc.intro n (λ m hm. Acc-below k m (omega arith))

decimal_acc : (n : ℕ) → Acc ◌<◌ n → String
unfolding digit
decimal_acc n (Acc.intro _ smaller) =
    dite (dec_lt 9 n)
      (λ h. String.◌++◌ (decimal_acc (n / 10) (smaller (n / 10) (omega arith))) (digit (n % 10)))
      (λ _. digit n)

-- `n.to_string()` of an unsigned number.
unfoldable pub decimal : ℕ → String
unfolding decimal_acc Acc-below dec_lt
decimal n = decimal_acc n (Acc-below (suc n) n (omega arith))

abbrev pub codes : String → List ℕ
codes String.[] = []
codes (String.◌∷◌ c s) = code c ∷ codes s

abbrev pub lower_ascii : ℕ → ℕ
lower_ascii c = if leb b'A' c && leb c b'Z' then c + 32 else c

abbrev pub is_prefix : List ℕ → List ℕ → Bool
is_prefix [] s = true
is_prefix (p ∷ ps) [] = false
is_prefix (p ∷ ps) (c ∷ s) = p == c && is_prefix ps s

abbrev pub has_infix : List ℕ → List ℕ → Bool
has_infix p [] = is_prefix p []
has_infix p (c ∷ s) = is_prefix p (c ∷ s) || has_infix p s

-- `haystack.contains(needle)`
unfoldable pub contains_text : String → String → Bool
contains_text haystack needle = has_infix (codes needle) (codes haystack)

abbrev pub lower_codes : List ℕ → List ℕ
lower_codes [] = []
lower_codes (c ∷ s) = lower_ascii c ∷ lower_codes s

-- `name.to_lowercase().contains(needle)`, for a needle whose letters no other letter becomes.
unfoldable pub contains_lower : String → String → Bool
contains_lower haystack needle = has_infix (codes needle) (lower_codes (codes haystack))

digits_test : decimal 40712 ≡ "40712"
unfolding decimal
digits_test = refl

contains_test : contains_lower "MyEVENTs" "event" ≡ true
unfolding contains_lower
contains_test = refl

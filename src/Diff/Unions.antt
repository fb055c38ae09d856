-- ===== src/Diff/Unions.antt =====
-- src/diff.rs: `compare_unions` and `check_union_cases`.
pub mod Silence
use soroban_upgrade_safeguar.Base.{
  ℕ, zero, suc, String, List, [], ◌∷◌, ◌++◌, Bool, true, false, not, ◌&&◌, Option, none, some, any,
  length, for_each, format, join, decimal, ◌==◌, ltb, str_eq, if◌then◌else◌, push_if, unwrap_or,
  or_else,
}
use soroban_upgrade_safeguar.Category.{
  critical, info, union_removed, union_added, union_case_removed, union_case_reordered,
  union_case_type_changed, union_case_added, bytesn_size_changed,
}
use soroban_upgrade_safeguar.Spec.{
  TypeDef, TypeDefs, nil, cons, types_len, types_equal, all_types_equal, UnionCase, void_v0,
  tuple_v0, UdtUnion, ContractSpec, get, contains_key,
}
use soroban_upgrade_safeguar.Mapper.{type_to_string, types_to_strings}
use soroban_upgrade_safeguar.Diff.{Finding, direct}
use soroban_upgrade_safeguar.Diff.Detail.{describe_nested_type_change, describe_bytesn_size_change}

unfoldable pub union_case_name : UnionCase → String
union_case_name (void_v0 doc name) = name
union_case_name (tuple_v0 doc name ts) = name

unfoldable pub union_case_type_signature : UnionCase → String
unfolding format join
union_case_type_signature (void_v0 doc name) = "void"
union_case_type_signature (tuple_v0 doc name ts) =
    format ("(" ∷ join ", " (types_to_strings ts) ∷ ")" ∷ [])

-- Two payloads are equal if they have one length and the same types in each place.
unfoldable pub union_cases_equal : UnionCase → UnionCase → Bool
union_cases_equal (void_v0 d m) (void_v0 e n) = true
union_cases_equal (tuple_v0 d m xs) (tuple_v0 e n ys) = all_types_equal xs ys
union_cases_equal _ _ = false

-- The loop over the payloads: the first place where they differ.
payload_type_change : ℕ → TypeDefs → TypeDefs → Option String
payload_type_change i (cons a xs) (cons b ys) =
    let later = payload_type_change (suc i) xs ys in
    if types_equal a b
    then later
    else or_else (describe_nested_type_change a b) (
        format (
          "payload type at index "
          ∷ decimal i
          ∷ " changed from `"
          ∷ type_to_string a
          ∷ "` to `"
          ∷ type_to_string b
          ∷ "`"
          ∷ []))
payload_type_change i _ _ = none

unfoldable pub describe_union_case_type_change : UnionCase → UnionCase → Option String
unfolding payload_type_change
describe_union_case_type_change (tuple_v0 d m xs) (tuple_v0 e n ys) =
    if types_len xs == types_len ys then payload_type_change 0 xs ys else none
describe_union_case_type_change _ _ = none

-- The loop over the payloads: the first resized `BytesN`.
payload_bytesn_change : ℕ → TypeDefs → TypeDefs → Option String
payload_bytesn_change i (cons a xs) (cons b ys) =
    let later = payload_bytesn_change (suc i) xs ys in
    elim (describe_bytesn_size_change a b) [
      | some msg ↦ some (format (msg ∷ " in payload type at index " ∷ decimal i ∷ []))
      | none ↦ later
    ]
payload_bytesn_change i _ _ = none

unfoldable pub union_case_bytesn_size_change : UnionCase → UnionCase → Option String
unfolding payload_bytesn_change
union_case_bytesn_size_change (tuple_v0 d m xs) (tuple_v0 e n ys) =
    if types_len xs == types_len ys then payload_bytesn_change 0 xs ys else none
union_case_bytesn_size_change _ _ = none

abbrev case_member : String → String → Option String
case_member name case = some (format (name ∷ "." ∷ case ∷ []))

unfoldable pub removed_case : String → List UnionCase → UnionCase → List Finding
unfolding format
removed_case name new_cases o =
    push_if (not (any (λ c. str_eq (union_case_name c) (union_case_name o)) new_cases)) (
      direct union_case_removed critical
        (format (
          "Union '"
          ∷ name
          ∷ "': case '"
          ∷ union_case_name o
          ∷ "' was removed. Backwards compatibility is broken."
          ∷ []))
        (some name) (case_member name (union_case_name o)))

abbrev pub case_change_finding : String → ℕ → UnionCase → UnionCase → Finding
case_change_finding name i o n = elim (union_case_bytesn_size_change o n) [
  | some detail ↦
      direct bytesn_size_changed critical
        (format (
          "Union '"
          ∷ name
          ∷ "': case '"
          ∷ union_case_name o
          ∷ "' (position "
          ∷ decimal i
          ∷ ") "
          ∷ detail
          ∷ "."
          ∷ []))
        (some name) (case_member name (union_case_name o))
  | none ↦
      direct union_case_type_changed critical
        (format (
          "Union '"
          ∷ name
          ∷ "': case '"
          ∷ union_case_name o
          ∷ "' (position "
          ∷ decimal i
          ∷ ") "
          ∷ unwrap_or (describe_union_case_type_change o n) (
              format (
                "type changed from `"
                ∷ union_case_type_signature o
                ∷ "` to `"
                ∷ union_case_type_signature n
                ∷ "`"
                ∷ []))
          ∷ "."
          ∷ []))
        (some name) (case_member name (union_case_name o))
]

unfoldable pub aligned_case : String → ℕ → UnionCase → UnionCase → List Finding
unfolding union_cases_equal format
aligned_case name i o n =
    push_if (not (str_eq (union_case_name o) (union_case_name n))) (
      direct union_case_reordered critical
        (format (
          "Union '"
          ∷ name
          ∷ "': case at position "
          ∷ decimal i
          ∷ " changed from '"
          ∷ union_case_name o
          ∷ "' to '"
          ∷ union_case_name n
          ∷ "'. Positional discriminant breaks layout compatibility."
          ∷ []))
        (some name) (case_member name (union_case_name o)))
    ++ push_if (not (union_cases_equal o n)) (case_change_finding name i o n)

-- The loop over the cases by position.
unfoldable pub aligned_cases : String → ℕ → List UnionCase → List UnionCase → List Finding
unfolding aligned_case
aligned_cases name i (o ∷ olds) (n ∷ news) =
    aligned_case name i o n ++ aligned_cases name (suc i) olds news
aligned_cases name i _ _ = []

-- `new_cases[old_cases.len()..]`, where there are more new cases, and nothing where there are not.
unfoldable pub beyond : List UnionCase → List UnionCase → List UnionCase
beyond [] news = news
beyond (o ∷ olds) [] = []
beyond (o ∷ olds) (n ∷ news) = beyond olds news

unfoldable pub added_case : String → UnionCase → List Finding
unfolding format
added_case name n =
    direct union_case_added info
      (format (
        "Union '"
        ∷ name
        ∷ "': new case '"
        ∷ union_case_name n
        ∷ "' ("
        ∷ union_case_type_signature n
        ∷ ") added."
        ∷ []))
      (some name) (case_member name (union_case_name n))
    ∷ []

unfoldable pub check_union_cases : String → UdtUnion → UdtUnion → List Finding
unfolding removed_case aligned_cases beyond added_case
check_union_cases name old_union new_union =
    for_each (removed_case name new_union.cases) old_union.cases
    ++ (aligned_cases name 0 old_union.cases new_union.cases
        ++ for_each (added_case name) (beyond old_union.cases new_union.cases))

abbrev union_removed_finding : String → Finding
union_removed_finding name =
    direct union_removed critical
      (format ("Union '" ∷ name ∷ "' was removed. Data using this type will be invalid." ∷ []))
      (some name) (some name)

unfoldable pub compare_union : ContractSpec → String × UdtUnion → List Finding
unfolding check_union_cases format
compare_union new (name, old_union) = elim (get name new.unions) [
  | none ↦ union_removed_finding name ∷ []
  | some new_union ↦ check_union_cases name old_union new_union
]

unfoldable pub added_union : ContractSpec → String × UdtUnion → List Finding
unfolding format
added_union old (name, new_union) = push_if (not (contains_key name old.unions)) (
    direct union_added info (format ("New union '" ∷ name ∷ "' added." ∷ [])) (some name)
      (some name))

unfoldable pub compare_unions : ContractSpec → ContractSpec → List Finding
unfolding compare_union added_union
compare_unions old new =
    for_each (compare_union new) old.unions ++ for_each (added_union old) new.unions

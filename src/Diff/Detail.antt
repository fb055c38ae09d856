-- ===== src/Diff/Detail.antt =====
-- src/diff.rs: how a change of a type is described, and the findings about maps.
pub mod Laws
use soroban_upgrade_safeguar.Base.{
  ℕ, suc, zero, String, List, [], ◌∷◌, ◌++◌, Bool, true, false, not, ◌&&◌, ◌||◌, Option, none, some,
  format, decimal, ◌==◌, if◌then◌else◌, unwrap_or, or_else,
}
use soroban_upgrade_safeguar.Category.{
  critical, FindingCategory, map_key_type_changed, map_value_type_changed, bytesn_size_changed,
}
use soroban_upgrade_safeguar.Spec.{
  Primitive, val, bool, void, error, u32, i32, u64, i64, timepoint, duration, u128, i128, u256,
  i256, bytes, string, symbol, address, TypeDef, TypeDefs, primitive, option, result, vec, map,
  tuple, bytes_n, udt, nil, cons, types_len, types_equal,
}
use soroban_upgrade_safeguar.Mapper.{type_to_string}
use soroban_upgrade_safeguar.Diff.{Finding, direct}

abbrev pub changed_from : String → TypeDef → TypeDef → String
changed_from what a b =
    format (what ∷ " changed from `" ∷ type_to_string a ∷ "` to `" ∷ type_to_string b ∷ "`" ∷ [])

unfoldable mutual
  unfolding format

  -- The innermost difference of two types with the same outer shape.
  pub describe_nested_type_change : TypeDef → TypeDef → Option String
  describe_nested_type_change (option a) (option b) =
      let inner = describe_nested_type_change a b in
      if types_equal a b then none else or_else inner (changed_from "the inner type of Option" a b)
  describe_nested_type_change (vec a) (vec b) =
      let inner = describe_nested_type_change a b in
      if types_equal a b then none else or_else inner (changed_from "the element type of Vec" a b)
  describe_nested_type_change (map k v) (map l w) =
      let key = describe_nested_type_change k l in
      let value = describe_nested_type_change v w in
      if types_equal k l && types_equal v w
      then none
      else if not (types_equal k l)
      then or_else key (changed_from "the key type of Map" k l)
      else or_else value (changed_from "the value type of Map" v w)
  describe_nested_type_change (result a e) (result b f) =
      let ok = describe_nested_type_change a b in
      let err = describe_nested_type_change e f in
      if types_equal a b && types_equal e f
      then none
      else if not (types_equal a b)
      then or_else ok (changed_from "the ok type of Result" a b)
      else or_else err (changed_from "the error type of Result" e f)
  describe_nested_type_change (tuple xs) (tuple ys) =
      let inner = describe_tuple_change 0 xs ys in
      if types_equal (tuple xs) (tuple ys)
      then none
      else if types_len xs == types_len ys
      then inner
      else none
  describe_nested_type_change _ _ = none

  -- The loop over the members of two tuples of one length: the first difference.
  pub describe_tuple_change : ℕ → TypeDefs → TypeDefs → Option String
  describe_tuple_change i (cons a xs) (cons b ys) =
      let here = describe_nested_type_change a b in
      let later = describe_tuple_change (suc i) xs ys in
      if types_equal a b
      then later
      else or_else here (
          format (
            "type at index "
            ∷ decimal i
            ∷ " of tuple changed from `"
            ∷ type_to_string a
            ∷ "` to `"
            ∷ type_to_string b
            ∷ "`"
            ∷ []))
  describe_tuple_change i _ _ = none

unfoldable pub describe_bytesn_size_change : TypeDef → TypeDef → Option String
unfolding format
describe_bytesn_size_change (bytes_n m) (bytes_n n) =
    if m == n
    then none
    else some (format ("size of BytesN changed from " ∷ decimal m ∷ " to " ∷ decimal n ∷ []))
describe_bytesn_size_change _ _ = none

unfoldable pub map_key_change_detail : TypeDef → TypeDef → Option String
unfolding format
map_key_change_detail (map k v) (map l w) =
    if types_equal k l
    then none
    else or_else (describe_nested_type_change k l) (changed_from "map key type" k l)
map_key_change_detail _ _ = none

unfoldable pub map_value_change_detail : TypeDef → TypeDef → Option String
unfolding format
map_value_change_detail (map k v) (map l w) =
    if types_equal v w
    then none
    else or_else (describe_nested_type_change v w) (changed_from "map value type" v w)
map_value_change_detail _ _ = none

pub data MapKeyOrderingClass : Type 0 where
  numeric lexicographic address_order bool_order unordered : MapKeyOrderingClass

primitive_order : Primitive → MapKeyOrderingClass
primitive_order val = unordered
primitive_order bool = bool_order
primitive_order void = unordered
primitive_order error = unordered
primitive_order bytes = lexicographic
primitive_order string = lexicographic
primitive_order symbol = lexicographic
primitive_order address = address_order
primitive_order _ = numeric

-- `MapKeyOrderingClass::of`
unfoldable pub ordering_class : TypeDef → MapKeyOrderingClass
unfolding primitive_order
ordering_class (primitive p) = primitive_order p
ordering_class (bytes_n n) = lexicographic
ordering_class _ = unordered

class_equal : MapKeyOrderingClass → MapKeyOrderingClass → Bool
class_equal numeric numeric = true
class_equal lexicographic lexicographic = true
class_equal address_order address_order = true
class_equal bool_order bool_order = true
class_equal unordered unordered = true
class_equal _ _ = false

is_well_ordered : MapKeyOrderingClass → Bool
is_well_ordered unordered = false
is_well_ordered _ = true

class_label : MapKeyOrderingClass → String
class_label numeric = "numeric"
class_label lexicographic = "lexicographic"
class_label address_order = "address"
class_label bool_order = "boolean"
class_label unordered = "unordered/opaque"

unfoldable pub map_key_ordering_change_detail : TypeDef → TypeDef → Option String
unfolding class_equal is_well_ordered class_label ordering_class format
map_key_ordering_change_detail k l =
    let old_class = ordering_class k in
    let new_class = ordering_class l in
    if class_equal old_class new_class
    then none
    else if not (is_well_ordered old_class) || not (is_well_ordered new_class)
    then some (
        format (
          "map key ordering changed from `"
          ∷ type_to_string k
          ∷ "` ("
          ∷ class_label old_class
          ∷ ") to `"
          ∷ type_to_string l
          ∷ "` ("
          ∷ class_label new_class
          ∷ "); one or both key types have unsupported or opaque ordering semantics"
          ∷ []))
    else some (
        format (
          "map key ordering changed from `"
          ∷ type_to_string k
          ∷ "` ("
          ∷ class_label old_class
          ∷ " order) to `"
          ∷ type_to_string l
          ∷ "` ("
          ∷ class_label new_class
          ∷ " order); existing range scans and iterators that assumed "
          ∷ class_label old_class
          ∷ " ordering will produce a different traversal sequence under the new key type"
          ∷ []))

abbrev pub ordering_note : TypeDef → TypeDef → String
ordering_note (map k v) (map l w) = elim (map_key_ordering_change_detail k l) [
  | none ↦ ""
  | some note ↦ format (" Additionally, " ∷ note ∷ [])
]
ordering_note _ _ = ""

abbrev pub key_finding :
    TypeDef
    → TypeDef
    → (target : String) → Option String
    → (context_label : String) → Option String
    → List Finding
key_finding a b target type_name context_label none = []
key_finding a b target type_name context_label (some detail) =
    direct map_key_type_changed critical
      (format (
        context_label
        ∷ ": "
        ∷ detail
        ∷ ". Key-domain changes make existing entries unreachable and may alter canonical ordering semantics."
        ∷ ordering_note a b
        ∷ []))
      type_name (some target)
    ∷ []

abbrev pub value_finding :
    (target : String) → Option String → (context_label : String) → Option String → List Finding
value_finding target type_name context_label none = []
value_finding target type_name context_label (some detail) =
    direct map_value_type_changed critical
      (format (
        context_label ∷ ": " ∷ detail
        ∷ ". Existing entries serialized under the old value type cannot be decoded by the new layout."
        ∷ []))
      type_name (some target)
    ∷ []

-- The caller counts the findings by the length of the list.
unfoldable pub emit_map_specific_findings :
    (old_type new_type : TypeDef) (target : String) (type_name : Option String)
    (context_label : String)
    → List Finding
unfolding map_key_change_detail map_value_change_detail
emit_map_specific_findings a b target type_name context_label =
    key_finding a b target type_name context_label (map_key_change_detail a b)
    ++ value_finding target type_name context_label (map_value_change_detail a b)

-- The finding where no map explains the change: a resized `BytesN`, or the category of the place.
unfoldable pub generic_change :
    (old_type new_type : TypeDef) (place : FindingCategory) (verb target : String)
    (type_name : Option String) (context_label : String)
    → Finding
unfolding format
generic_change a b place verb target type_name context_label =
    elim (describe_bytesn_size_change a b) [
      | some detail ↦
          direct bytesn_size_changed critical (format (context_label ∷ " " ∷ detail ∷ "." ∷ []))
            type_name (some target)
      | none ↦
          direct place critical
            (format (
              context_label
              ∷ " "
              ∷ unwrap_or (describe_nested_type_change a b)
                  (format (verb ∷ " `" ∷ type_to_string a ∷ "` to `" ∷ type_to_string b ∷ "`" ∷ []))
              ∷ "."
              ∷ []))
            type_name (some target)
    ]

abbrev pub or_generic : List Finding → Finding → List Finding
or_generic [] generic = generic ∷ []
or_generic (f ∷ fs) generic = f ∷ fs

-- What a changed type of a parameter, a return value or a field is reported as. The four places
-- differ in the category, the verb, the target and the label.
unfoldable pub type_change_findings :
    (old_type new_type : TypeDef) (place : FindingCategory) (verb target : String)
    (type_name : Option String) (context_label : String)
    → List Finding
unfolding emit_map_specific_findings generic_change
type_change_findings a b place verb target type_name context_label =
    if types_equal a b
    then []
    else or_generic (emit_map_specific_findings a b target type_name context_label)
        (generic_change a b place verb target type_name context_label)

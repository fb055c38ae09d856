-- ===== src/Diff/Axes.antt =====
-- src/diff.rs: `classify_finding_axes` and the search for uses of a type behind it. The visited
-- set keeps the search finite: each round of `expand` visits one more defined type.
pub mod References
pub mod Laws
pub mod Uses
use soroban_upgrade_safeguar.Base.{
  ℕ, zero, suc, ◌+◌, String, List, [], ◌∷◌, ◌++◌, Bool, true, false, ◌&&◌, ◌||◌, Option, none, some,
  any, is_member, length, str_eq, if◌then◌else◌, contains_text,
}
use soroban_upgrade_safeguar.Spec.{
  TypeDef, TypeDefs, primitive, option, result, vec, map, tuple, bytes_n, udt, nil, cons,
  FunctionInput, Function, StructField, UdtStruct, UnionCase, void_v0, tuple_v0, UdtUnion,
  ContractSpec, Dict, get,
}
use soroban_upgrade_safeguar.Diff.{
  CompatibilityAxis, storage_layout, call_abi, event_indexer, source_level, runtime_surface,
  is_event,
}

-- Whether the target was found, and the visited set; `none` means that the rounds ran out.
abbrev pub Found : Type 0
Found = Option (Bool × List String)

abbrev pub and_search : Found → (List String → Found) → Found
and_search none k = none
and_search (some (true, visited)) k = some (true, visited)
and_search (some (false, visited)) k = k visited

module _ (target : String) (expand : String → List String → Found) where
  unfoldable mutual
    pub walk : TypeDef → List String → Found
    walk (udt name) visited =
        if str_eq name target
        then some (true, visited)
        else if is_member name visited
        then some (false, visited)
        else expand name (name ∷ visited)
    walk (option t) visited = walk t visited
    walk (result t e) visited = and_search (walk t visited) (λ v. walk e v)
    walk (vec t) visited = walk t visited
    walk (map k t) visited = and_search (walk k visited) (λ v. walk t v)
    walk (tuple ts) visited = walk_all ts visited
    walk _ visited = some (false, visited)

    pub walk_all : TypeDefs → List String → Found
    walk_all nil visited = some (false, visited)
    walk_all (cons t ts) visited = and_search (walk t visited) (λ v. walk_all ts v)

abbrev pub field_types : List StructField → TypeDefs
field_types [] = nil
field_types (f ∷ fs) = cons f.type_ (field_types fs)

abbrev pub append_types : TypeDefs → TypeDefs → TypeDefs
append_types nil us = us
append_types (cons t ts) us = cons t (append_types ts us)

abbrev pub payload_types : List UnionCase → TypeDefs
payload_types [] = nil
payload_types (void_v0 d n ∷ cs) = payload_types cs
payload_types (tuple_v0 d n ts ∷ cs) = append_types ts (payload_types cs)

abbrev struct_members : Option UdtStruct → TypeDefs
struct_members none = nil
struct_members (some d) = field_types d.fields

abbrev union_members : Option UdtUnion → TypeDefs
union_members none = nil
union_members (some u) = payload_types u.cases

-- The types of the fields of the struct, then of the payloads of the union, of this name.
unfoldable pub members : ContractSpec → String → TypeDefs
unfolding get
members spec name =
    append_types (struct_members (get name spec.structs)) (union_members (get name spec.unions))

module _ (spec : ContractSpec) (target : String) where
  unfoldable pub expand : ℕ → String → List String → Found
  unfolding members walk
  expand zero name visited = none
  expand (suc rounds) name visited = walk_all target (expand rounds) (members spec name) visited

  unfoldable pub search_rounds : ℕ
  search_rounds = suc (length spec.structs + length spec.unions)

  unfoldable pub references_type : TypeDef → Bool
  unfolding walk expand search_rounds
  references_type t = elim (walk target (expand search_rounds) t []) [
    | none ↦ false
    | some (found, visited) ↦ found
  ]

abbrev pub any_type : (TypeDef → Bool) → TypeDefs → Bool
any_type p nil = false
any_type p (cons t ts) = p t || any_type p ts

unfoldable pub is_type_used_in_functions : String → ContractSpec → Bool
unfolding references_type
is_type_used_in_functions name spec =
    any
      (λ f.
        any (λ (i : FunctionInput). references_type spec name i.type_) f.1.inputs
        || any_type (references_type spec name) f.1.outputs)
      spec.functions

abbrev event_uses : {V : Type 0} → String → ContractSpec → Dict V → Bool
event_uses name spec d = any (λ e. is_event e.0 && references_type spec name (udt e.0)) d

unfoldable pub is_type_used_in_events : String → ContractSpec → Bool
unfolding references_type is_event
is_type_used_in_events name spec =
    is_event name || (event_uses name spec spec.structs || event_uses name spec spec.unions)

-- The arms of the `match` on the category, in order.
abbrev environment_arm : List String
environment_arm =
    "Environment" ∷ "Host Import Added" ∷ "Host Import Removed" ∷ "Host Import Signature Changed"
    ∷ "Unknown Host Import" ∷ "Protocol Requirement Raised" ∷ "Protocol Environment Mismatch" ∷ []

abbrev function_arm : List String
function_arm =
    "Function Removed" ∷ "Function Added" ∷ "Function Signature Changed" ∷ "Parameter Reordered"
    ∷ "Parameter Type Changed" ∷ "Return Type Changed" ∷ "Map Key Type Changed"
    ∷ "Map Value Type Changed" ∷ []

abbrev event_arm : List String
event_arm =
    "Event Definition Removed" ∷ "Event Field Removed" ∷ "Event Field Reordered"
    ∷ "Event Field Type Changed" ∷ "Event Enum Removed" ∷ "Event Enum Case Removed"
    ∷ "Event Enum Case Value Changed" ∷ "Event Enum Case Added" ∷ []

abbrev error_arm : List String
error_arm =
    "Error Enum Removed" ∷ "Error Enum Added" ∷ "Error Enum Case Removed"
    ∷ "Error Enum Case Value Changed" ∷ "Error Enum Case Added" ∷ []

abbrev runtime_arm : List String
runtime_arm =
    "Memory Added" ∷ "Memory Removed" ∷ "Memory Limits Changed" ∷ "Table Added" ∷ "Table Removed"
    ∷ "Table Limits Changed" ∷ "Table Element Type Changed" ∷ "Global Added" ∷ "Global Removed"
    ∷ "Global Mutability Changed" ∷ "Global Type Changed" ∷ "Start Function Added"
    ∷ "Start Function Removed" ∷ "Start Function Changed" ∷ "Element Segment Changed"
    ∷ "Data Segment Changed" ∷ "WASM Proposal Added" ∷ "WASM Proposal Removed" ∷ []

abbrev layout_breaks : List String
layout_breaks =
    "Struct Removed" ∷ "Struct Field Removed" ∷ "Struct Field Inserted" ∷ "Struct Field Reordered"
    ∷ "Struct Field Type Changed" ∷ "Enum Removed" ∷ "Enum Case Removed" ∷ "Enum Case Value Changed"
    ∷ "Union Removed" ∷ "Union Case Removed" ∷ "Union Case Reordered" ∷ "Union Case Type Changed"
    ∷ "Cascading Layout Break" ∷ "Type Kind Changed" ∷ "Map Key Type Changed"
    ∷ "Map Value Type Changed" ∷ []

-- `matches!` and the arms: membership among the literals.
unfoldable pub is_one_of : List String → String → Bool
is_one_of names category = is_member category names

-- `if axes.is_empty()`: the storage layout, so that a finding has an axis.
abbrev or_storage : List CompatibilityAxis → List CompatibilityAxis
or_storage [] = storage_layout ∷ []
or_storage (a ∷ axes) = a ∷ axes

abbrev pushed : Bool → CompatibilityAxis → List CompatibilityAxis
pushed true a = a ∷ []
pushed false a = []

-- The default arm, for a finding about a type.
unfoldable pub usage_axes :
    (category type_name : String) → ContractSpec → ContractSpec → List CompatibilityAxis
unfolding is_one_of contains_text
usage_axes category name old new =
    pushed (is_type_used_in_functions name old || is_type_used_in_functions name new) call_abi
    ++ (pushed (is_type_used_in_events name old || is_type_used_in_events name new) event_indexer
        ++ (pushed (is_one_of layout_breaks category) storage_layout
            ++ pushed (contains_text category "Documentation Changed") source_level))

unfoldable pub classify_finding_axes :
    String → Option String → ContractSpec → ContractSpec → List CompatibilityAxis
unfolding is_one_of usage_axes
classify_finding_axes category type_name old new =
    if is_one_of environment_arm category
    then call_abi ∷ []
    else if is_one_of function_arm category
    then call_abi ∷ []
    else if str_eq category "Parameter Renamed"
    then source_level ∷ []
    else if is_one_of event_arm category
    then event_indexer ∷ []
    else if is_one_of error_arm category
    then call_abi ∷ []
    else if is_one_of runtime_arm category
    then runtime_surface ∷ []
    else elim type_name [
      | none ↦ storage_layout ∷ []
      | some name ↦ or_storage (usage_axes category name old new)
    ]

-- ===== src/Spec/Entries.antt =====
-- `ContractSpec::from_entries` of src/spec.rs: the first declaration of a name is kept. The
-- warnings that it prints are left out.
use soroban_upgrade_safeguar.Base.{
  String, ◌≡◌, Option, none, some, List, [], ◌∷◌, arith, str_eq, str_eq_iff, if◌then◌else◌,
}
use soroban_upgrade_safeguar.Spec.{
  Function, UdtStruct, UdtEnum, UdtUnion, UdtErrorEnum, ContractSpec, Dict, get, empty_spec,
}

pub data SpecEntry : Type 0 where
  function_v0 : Function → SpecEntry
  udt_struct_v0 : UdtStruct → SpecEntry
  udt_enum_v0 : UdtEnum → SpecEntry
  udt_union_v0 : UdtUnion → SpecEntry
  udt_error_enum_v0 : UdtErrorEnum → SpecEntry

-- `match map.entry(name)`: an occupied entry is left alone.
insert_vacant : {V : Type 0} → String → V → Dict V → Dict V
insert_vacant k v [] = (k, v) ∷ []
insert_vacant k v ((j, w) ∷ m) = if str_eq j k then (j, w) ∷ m else (j, w) ∷ insert_vacant k v m

-- One round of the loop.
add_entry : ContractSpec → SpecEntry → ContractSpec
unfolding insert_vacant
add_entry s (function_v0 f) = record s { functions = insert_vacant f.name f s.functions }
add_entry s (udt_struct_v0 d) = record s { structs = insert_vacant d.name d s.structs }
add_entry s (udt_enum_v0 e) = record s { enums = insert_vacant e.name e s.enums }
add_entry s (udt_union_v0 u) = record s { unions = insert_vacant u.name u s.unions }
add_entry s (udt_error_enum_v0 e) = record s { error_enums = insert_vacant e.name e s.error_enums }

add_entries : ContractSpec → List SpecEntry → ContractSpec
unfolding add_entry
add_entries s [] = s
add_entries s (e ∷ es) = add_entries (add_entry s e) es

pub from_entries : List SpecEntry → ContractSpec
unfolding add_entries
from_entries es = add_entries empty_spec es

-- No two entries of a dictionary have the same name.
abbrev pub HasDistinctKeys : {V : Type 0} → Dict V → Type 0
HasDistinctKeys [] = Unit
HasDistinctKeys ((k, v) ∷ m) = (get k m ≡ none) × HasDistinctKeys m

pub record IsWellFormed (s : ContractSpec) : Type 0 where
  pub functions_distinct : HasDistinctKeys s.functions
  pub structs_distinct : HasDistinctKeys s.structs
  pub enums_distinct : HasDistinctKeys s.enums
  pub unions_distinct : HasDistinctKeys s.unions
  pub error_enums_distinct : HasDistinctKeys s.error_enums

module _ {V : Type 0} where
  get-insert_vacant :
      (k j : String) (v : V) (m : Dict V)
      → get j (insert_vacant k v m)
        ≡ elim (get j m) [ some w ↦ some w | none ↦ if str_eq k j then some v else none ]
  unfolding insert_vacant get
  get-insert_vacant k j v [] = ground arith
  get-insert_vacant k j v ((i, w) ∷ m) =
      ground (arith, str_eq_iff k j, str_eq_iff i k, str_eq_iff i j, get-insert_vacant k j v m)

  insert_vacant-HasDistinctKeys :
      (k : String) (v : V) (m : Dict V) → HasDistinctKeys m → HasDistinctKeys (insert_vacant k v m)
  unfolding insert_vacant get
  insert_vacant-HasDistinctKeys k v [] h = ground arith
  insert_vacant-HasDistinctKeys k v ((i, w) ∷ m) h = ground (
    arith,
    insert_vacant-HasDistinctKeys k v m h.1,
    get-insert_vacant k i v m,
    str_eq_iff i k,
    str_eq_iff k i,
  )

add_entry-IsWellFormed :
    (s : ContractSpec) (e : SpecEntry) → IsWellFormed s → IsWellFormed (add_entry s e)
unfolding add_entry
add_entry-IsWellFormed s (function_v0 f) w = record {
  functions_distinct = insert_vacant-HasDistinctKeys f.name f s.functions w.functions_distinct;
  structs_distinct = w.structs_distinct;
  enums_distinct = w.enums_distinct;
  unions_distinct = w.unions_distinct;
  error_enums_distinct = w.error_enums_distinct;
}
add_entry-IsWellFormed s (udt_struct_v0 d) w = record {
  functions_distinct = w.functions_distinct;
  structs_distinct = insert_vacant-HasDistinctKeys d.name d s.structs w.structs_distinct;
  enums_distinct = w.enums_distinct;
  unions_distinct = w.unions_distinct;
  error_enums_distinct = w.error_enums_distinct;
}
add_entry-IsWellFormed s (udt_enum_v0 e) w = record {
  functions_distinct = w.functions_distinct;
  structs_distinct = w.structs_distinct;
  enums_distinct = insert_vacant-HasDistinctKeys e.name e s.enums w.enums_distinct;
  unions_distinct = w.unions_distinct;
  error_enums_distinct = w.error_enums_distinct;
}
add_entry-IsWellFormed s (udt_union_v0 u) w = record {
  functions_distinct = w.functions_distinct;
  structs_distinct = w.structs_distinct;
  enums_distinct = w.enums_distinct;
  unions_distinct = insert_vacant-HasDistinctKeys u.name u s.unions w.unions_distinct;
  error_enums_distinct = w.error_enums_distinct;
}
add_entry-IsWellFormed s (udt_error_enum_v0 e) w = record {
  functions_distinct = w.functions_distinct;
  structs_distinct = w.structs_distinct;
  enums_distinct = w.enums_distinct;
  unions_distinct = w.unions_distinct;
  error_enums_distinct =
      insert_vacant-HasDistinctKeys e.name e s.error_enums w.error_enums_distinct;
}

add_entries-IsWellFormed :
    (s : ContractSpec) (es : List SpecEntry) → IsWellFormed s → IsWellFormed (add_entries s es)
unfolding add_entries
add_entries-IsWellFormed s [] w = w
add_entries-IsWellFormed s (e ∷ es) w =
    add_entries-IsWellFormed (add_entry s e) es (add_entry-IsWellFormed s e w)

-- In a spec that is built from entries, each of the five dictionaries holds a name at most once.
pub from_entries-IsWellFormed : (es : List SpecEntry) → IsWellFormed (from_entries es)
unfolding from_entries
from_entries-IsWellFormed es = add_entries-IsWellFormed empty_spec es (omega arith)

-- The first struct entry of this name.
abbrev pub first_struct : String → List SpecEntry → Option UdtStruct
first_struct k [] = none
first_struct k (udt_struct_v0 d ∷ es) =
    let rest = first_struct k es in if str_eq d.name k then some d else rest
first_struct k (_ ∷ es) = first_struct k es

abbrev or_first : {V : Type 0} → Option V → Option V → Option V
or_first (some v) o = some v
or_first none o = o

add_entries-structs :
    (k : String) (s : ContractSpec) (es : List SpecEntry)
    → get k (add_entries s es).structs ≡ or_first (get k s.structs) (first_struct k es)
unfolding add_entries add_entry
add_entries-structs k s [] = ground arith
add_entries-structs k s (udt_struct_v0 d ∷ es) = ground (
  arith,
  add_entries-structs k (add_entry s (udt_struct_v0 d)) es,
  get-insert_vacant d.name k d s.structs,
)
add_entries-structs k s (e ∷ es) = add_entries-structs k (add_entry s e) es

-- The struct that a spec built from entries holds under a name is the first entry of that name.
pub from_entries-first_struct :
    (k : String) (es : List SpecEntry) → get k (from_entries es).structs ≡ first_struct k es
unfolding from_entries get
from_entries-first_struct k es = add_entries-structs k empty_spec es

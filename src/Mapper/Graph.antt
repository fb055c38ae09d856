-- ===== src/Mapper/Graph.antt =====
-- src/mapper.rs: `build_reverse_dependencies`. A `HashSet` is a list without duplicates, in its
-- order of iteration.
pub mod Owners
pub mod Embeds
use Prim.Native.String.{compare}
use Prim.Native.Nat.{Ordering}
use soroban_upgrade_safeguar.Base.{
  String, List, [], ◌∷◌, ◌++◌, Bool, true, false, Option, none, some, is_member, str_eq,
  if◌then◌else◌, map_list,
}
use soroban_upgrade_safeguar.Spec.{
  TypeDef, TypeDefs, primitive, option, result, vec, map, tuple, bytes_n, udt, nil, cons,
  StructField, UdtStruct, UnionCase, void_v0, tuple_v0, UdtUnion, ContractSpec, Dict, get,
}

-- `out.insert(name)` of a set.
unfoldable pub insert_name : String → List String → List String
insert_name n out = if is_member n out then out else n ∷ out

unfoldable mutual
  unfolding insert_name

  pub direct_udt_refs : TypeDef → List String → List String
  direct_udt_refs (option t) out = direct_udt_refs t out
  direct_udt_refs (result t e) out = direct_udt_refs e (direct_udt_refs t out)
  direct_udt_refs (vec t) out = direct_udt_refs t out
  direct_udt_refs (map k v) out = direct_udt_refs v (direct_udt_refs k out)
  direct_udt_refs (tuple ts) out = direct_udt_refs_all ts out
  direct_udt_refs (udt name) out = insert_name name out
  direct_udt_refs _ out = out

  pub direct_udt_refs_all : TypeDefs → List String → List String
  direct_udt_refs_all nil out = out
  direct_udt_refs_all (cons t ts) out = direct_udt_refs_all ts (direct_udt_refs t out)

-- `reverse_deps.entry(dep).or_default().push(name)`
unfoldable pub push_edge : String → String → Dict (List String) → Dict (List String)
push_edge dep name [] = (dep, name ∷ []) ∷ []
push_edge dep name ((k, owners) ∷ m) =
    if str_eq k dep then (k, owners ++ name ∷ []) ∷ m else (k, owners) ∷ push_edge dep name m

unfoldable pub push_edges : String → List String → Dict (List String) → Dict (List String)
unfolding push_edge
push_edges name [] m = m
push_edges name (dep ∷ deps) m = push_edges name deps (push_edge dep name m)

-- The edges of one type that `name` embeds.
unfoldable pub type_edges : String → TypeDef → Dict (List String) → Dict (List String)
unfolding direct_udt_refs push_edges
type_edges name t m = push_edges name (direct_udt_refs t []) m

unfoldable pub field_edges : String → List StructField → Dict (List String) → Dict (List String)
unfolding type_edges
field_edges name [] m = m
field_edges name (f ∷ fs) m = field_edges name fs (type_edges name f.type_ m)

unfoldable pub payload_edges : String → TypeDefs → Dict (List String) → Dict (List String)
unfolding type_edges
payload_edges name nil m = m
payload_edges name (cons t ts) m = payload_edges name ts (type_edges name t m)

unfoldable pub case_edges : String → List UnionCase → Dict (List String) → Dict (List String)
unfolding payload_edges
case_edges name [] m = m
case_edges name (void_v0 d n ∷ cs) m = case_edges name cs m
case_edges name (tuple_v0 d n ts ∷ cs) m = case_edges name cs (payload_edges name ts m)

unfoldable pub struct_edges : Dict UdtStruct → Dict (List String) → Dict (List String)
unfolding field_edges
struct_edges [] m = m
struct_edges ((name, d) ∷ ds) m = struct_edges ds (field_edges name d.fields m)

unfoldable pub union_edges : Dict UdtUnion → Dict (List String) → Dict (List String)
unfolding case_edges
union_edges [] m = m
union_edges ((name, u) ∷ us) m = union_edges us (case_edges name u.cases m)

abbrev pub text_le : String → String → Bool
text_le a b = elim (compare a b) [ Ordering.gt ↦ false | _ ↦ true ]

unfoldable pub insert_sorted : String → List String → List String
insert_sorted a [] = a ∷ []
insert_sorted a (b ∷ bs) = if text_le a b then a ∷ b ∷ bs else b ∷ insert_sorted a bs

-- `deps.sort()`
unfoldable pub sort : List String → List String
unfolding insert_sorted
sort [] = []
sort (a ∷ rest) = insert_sorted a (sort rest)

abbrev pub after : String → List String → List String
after a [] = a ∷ []
after a (b ∷ bs) = if str_eq a b then b ∷ bs else a ∷ b ∷ bs

-- `deps.dedup()`: neighbours that are equal become one.
unfoldable pub dedup : List String → List String
dedup [] = []
dedup (a ∷ rest) = after a (dedup rest)

unfoldable pub build_reverse_dependencies : ContractSpec → Dict (List String)
unfolding struct_edges union_edges sort dedup
build_reverse_dependencies spec =
    map_list (λ e. (e.0, dedup (sort e.1))) (union_edges spec.unions (struct_edges spec.structs []))

-- `reverse_deps.get(name)`, with no dependents where the name is missing.
unfoldable pub dependents : Dict (List String) → String → List String
unfolding get
dependents deps name = elim (get name deps) [ none ↦ [] | some names ↦ names ]

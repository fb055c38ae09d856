-- ===== src/Mapper/Graph/Owners.antt =====
-- Who can be a dependent in the reverse graph of src/mapper.rs.
use soroban_upgrade_safeguar.Base.{
  String, List, [], ◌∷◌, Every, Every-append, map_list, str_eq, Bool-cases, inl, inr,
}
use soroban_upgrade_safeguar.Spec.{
  TypeDef, TypeDefs, nil, cons, StructField, UdtStruct, UnionCase, void_v0, tuple_v0, UdtUnion,
  ContractSpec, Dict, get,
}
use soroban_upgrade_safeguar.Mapper.Graph.{
  direct_udt_refs, push_edge, push_edges, type_edges, field_edges, payload_edges, case_edges,
  struct_edges, union_edges, text_le, insert_sorted, sort, after, dedup, build_reverse_dependencies,
  dependents,
}

module _ (P : String → Type 0) where
  abbrev HasOwners : Dict (List String) → Type 0
  HasOwners m = Every (λ e. Every P e.1) m

  push_edge-HasOwners :
      (dep name : String) (m : Dict (List String))
      → P name
      → HasOwners m
      → HasOwners (push_edge dep name m)
  unfolding push_edge
  push_edge-HasOwners dep name [] p h = ((p, tt), tt)
  push_edge-HasOwners dep name ((k, owners) ∷ m) p h = elim (Bool-cases (str_eq k dep)) [
    | inl e ↦ rw e (Every-append P owners (name ∷ []) h.0 (p, tt), h.1)
    | inr e ↦ rw e (h.0, push_edge-HasOwners dep name m p h.1)
  ]

  push_edges-HasOwners :
      (name : String) (deps : List String) (m : Dict (List String))
      → P name
      → HasOwners m
      → HasOwners (push_edges name deps m)
  unfolding push_edges
  push_edges-HasOwners name [] m p h = h
  push_edges-HasOwners name (dep ∷ deps) m p h =
      push_edges-HasOwners name deps (push_edge dep name m) p (push_edge-HasOwners dep name m p h)

  type_edges-HasOwners :
      (name : String) (t : TypeDef) (m : Dict (List String))
      → P name
      → HasOwners m
      → HasOwners (type_edges name t m)
  unfolding type_edges
  type_edges-HasOwners name t m p h = push_edges-HasOwners name (direct_udt_refs t []) m p h

  field_edges-HasOwners :
      (name : String) (fs : List StructField) (m : Dict (List String))
      → P name
      → HasOwners m
      → HasOwners (field_edges name fs m)
  unfolding field_edges
  field_edges-HasOwners name [] m p h = h
  field_edges-HasOwners name (f ∷ fs) m p h =
      field_edges-HasOwners name fs (type_edges name f.type_ m) p
        (type_edges-HasOwners name f.type_ m p h)

  payload_edges-HasOwners :
      (name : String) (ts : TypeDefs) (m : Dict (List String))
      → P name
      → HasOwners m
      → HasOwners (payload_edges name ts m)
  unfolding payload_edges
  payload_edges-HasOwners name nil m p h = h
  payload_edges-HasOwners name (cons t ts) m p h =
      payload_edges-HasOwners name ts (type_edges name t m) p (type_edges-HasOwners name t m p h)

  case_edges-HasOwners :
      (name : String) (cs : List UnionCase) (m : Dict (List String))
      → P name
      → HasOwners m
      → HasOwners (case_edges name cs m)
  unfolding case_edges
  case_edges-HasOwners name [] m p h = h
  case_edges-HasOwners name (void_v0 d n ∷ cs) m p h = case_edges-HasOwners name cs m p h
  case_edges-HasOwners name (tuple_v0 d n ts ∷ cs) m p h =
      case_edges-HasOwners name cs (payload_edges name ts m) p
        (payload_edges-HasOwners name ts m p h)

  struct_edges-HasOwners :
      (ds : Dict UdtStruct) (m : Dict (List String))
      → Every (λ e. P e.0) ds
      → HasOwners m
      → HasOwners (struct_edges ds m)
  unfolding struct_edges
  struct_edges-HasOwners [] m ps h = h
  struct_edges-HasOwners ((name, d) ∷ ds) m (p, ps) h =
      struct_edges-HasOwners ds (field_edges name d.fields m) ps
        (field_edges-HasOwners name d.fields m p h)

  union_edges-HasOwners :
      (us : Dict UdtUnion) (m : Dict (List String))
      → Every (λ e. P e.0) us
      → HasOwners m
      → HasOwners (union_edges us m)
  unfolding union_edges
  union_edges-HasOwners [] m ps h = h
  union_edges-HasOwners ((name, u) ∷ us) m (p, ps) h =
      union_edges-HasOwners us (case_edges name u.cases m) ps
        (case_edges-HasOwners name u.cases m p h)

  insert_sorted-Every :
      (a : String) (bs : List String) → P a → Every P bs → Every P (insert_sorted a bs)
  unfolding insert_sorted
  insert_sorted-Every a [] p h = (p, tt)
  insert_sorted-Every a (b ∷ bs) p h = elim (Bool-cases (text_le a b)) [
    | inl e ↦ rw e (p, h)
    | inr e ↦ rw e (h.0, insert_sorted-Every a bs p h.1)
  ]

  sort-Every : (bs : List String) → Every P bs → Every P (sort bs)
  unfolding sort
  sort-Every [] h = tt
  sort-Every (b ∷ bs) h = insert_sorted-Every b (sort bs) h.0 (sort-Every bs h.1)

  after-Every : (a : String) (bs : List String) → P a → Every P bs → Every P (after a bs)
  after-Every a [] p h = (p, tt)
  after-Every a (b ∷ bs) p h = elim (Bool-cases (str_eq a b)) [
    | inl e ↦ rw e h
    | inr e ↦ rw e (p, h)
  ]

  dedup-Every : (bs : List String) → Every P bs → Every P (dedup bs)
  unfolding dedup
  dedup-Every [] h = tt
  dedup-Every (b ∷ bs) h = after-Every b (dedup bs) h.0 (dedup-Every bs h.1)

  tidy-HasOwners :
      (m : Dict (List String)) → HasOwners m → HasOwners (map_list (λ e. (e.0, dedup (sort e.1))) m)
  tidy-HasOwners [] h = tt
  tidy-HasOwners ((k, owners) ∷ m) (p, h) =
      (dedup-Every (sort owners) (sort-Every owners p), tidy-HasOwners m h)

  get-HasOwners :
      (m : Dict (List String)) (name : String) → HasOwners m → Every P (dependents m name)
  unfolding dependents get
  get-HasOwners [] name h = tt
  get-HasOwners ((k, owners) ∷ m) name (p, h) = elim (Bool-cases (str_eq k name)) [
    | inl e ↦ rw (e, dependents, get) p
    | inr e ↦ rw (e, dependents, get) (get-HasOwners m name h)
  ]

  -- A dependent of a type is the name of a struct or of a union.
  pub dependents-Every :
      (spec : ContractSpec)
      → Every (λ e. P e.0) spec.structs
      → Every (λ e. P e.0) spec.unions
      → (name : String) → Every P (dependents (build_reverse_dependencies spec) name)
  unfolding build_reverse_dependencies
  dependents-Every spec hs hu name = get-HasOwners (build_reverse_dependencies spec) name (
      tidy-HasOwners _
        (union_edges-HasOwners spec.unions _ hu (struct_edges-HasOwners spec.structs [] hs tt)))

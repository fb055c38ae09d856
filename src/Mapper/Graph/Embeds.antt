-- ===== src/Mapper/Graph/Embeds.antt =====
-- src/mapper.rs: the reverse graph has an edge exactly where a type embeds another.
use soroban_upgrade_safeguar.Base.{
  String, ◌≡◌, refl, ap, ◌∙◌, List, [], ◌∷◌, ◌++◌, Bool, true, false, ◌&&◌, ◌||◌, arith, any,
  is_member, map_list, str_eq, str_eq_iff, if◌then◌else◌, Bool-cases, inl, inr,
}
use soroban_upgrade_safeguar.Spec.{
  TypeDef, TypeDefs, primitive, option, result, vec, map, tuple, bytes_n, udt, nil, cons,
  StructField, UdtStruct, UnionCase, void_v0, tuple_v0, UdtUnion, ContractSpec, Dict, get,
}
use soroban_upgrade_safeguar.Mapper.Graph.{
  insert_name, direct_udt_refs, direct_udt_refs_all, push_edge, push_edges, type_edges, field_edges,
  payload_edges, case_edges, struct_edges, union_edges, insert_sorted, sort, after, dedup,
  build_reverse_dependencies, dependents,
}

-- The name occurs in the type, at any depth.
unfoldable mutual
  pub mentions : String → TypeDef → Bool
  mentions b (udt name) = str_eq name b
  mentions b (option t) = mentions b t
  mentions b (result t e) = mentions b t || mentions b e
  mentions b (vec t) = mentions b t
  mentions b (map k t) = mentions b k || mentions b t
  mentions b (tuple ts) = any_mentions b ts
  mentions b _ = false

  pub any_mentions : String → TypeDefs → Bool
  any_mentions b nil = false
  any_mentions b (cons t ts) = mentions b t || any_mentions b ts

abbrev pub case_mentions : String → UnionCase → Bool
case_mentions b (void_v0 d n) = false
case_mentions b (tuple_v0 d n ts) = any_mentions b ts

-- The struct or union `d` has a field or a payload in which the type `b` occurs.
unfoldable pub embeds : ContractSpec → String → String → Bool
unfolding mentions
embeds spec d b =
    any (λ e. any (λ f. mentions b f.type_) e.1.fields && str_eq e.0 d) spec.structs
    || any (λ e. any (case_mentions b) e.1.cases && str_eq e.0 d) spec.unions

is_member-insert_sorted :
    (n a : String) (bs : List String)
    → is_member n (insert_sorted a bs) ≡ (str_eq a n || is_member n bs)
unfolding insert_sorted
is_member-insert_sorted n a [] = refl
is_member-insert_sorted n a (b ∷ bs) = ground (arith, is_member-insert_sorted n a bs)

pub is_member-sort : (n : String) (bs : List String) → is_member n (sort bs) ≡ is_member n bs
unfolding sort
is_member-sort n [] = refl
is_member-sort n (b ∷ bs) =
    is_member-insert_sorted n b (sort bs) ∙ ap (λ x. str_eq b n || x) (is_member-sort n bs)

is_member-after :
    (n a : String) (bs : List String) → is_member n (after a bs) ≡ (str_eq a n || is_member n bs)
is_member-after n a [] = refl
is_member-after n a (b ∷ bs) = elim (Bool-cases (str_eq a b)) [
  | inl e ↦ rw (e, (str_eq_iff a b).0 e) (ground arith)
  | inr e ↦ rw e refl
]

pub is_member-dedup : (n : String) (bs : List String) → is_member n (dedup bs) ≡ is_member n bs
unfolding dedup
is_member-dedup n [] = refl
is_member-dedup n (b ∷ bs) =
    is_member-after n b (dedup bs) ∙ ap (λ x. str_eq b n || x) (is_member-dedup n bs)

pub is_member-insert_name :
    (b n : String) (out : List String)
    → is_member b (insert_name n out) ≡ (is_member b out || str_eq n b)
unfolding insert_name
is_member-insert_name b n out = elim (Bool-cases (is_member n out)) [
  | inl e ↦ elim (Bool-cases (str_eq n b)) [
    | inl same ↦
        rw (e, (str_eq_iff n b).0 same) (ground (arith, (rw ((str_eq_iff n b).0 same) at e)))
    | inr other ↦ rw e (ground arith)
  ]
  | inr e ↦ rw e (ground arith)
]

-- Two steps that each add a disjunct.
or_chain : {r w : Bool} (x y z : Bool) → r ≡ (w || z) → w ≡ (x || y) → r ≡ (x || (y || z))
or_chain x y z p q = ground arith

-- Two steps that each add edges under the same condition.
and_chain :
    {r w : Bool} (x y z s : Bool)
    → r ≡ (w || (z && s))
    → w ≡ (x || (y && s))
    → r ≡ (x || ((y || z) && s))
and_chain x y z s p q = ground arith

or_false : (x : Bool) → x ≡ (x || false)
or_false x = ground arith

mutual
  unfolding direct_udt_refs mentions

  is_member-direct_udt_refs :
      (b : String) (t : TypeDef) (out : List String)
      → is_member b (direct_udt_refs t out) ≡ (is_member b out || mentions b t)
  is_member-direct_udt_refs b (udt n) out = is_member-insert_name b n out
  is_member-direct_udt_refs b (option t) out = is_member-direct_udt_refs b t out
  is_member-direct_udt_refs b (vec t) out = is_member-direct_udt_refs b t out
  is_member-direct_udt_refs b (result t e) out =
      or_chain (is_member b out) (mentions b t) (mentions b e)
        (is_member-direct_udt_refs b e (direct_udt_refs t out)) (is_member-direct_udt_refs b t out)
  is_member-direct_udt_refs b (map k t) out =
      or_chain (is_member b out) (mentions b k) (mentions b t)
        (is_member-direct_udt_refs b t (direct_udt_refs k out)) (is_member-direct_udt_refs b k out)
  is_member-direct_udt_refs b (tuple ts) out = is_member-direct_udt_refs_all b ts out
  is_member-direct_udt_refs b (primitive p) out = or_false _
  is_member-direct_udt_refs b (bytes_n n) out = or_false _

  is_member-direct_udt_refs_all :
      (b : String) (ts : TypeDefs) (out : List String)
      → is_member b (direct_udt_refs_all ts out) ≡ (is_member b out || any_mentions b ts)
  is_member-direct_udt_refs_all b nil out = or_false _
  is_member-direct_udt_refs_all b (cons t ts) out =
      or_chain (is_member b out) (mentions b t) (any_mentions b ts)
        (is_member-direct_udt_refs_all b ts (direct_udt_refs t out))
        (is_member-direct_udt_refs b t out)

-- The graph has an edge from `b` to its dependent `d`.
abbrev has_edge : (d b : String) → Dict (List String) → Bool
has_edge d b m = is_member d (dependents m b)

is_member_push :
    (d n : String) (owners : List String)
    → is_member d (owners ++ n ∷ []) ≡ (is_member d owners || str_eq n d)
is_member_push d n [] = ground arith
is_member_push d n (o ∷ owners) = ground (arith, is_member_push d n owners)

has_edge-none : (d b : String) → has_edge d b [] ≡ false
unfolding dependents get
has_edge-none d b = refl

has_edge-cons :
    (d b k : String) (owners : List String) (m : Dict (List String))
    → has_edge d b ((k, owners) ∷ m) ≡ (if str_eq k b then is_member d owners else has_edge d b m)
unfolding dependents get
has_edge-cons d b k owners m = elim (Bool-cases (str_eq k b)) [
  | inl e ↦ rw (e, dependents) refl
  | inr e ↦ rw (e, dependents) refl
]

-- An edge is pushed onto the entry of this key.
pushed_entry :
    (d b k name : String) (owners : List String) (m : Dict (List String))
    → has_edge d b ((k, owners ++ name ∷ []) ∷ m)
      ≡ (has_edge d b ((k, owners) ∷ m) || (str_eq k b && str_eq name d))
pushed_entry d b k name owners m =
    rw
      (
        has_edge-cons d b k (owners ++ name ∷ []) m,
        has_edge-cons d b k owners m,
        is_member_push d name owners,
      )
      (ground arith)

other_key : (k b dep : String) → str_eq k dep ≡ false → str_eq k b ≡ true → str_eq dep b ≡ false
other_key k b dep h e = ground (arith, str_eq_iff k b, str_eq_iff dep b, str_eq_iff k dep)

-- An edge is pushed somewhere behind the entry of another key.
passed_entry :
    (k_is_b dep_is_b n x y r : Bool)
    → (k_is_b ≡ true → dep_is_b ≡ false)
    → r ≡ (y || (dep_is_b && n))
    → (if k_is_b then x else r) ≡ ((if k_is_b then x else y) || (dep_is_b && n))
passed_entry k_is_b dep_is_b n x y r other h = ground arith

has_edge-push_edge :
    (d b dep name : String) (m : Dict (List String))
    → has_edge d b (push_edge dep name m) ≡ (has_edge d b m || (str_eq dep b && str_eq name d))
unfolding push_edge
has_edge-push_edge d b dep name [] =
    has_edge-cons d b dep (name ∷ []) [] ∙ rw (has_edge-none d b) (ground arith)
has_edge-push_edge d b dep name ((k, owners) ∷ m) = elim (Bool-cases (str_eq k dep)) [
  | inl e ↦ rw e (rw (← (str_eq_iff k dep).0 e) (pushed_entry d b k name owners m))
  | inr e ↦ rw e (
      rw (has_edge-cons d b k owners (push_edge dep name m), has_edge-cons d b k owners m)
        (passed_entry (str_eq k b) (str_eq dep b) (str_eq name d) (is_member d owners)
          (has_edge d b m) _ (other_key k b dep e) (has_edge-push_edge d b dep name m)))
]

module _ (d b : String) where
  has_edge-push_edges :
      (name : String) (deps : List String) (m : Dict (List String))
      → has_edge d b (push_edges name deps m)
        ≡ (has_edge d b m || (is_member b deps && str_eq name d))
  unfolding push_edges
  has_edge-push_edges name [] m = or_false _
  has_edge-push_edges name (dep ∷ deps) m =
      and_chain (has_edge d b m) (str_eq dep b) (is_member b deps) (str_eq name d)
        (has_edge-push_edges name deps (push_edge dep name m)) (has_edge-push_edge d b dep name m)

  has_edge-type_edges :
      (name : String) (t : TypeDef) (m : Dict (List String))
      → has_edge d b (type_edges name t m) ≡ (has_edge d b m || (mentions b t && str_eq name d))
  unfolding type_edges
  has_edge-type_edges name t m =
      has_edge-push_edges name (direct_udt_refs t []) m
      ∙ ap (λ x. has_edge d b m || (x && str_eq name d)) (is_member-direct_udt_refs b t [])

  has_edge-field_edges :
      (name : String) (fs : List StructField) (m : Dict (List String))
      → has_edge d b (field_edges name fs m)
        ≡ (has_edge d b m || (any (λ f. mentions b f.type_) fs && str_eq name d))
  unfolding field_edges
  has_edge-field_edges name [] m = or_false _
  has_edge-field_edges name (f ∷ fs) m =
      and_chain (has_edge d b m) (mentions b f.type_) (any (λ g. mentions b g.type_) fs)
        (str_eq name d) (has_edge-field_edges name fs (type_edges name f.type_ m))
        (has_edge-type_edges name f.type_ m)

  has_edge-payload_edges :
      (name : String) (ts : TypeDefs) (m : Dict (List String))
      → has_edge d b (payload_edges name ts m)
        ≡ (has_edge d b m || (any_mentions b ts && str_eq name d))
  unfolding payload_edges mentions
  has_edge-payload_edges name nil m = or_false _
  has_edge-payload_edges name (cons t ts) m =
      and_chain (has_edge d b m) (mentions b t) (any_mentions b ts) (str_eq name d)
        (has_edge-payload_edges name ts (type_edges name t m)) (has_edge-type_edges name t m)

  has_edge-case_edges :
      (name : String) (cs : List UnionCase) (m : Dict (List String))
      → has_edge d b (case_edges name cs m)
        ≡ (has_edge d b m || (any (case_mentions b) cs && str_eq name d))
  unfolding case_edges
  has_edge-case_edges name [] m = or_false _
  has_edge-case_edges name (void_v0 doc n ∷ cs) m = has_edge-case_edges name cs m
  has_edge-case_edges name (tuple_v0 doc n ts ∷ cs) m =
      and_chain (has_edge d b m) (any_mentions b ts) (any (case_mentions b) cs) (str_eq name d)
        (has_edge-case_edges name cs (payload_edges name ts m)) (has_edge-payload_edges name ts m)

  has_edge-struct_edges :
      (ds : Dict UdtStruct) (m : Dict (List String))
      → has_edge d b (struct_edges ds m)
        ≡ (has_edge d b m || any (λ e. any (λ f. mentions b f.type_) e.1.fields && str_eq e.0 d) ds)
  unfolding struct_edges
  has_edge-struct_edges [] m = or_false _
  has_edge-struct_edges ((name, s) ∷ ds) m =
      or_chain (has_edge d b m) (any (λ f. mentions b f.type_) s.fields && str_eq name d) _
        (has_edge-struct_edges ds (field_edges name s.fields m))
        (has_edge-field_edges name s.fields m)

  has_edge-union_edges :
      (us : Dict UdtUnion) (m : Dict (List String))
      → has_edge d b (union_edges us m)
        ≡ (has_edge d b m || any (λ e. any (case_mentions b) e.1.cases && str_eq e.0 d) us)
  unfolding union_edges
  has_edge-union_edges [] m = or_false _
  has_edge-union_edges ((name, u) ∷ us) m =
      or_chain (has_edge d b m) (any (case_mentions b) u.cases && str_eq name d) _
        (has_edge-union_edges us (case_edges name u.cases m)) (has_edge-case_edges name u.cases m)

  has_edge_tidy :
      (m : Dict (List String))
      → has_edge d b (map_list (λ e. (e.0, dedup (sort e.1))) m) ≡ has_edge d b m
  has_edge_tidy [] = refl
  has_edge_tidy ((k, owners) ∷ m) =
      rw
        (
          has_edge-cons d b k (dedup (sort owners)) (map_list (λ e. (e.0, dedup (sort e.1))) m),
          has_edge-cons d b k owners m,
          is_member-dedup d (sort owners),
          is_member-sort d owners,
          has_edge_tidy m,
        )
        refl

-- The dependents of a type are the types that embed it.
pub dependents-embeds :
    (spec : ContractSpec) (d b : String)
    → is_member d (dependents (build_reverse_dependencies spec) b) ≡ embeds spec d b
unfolding build_reverse_dependencies embeds dependents get
dependents-embeds spec d b =
    has_edge_tidy d b (union_edges spec.unions (struct_edges spec.structs []))
    ∙ has_edge-union_edges d b spec.unions (struct_edges spec.structs [])
    ∙ ap (λ x. x || any (λ e. any (case_mentions b) e.1.cases && str_eq e.0 d) spec.unions)
        (has_edge-struct_edges d b spec.structs [])

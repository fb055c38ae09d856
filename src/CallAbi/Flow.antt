-- ===== src/CallAbi/Flow.antt =====
-- `check_value_flow` and `check_udt_flow` of src/call_abi.rs. The set of pairs in progress keeps
-- the walk finite: each round of `check_udt` puts one more pair of defined types there. A `HashSet`
-- is a list, and a name holds no character that `{:?}` escapes.
use soroban_upgrade_safeguar.Base.{
  ℕ, zero, suc, ◌+◌, ◌*◌, String, Option, none, some, List, [], ◌∷◌, ◌++◌, Bool, true, false, not,
  ◌&&◌, ◌||◌, ◌==◌, leb, any, all, keep, map_list, length, format, decimal, join, str_eq,
  if◌then◌else◌, is_member,
}
use soroban_upgrade_safeguar.Spec.{
  TypeDef, TypeDefs, primitive, val, option, result, vec, map, tuple, udt, cons, types_len,
  StructField, UdtStruct, EnumCase, UnionCase, void_v0, tuple_v0, ContractSpec, get, types_equal,
}
use soroban_upgrade_safeguar.Mapper.{type_to_string}
use soroban_upgrade_safeguar.Mapper.Graph.{sort, dedup}
use soroban_upgrade_safeguar.Diff.Unions.{union_case_name}
use soroban_upgrade_safeguar.CallAbi.{CallAbiBreak}

-- The breaks that are pushed; `none` means that the rounds ran out.
abbrev pub Flow : Type 0
Flow = Option (List CallAbiBreak)

abbrev pub and_flow : Flow → Flow → Flow
and_flow none g = none
and_flow (some xs) none = none
and_flow (some xs) (some ys) = some (xs ++ ys)

abbrev pub UdtPair : Type 0
UdtPair = String × String

abbrev pub is_visiting : UdtPair → List UdtPair → Bool
is_visiting p visiting = any (λ q. str_eq q.0 p.0 && str_eq q.1 p.1) visiting

-- The walk of a pair of names at a path.
abbrev pub UdtCheck : Type 0
UdtCheck = String → String → String → List UdtPair → Flow

abbrev pub is_val : TypeDef → Bool
is_val (primitive val) = true
is_val _ = false

module _ (function : String) where
  abbrev pub break_at : String → List String → List CallAbiBreak
  break_at path reason = record { function = function; path = path; reason = format reason } ∷ []

  unfoldable pub encodes_decodes : String → TypeDef → TypeDef → List CallAbiBreak
  encodes_decodes path a b = break_at path (
      "the producer encodes `"
      ∷ type_to_string a
      ∷ "` but the consumer decodes `"
      ∷ type_to_string b
      ∷ "`"
      ∷ [])

  unfoldable pub tuple_lengths : String → ℕ → ℕ → List CallAbiBreak
  tuple_lengths path m n = break_at path (
      "the encoded tuple has " ∷ decimal m ∷ " elements but the decoder requires " ∷ decimal n ∷ [])

  abbrev pub index_path : String → ℕ → String
  index_path path index = format (path ∷ "[" ∷ decimal index ∷ "]" ∷ [])

  module _ (check_udt : UdtCheck) where
    unfoldable mutual
      pub check_value_flow : String → TypeDef → TypeDef → List UdtPair → Flow
      check_value_flow path (option a) (option b) v =
          check_value_flow (format (path ∷ ".some" ∷ [])) a b v
      check_value_flow path (vec a) (vec b) v = check_value_flow (format (path ∷ "[*]" ∷ [])) a b v
      check_value_flow path (map k a) (map l b) v =
          and_flow (check_value_flow (format (path ∷ ".key" ∷ [])) k l v)
            (check_value_flow (format (path ∷ ".value" ∷ [])) a b v)
      check_value_flow path (tuple as_) (tuple bs) v =
          let flows = check_value_flows path 0 as_ bs v in
          if types_len as_ == types_len bs
          then flows
          else some (tuple_lengths path (types_len as_) (types_len bs))
      check_value_flow path (result a e) (result b f) v =
          and_flow (check_value_flow (format (path ∷ ".ok" ∷ [])) a b v)
            (check_value_flow (format (path ∷ ".err" ∷ [])) e f v)
      check_value_flow path (udt a) (udt b) v = check_udt a b path v
      check_value_flow path a b v =
          if is_val b || types_equal a b then some [] else some (encodes_decodes path a b)

      -- The loop over the zipped types, which are as many.
      pub check_value_flows : String → ℕ → TypeDefs → TypeDefs → List UdtPair → Flow
      check_value_flows path index (cons a as_) (cons b bs) v =
          and_flow (check_value_flow (index_path path index) a b v)
            (check_value_flows path (suc index) as_ bs v)
      check_value_flows path index _ _ v = some []

-- `if let (Some(a), Some(b)) = (x, y)`
abbrev pub both {ℓ κ} : {A : Type ℓ} {B : Type κ} → Option A → Option B → Option (A × B)
both (some a) (some b) = some (a, b)
both _ _ = none

-- The field of a name in a map of the fields: the last one of this name.
unfoldable pub last_type : String → List StructField → Option TypeDef
last_type n [] = none
last_type n (f ∷ fs) = elim (last_type n fs) [
  | some t ↦ some t
  | none ↦ if str_eq f.name n then some f.type_ else none
]

-- The case of a name in a map of the cases: the last one of this name.
unfoldable pub last_case : String → List UnionCase → Option UnionCase
last_case n [] = none
last_case n (c ∷ cs) = elim (last_case n cs) [
  | some d ↦ some d
  | none ↦ if str_eq (union_case_name c) n then some c else none
]

-- `sorted` of the names of a map.
unfoldable pub field_names : UdtStruct → List String
unfolding sort dedup
field_names d = dedup (sort (map_list (λ f. f.name) d.fields))

abbrev pub same_names : List String → List String → Bool
same_names ms ns = all (λ n. is_member n ns) ms && all (λ m. is_member m ms) ns

-- A list of names as `{:?}` prints it.
unfoldable pub debug_names : List String → String
debug_names ns =
    format ("[" ∷ join ", " (map_list (λ n. format ("\"" ∷ n ∷ "\"" ∷ [])) ns) ∷ "]" ∷ [])

-- `sorted(produced.difference(&accepted))`
unfoldable pub insert_value : ℕ → List ℕ → List ℕ
insert_value n [] = n ∷ []
insert_value n (m ∷ ms) =
    let rest = insert_value n ms in
    if n == m then m ∷ ms else if leb n m then n ∷ m ∷ ms else m ∷ rest

unfoldable pub sort_values : List ℕ → List ℕ
unfolding insert_value
sort_values [] = []
sort_values (n ∷ ns) = insert_value n (sort_values ns)

abbrev pub missing_values : List EnumCase → List EnumCase → List ℕ
missing_values produced accepted =
    sort_values
      (keep (λ v. not (any (λ c. c.value == v) accepted)) (map_list (λ c. c.value) produced))

module _ (function : String) (producer consumer : ContractSpec) where
  -- The loop over the sorted names of the fields.
  unfoldable pub check_fields :
      UdtCheck → String → UdtStruct → UdtStruct → List String → List UdtPair → Flow
  unfolding check_value_flow last_type
  check_fields udt_flow path a b [] v = some []
  check_fields udt_flow path a b (n ∷ ns) v =
      let rest = check_fields udt_flow path a b ns v in
      elim (last_type n a.fields) [
        | none ↦ rest
        | some t ↦ elim (last_type n b.fields) [
          | none ↦ rest
          | some u ↦
              and_flow (check_value_flow function udt_flow (format (path ∷ "." ∷ n ∷ [])) t u v)
                rest
        ]
      ]

  unfoldable pub struct_flow : UdtCheck → String → UdtStruct → UdtStruct → List UdtPair → Flow
  unfolding check_fields field_names
  struct_flow udt_flow path a b v =
      let flows = check_fields udt_flow path a b (field_names a) v in
      if same_names (field_names a) (field_names b)
      then flows
      else some (
          break_at function path (
            "the encoded struct fields "
            ∷ debug_names (field_names a)
            ∷ " do not match required fields "
            ∷ debug_names (field_names b)
            ∷ []))

  -- A break for each value that only the producer has.
  unfoldable pub value_breaks :
      (String → ℕ → List CallAbiBreak) → String → List ℕ → List CallAbiBreak
  value_breaks at path [] = []
  value_breaks at path (n ∷ ns) = at path n ++ value_breaks at path ns

  abbrev pub enum_break : String → ℕ → List CallAbiBreak
  enum_break path n = break_at function (format (path ∷ ".case[" ∷ decimal n ∷ "]" ∷ [])) (
      "the producer may encode enum discriminant "
      ∷ decimal n
      ∷ ", which the consumer does not define"
      ∷ [])

  abbrev pub error_break : String → ℕ → List CallAbiBreak
  error_break path n = break_at function (format (path ∷ ".error[" ∷ decimal n ∷ "]" ∷ [])) (
      "the producer may encode contract error "
      ∷ decimal n
      ∷ ", which the consumer does not define"
      ∷ [])

  abbrev pub case_path : String → String → String
  case_path path name = format (path ∷ ".case." ∷ name ∷ [])

  -- A case of the producer against the consumer's case of its name.
  unfoldable pub case_flow : UdtCheck → String → UnionCase → Option UnionCase → List UdtPair → Flow
  unfolding check_value_flow
  case_flow udt_flow path a none v = some (
      break_at function (case_path path (union_case_name a))
        ("the producer may encode a union case the consumer does not define" ∷ []))
  case_flow udt_flow path (void_v0 d n) (some (void_v0 e m)) v = some []
  case_flow udt_flow path (tuple_v0 d n ts) (some (tuple_v0 e m us)) v =
      if types_len ts == types_len us
      then check_value_flows function udt_flow (case_path path n) 0 ts us v
      else some (
          break_at function (case_path path n)
            ("the union case payload shape differs from the consumer decoder" ∷ []))
  case_flow udt_flow path a (some b) v = some (
      break_at function (case_path path (union_case_name a))
        ("the union case payload shape differs from the consumer decoder" ∷ []))

  unfoldable pub union_flow :
      UdtCheck → String → List UnionCase → List UnionCase → List UdtPair → Flow
  unfolding case_flow last_case
  union_flow udt_flow path [] bs v = some []
  union_flow udt_flow path (a ∷ as_) bs v =
      and_flow (case_flow udt_flow path a (last_case (union_case_name a) bs) v)
        (union_flow udt_flow path as_ bs v)

  abbrev pub different_kinds : String → String → String → List CallAbiBreak
  different_kinds path a b = break_at function path (
      "the producer type `" ∷ a ∷ "` and consumer type `" ∷ b
      ∷ "` are not the same Soroban UDT kind" ∷ [])

  -- The ladder of `if let`s: structs, enums, unions and error enums of both specs.
  unfoldable pub kind_flow : UdtCheck → String → String → String → List UdtPair → Flow
  unfolding struct_flow union_flow value_breaks sort_values
  kind_flow udt_flow a b path v = elim (both (get a producer.structs) (get b consumer.structs)) [
    | some (s, t) ↦ struct_flow udt_flow path s t v
    | none ↦ elim (both (get a producer.enums) (get b consumer.enums)) [
      | some (s, t) ↦ some (value_breaks enum_break path (missing_values s.cases t.cases))
      | none ↦ elim (both (get a producer.unions) (get b consumer.unions)) [
        | some (s, t) ↦ union_flow udt_flow path s.cases t.cases v
        | none ↦ elim (both (get a producer.error_enums) (get b consumer.error_enums)) [
          | some (s, t) ↦ some (value_breaks error_break path (missing_values s.cases t.cases))
          | none ↦ some (different_kinds path a b)
        ]
      ]
    ]
  ]

  -- `check_udt_flow`; the pair is taken out of the set again at its end.
  unfoldable pub check_udt_flow : ℕ → String → String → String → List UdtPair → Flow
  unfolding kind_flow
  check_udt_flow zero a b path v = none
  check_udt_flow (suc rounds) a b path v =
      let flow = kind_flow (check_udt_flow rounds) a b path ((a, b) ∷ v) in
      if is_visiting (a, b) v then some [] else flow

  -- One round for each pair of a struct or union of either side, and one more.
  unfoldable pub flow_rounds : ℕ
  flow_rounds = suc (
      (length producer.structs + length producer.unions)
      * (length consumer.structs + length consumer.unions))

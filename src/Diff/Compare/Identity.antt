-- ===== src/Diff/Compare/Identity.antt =====
-- src/diff.rs: `compare` on two equal specifications.
use soroban_upgrade_safeguar.Base.{
  ℕ, zero, suc, String, ◌≡◌, refl, ap, List, [], ◌∷◌, ◌++◌, true, false, Option, none, some, arith,
  for_each, str_eq_refl, str_eq_iff, Every, HasDistinctNames, Option-cases, inl, inr,
  append-nil_iff,
}
use soroban_upgrade_safeguar.Spec.{
  TypeDefs, nil, cons, FunctionInput, Function, StructField, UdtStruct, UdtEnum, UnionCase,
  UdtUnion, UdtErrorEnum, ContractSpec, Dict, get,
}
use soroban_upgrade_safeguar.Spec.Entries.{HasDistinctKeys, IsWellFormed}
use soroban_upgrade_safeguar.Mapper.Graph.{build_reverse_dependencies, dependents}
use soroban_upgrade_safeguar.Diff.{Finding}
use soroban_upgrade_safeguar.Diff.Detail.Laws.{type_change_findings-nil_iff}
use soroban_upgrade_safeguar.Diff.Functions.{
  input_names, is_reordered, same_names, parameter_type_findings, check_positional,
  check_parameters, check_output_types, check_outputs, check_function_signature, compare_function,
  added_function, compare_functions,
}
use soroban_upgrade_safeguar.Diff.Structs.{
  field_names, compare_struct, added_struct, compare_structs,
}
use soroban_upgrade_safeguar.Diff.Structs.Layout.{SameLayout, check_struct_fields-nil_iff}
use soroban_upgrade_safeguar.Diff.Enums.{compare_enum, added_enum, compare_enums}
use soroban_upgrade_safeguar.Diff.Enums.Values.{case_names}
use soroban_upgrade_safeguar.Diff.Enums.Silence.{check_enum_cases-nil_iff}
use soroban_upgrade_safeguar.Diff.Unions.{compare_union, added_union, compare_unions}
use soroban_upgrade_safeguar.Diff.Unions.Silence.{union_names, SameUnion, check_union_cases-nil_iff}
use soroban_upgrade_safeguar.Diff.ErrorEnums.{
  compare_error_enum, added_error_enum, compare_error_enums,
}
use soroban_upgrade_safeguar.Diff.ErrorEnums.Silence.{check_error_enum_cases-nil_iff}
use soroban_upgrade_safeguar.Diff.Kinds.{
  UdtKind, struct_kind, enum_kind, union_kind, error_enum_kind, udt_kind_of, kind_equal,
  kind_change, kind_changes, udt_names, detect_type_kind_changes,
}
use soroban_upgrade_safeguar.Diff.Cascade.{
  cascade_rounds, cascade_loop, detect_cascading_layout_breaks,
}
use soroban_upgrade_safeguar.Diff.Compare.{per_kind_findings, compare}

-- The names of the fields and cases of each type are distinct.
pub record HasDistinctMembers (s : ContractSpec) : Type 0 where
  pub fields_distinct : Every (λ e. HasDistinctNames (field_names e.1.fields)) s.structs
  pub values_distinct : Every (λ e. HasDistinctNames (case_names e.1.cases)) s.enums
  pub cases_distinct : Every (λ e. HasDistinctNames (union_names e.1.cases)) s.unions
  pub codes_distinct : Every (λ e. HasDistinctNames (case_names e.1.cases)) s.error_enums

module _ {V : Type 0} where
  get-here : (k : String) (v : V) (m : Dict V) → get k ((k, v) ∷ m) ≡ some v
  unfolding get
  get-here k v m = ground (arith, str_eq_refl k)

  get-later :
      (k j : String) (v w : V) (m : Dict V)
      → get k m ≡ none
      → get j m ≡ some w
      → get j ((k, v) ∷ m) ≡ some w
  unfolding get
  get-later k j v w m h e = ground (arith, str_eq_iff k j)

  entries-later :
      (k : String) (v : V) (m es : Dict V)
      → get k m ≡ none
      → Every (λ e. get e.0 m ≡ some e.1) es
      → Every (λ e. get e.0 ((k, v) ∷ m) ≡ some e.1) es
  entries-later k v m [] h es = tt
  entries-later k v m ((j, w) ∷ rest) h (e, es) =
      (get-later k j v w m h e, entries-later k v m rest h es)

  -- A dictionary with distinct keys maps each key to its own value.
  entries-get : (d : Dict V) → HasDistinctKeys d → Every (λ e. get e.0 d ≡ some e.1) d
  entries-get [] h = tt
  entries-get ((k, v) ∷ m) (n, h) = (get-here k v m, entries-later k v m m n (entries-get m h))

  -- Loops over entries that each push nothing.
  for_each-entries :
      (P : String × V → Type 0) (d es : Dict V) (f : String × V → List Finding)
      → ((e : String × V) → get e.0 d ≡ some e.1 → P e → f e ≡ [])
      → Every (λ e. get e.0 d ≡ some e.1) es
      → Every P es
      → for_each f es ≡ []
  for_each-entries P d [] f h es ps = refl
  for_each-entries P d (e ∷ rest) f h (g, es) (p, ps) =
      (append-nil_iff _ _).1 (h e g p, for_each-entries P d rest f h es ps)

Every-unit : {V : Type 0} (es : Dict V) → Every (λ e. Unit {0}) es
Every-unit [] = tt
Every-unit (e ∷ es) = (tt, Every-unit es)

same_names_refl : (ns : List String) → same_names ns ns ≡ true
same_names_refl [] = refl
same_names_refl (n ∷ ns) = ground (arith, str_eq_refl n, same_names_refl ns)

SameLayout-refl : (fs : List StructField) → SameLayout fs fs
SameLayout-refl [] = tt
SameLayout-refl (f ∷ fs) = (refl, refl, SameLayout-refl fs)

SameUnion-refl : (cs : List UnionCase) → SameUnion cs cs
SameUnion-refl [] = tt
SameUnion-refl (c ∷ cs) = (refl, refl, SameUnion-refl cs)

is_reordered_refl : (ns : List String) → is_reordered ns ns ≡ false
unfolding is_reordered
is_reordered_refl ns = ground (arith, same_names_refl ns)

check_positional_refl :
    (name : String) (i : ℕ) (inputs : List FunctionInput)
    → check_positional name i inputs inputs ≡ []
unfolding check_positional parameter_type_findings
check_positional_refl name i [] = refl
check_positional_refl name i (o ∷ inputs) = rw (str_eq_refl o.name) (
    (append-nil_iff _ _).1 (
      (type_change_findings-nil_iff o.type_ o.type_ _ _ _ _ _).1 refl,
      check_positional_refl name (suc i) inputs,
    ))

check_output_types_refl :
    (name : String) (i : ℕ) (ts : TypeDefs) → check_output_types name i ts ts ≡ []
unfolding check_output_types
check_output_types_refl name i nil = refl
check_output_types_refl name i (cons t ts) =
    (append-nil_iff _ _).1
      ((type_change_findings-nil_iff t t _ _ _ _ _).1 refl, check_output_types_refl name (suc i) ts)

check_function_signature_refl :
    (name : String) (f : Function) → check_function_signature name f f ≡ []
unfolding check_function_signature check_parameters check_outputs
check_function_signature_refl name f = ground (
  arith,
  is_reordered_refl (input_names f.inputs),
  check_positional_refl name 0 f.inputs,
  check_output_types_refl name 0 f.outputs,
)

kind_equal_refl : (k : UdtKind) → kind_equal k k ≡ true
kind_equal_refl struct_kind = refl
kind_equal_refl enum_kind = refl
kind_equal_refl union_kind = refl
kind_equal_refl error_enum_kind = refl

module _ (s : ContractSpec) where
  compare_function-same :
      (e : String × Function) → get e.0 s.functions ≡ some e.1 → compare_function s e ≡ []
  unfolding compare_function
  compare_function-same (name, f) g =
      ground (arith, check_function_signature_refl name f, str_eq_refl f.doc)

  added_function-same :
      (e : String × Function) → get e.0 s.functions ≡ some e.1 → added_function s e ≡ []
  unfolding added_function
  added_function-same (name, f) g = ground arith

  compare_struct-same :
      (e : String × UdtStruct)
      → get e.0 s.structs ≡ some e.1
      → HasDistinctNames (field_names e.1.fields)
      → compare_struct s e ≡ []
  unfolding compare_struct
  compare_struct-same (name, d) g h =
      let same = (check_struct_fields-nil_iff name d d h h).1 (SameLayout-refl d.fields) in
      ground (arith, str_eq_refl d.doc)

  added_struct-same :
      (e : String × UdtStruct) → get e.0 s.structs ≡ some e.1 → added_struct s e ≡ []
  unfolding added_struct
  added_struct-same (name, d) g = ground arith

  compare_enum-same :
      (e : String × UdtEnum)
      → get e.0 s.enums ≡ some e.1
      → HasDistinctNames (case_names e.1.cases)
      → compare_enum s e ≡ []
  unfolding compare_enum
  compare_enum-same (name, d) g h =
      let same = (check_enum_cases-nil_iff name d d h).1 (λ x. refl) in
      ground (arith, str_eq_refl d.doc)

  added_enum-same : (e : String × UdtEnum) → get e.0 s.enums ≡ some e.1 → added_enum s e ≡ []
  unfolding added_enum
  added_enum-same (name, d) g = ground arith

  compare_union-same :
      (e : String × UdtUnion)
      → get e.0 s.unions ≡ some e.1
      → HasDistinctNames (union_names e.1.cases)
      → compare_union s e ≡ []
  unfolding compare_union
  compare_union-same (name, d) g h =
      let same = (check_union_cases-nil_iff name d d h).1 (SameUnion-refl d.cases) in ground arith

  added_union-same : (e : String × UdtUnion) → get e.0 s.unions ≡ some e.1 → added_union s e ≡ []
  unfolding added_union
  added_union-same (name, d) g = ground arith

  compare_error_enum-same :
      (e : String × UdtErrorEnum)
      → get e.0 s.error_enums ≡ some e.1
      → HasDistinctNames (case_names e.1.cases)
      → compare_error_enum s e ≡ []
  unfolding compare_error_enum
  compare_error_enum-same (name, d) g h =
      let same = (check_error_enum_cases-nil_iff name d d h).1 (λ x. refl) in ground arith

  added_error_enum-same :
      (e : String × UdtErrorEnum) → get e.0 s.error_enums ≡ some e.1 → added_error_enum s e ≡ []
  unfolding added_error_enum
  added_error_enum-same (name, d) g = ground arith

  kind_change-same : (n : String) → kind_change s s n ≡ none
  unfolding kind_change
  kind_change-same n = elim (Option-cases (udt_kind_of s n)) [
    | inl e ↦ ground arith
    | inr (k, e) ↦ ground (arith, kind_equal_refl k)
  ]

  kind_changes-same : (names : List String) → kind_changes s s names ≡ []
  unfolding kind_changes
  kind_changes-same [] = refl
  kind_changes-same (n ∷ names) = rw (kind_change-same n, kind_changes) (kind_changes-same names)

cascade_loop-nil :
    (deps : String → List String) (rounds : ℕ) → cascade_loop deps rounds [] [] ≡ some []
unfolding cascade_loop
cascade_loop-nil deps zero = refl
cascade_loop-nil deps (suc rounds) = refl

detect_cascading-nil : (s : ContractSpec) → detect_cascading_layout_breaks s [] ≡ []
unfolding detect_cascading_layout_breaks
detect_cascading-nil s =
    ap (λ (o : Option (List Finding)). elim o [ none ↦ [] | some found ↦ found ])
      (cascade_loop-nil (dependents (build_reverse_dependencies s)) (cascade_rounds s []))

module _ (s : ContractSpec) (w : IsWellFormed s) (m : HasDistinctMembers s) where
  -- The five loops over each dictionary and its copy.
  two_loops-nil :
      {V : Type 0}
      → (P : String × V → Type 0) (d : Dict V) (f g : String × V → List Finding) → HasDistinctKeys d
      → Every P d
      → ((e : String × V) → get e.0 d ≡ some e.1 → P e → f e ≡ [])
      → ((e : String × V) → get e.0 d ≡ some e.1 → g e ≡ [])
      → for_each f d ++ for_each g d ≡ []
  two_loops-nil P d f g h ps hf hg = (append-nil_iff _ _).1 (
    for_each-entries P d d f hf (entries-get d h) ps,
    for_each-entries P d d g (λ e k p. hg e k) (entries-get d h) ps,
  )

  functions-same : compare_functions s s ≡ []
  unfolding compare_functions
  functions-same =
      two_loops-nil (λ e. Unit) s.functions (compare_function s) (added_function s)
        w.functions_distinct (Every-unit s.functions) (λ e k p. compare_function-same s e k)
        (added_function-same s)

  structs-same : compare_structs s s ≡ []
  unfolding compare_structs
  structs-same =
      two_loops-nil _ s.structs (compare_struct s) (added_struct s) w.structs_distinct
        m.fields_distinct (compare_struct-same s) (added_struct-same s)

  enums-same : compare_enums s s ≡ []
  unfolding compare_enums
  enums-same =
      two_loops-nil _ s.enums (compare_enum s) (added_enum s) w.enums_distinct m.values_distinct
        (compare_enum-same s) (added_enum-same s)

  unions-same : compare_unions s s ≡ []
  unfolding compare_unions
  unions-same =
      two_loops-nil _ s.unions (compare_union s) (added_union s) w.unions_distinct m.cases_distinct
        (compare_union-same s) (added_union-same s)

  error_enums-same : compare_error_enums s s ≡ []
  unfolding compare_error_enums
  error_enums-same =
      two_loops-nil _ s.error_enums (compare_error_enum s) (added_error_enum s)
        w.error_enums_distinct m.codes_distinct (compare_error_enum-same s)
        (added_error_enum-same s)

  per_kind-same : per_kind_findings s s ≡ []
  unfolding per_kind_findings
  per_kind-same = rw (functions-same, structs-same, enums-same, unions-same, error_enums-same) refl

  -- An upgrade to an equal specification has no findings, where every dictionary holds a name once
  -- and the fields and cases of each type have distinct names.
  pub compare-same : compare s s ≡ []
  unfolding compare detect_type_kind_changes
  compare-same = rw (per_kind-same, kind_changes-same s (udt_names s), detect_cascading-nil s) refl

-- ===== src/Diff/Functions.antt =====
-- src/diff.rs: `compare_functions` and `check_function_signature`.
use soroban_upgrade_safeguar.Base.{
  ℕ, suc, String, List, [], ◌∷◌, ◌++◌, Bool, true, false, not, ◌&&◌, Option, none, some, is_member,
  all, length, for_each, map_list, format, decimal, ◌==◌, str_eq, if◌then◌else◌, push_if,
}
use soroban_upgrade_safeguar.Category.{
  critical, warning, info, function_removed, function_documentation_changed, function_added,
  function_signature_changed, parameter_renamed, parameter_reordered, parameter_type_changed,
  return_type_changed,
}
use soroban_upgrade_safeguar.Spec.{
  TypeDef, TypeDefs, cons, types_len, FunctionInput, Function, ContractSpec, get, contains_key,
}
use soroban_upgrade_safeguar.Diff.{Finding, direct}
use soroban_upgrade_safeguar.Diff.Detail.{type_change_findings}

-- The message about a doc-string, for functions, structs and enums.
unfoldable pub doc_message : (kind name old_doc new_doc : String) → String
unfolding format
doc_message kind name old_doc new_doc =
    let old_doc_empty = str_eq old_doc "" in
    let new_doc_empty = str_eq new_doc "" in
    if old_doc_empty && not new_doc_empty
    then format (kind ∷ " '" ∷ name ∷ "' documentation was added." ∷ [])
    else if not old_doc_empty && new_doc_empty
    then format (kind ∷ " '" ∷ name ∷ "' documentation was removed." ∷ [])
    else format (kind ∷ " '" ∷ name ∷ "' documentation changed." ∷ [])

abbrev pub input_names : List FunctionInput → List String
input_names inputs = map_list (λ i. i.name) inputs

abbrev pub same_names : List String → List String → Bool
same_names [] [] = true
same_names (a ∷ as') (b ∷ bs') = str_eq a b && same_names as' bs'
same_names _ _ = false

-- Equality of the two sets of names.
abbrev same_name_set : List String → List String → Bool
same_name_set ms ns = all (λ m. is_member m ns) ms && all (λ n. is_member n ms) ns

unfoldable pub is_reordered : List String → List String → Bool
is_reordered olds news = same_name_set olds news && not (same_names olds news)

-- `new_by_name`: a later input of a name replaces an earlier one.
abbrev pub type_of_input : String → List FunctionInput → Option TypeDef
type_of_input n [] = none
type_of_input n (i ∷ inputs) = elim (type_of_input n inputs) [
  | some t ↦ some t
  | none ↦ if str_eq i.name n then some i.type_ else none
]

parameter_label : String → ℕ → String → String
parameter_label name i p_name =
    format ("Function '" ∷ name ∷ "': parameter " ∷ decimal i ∷ " ('" ∷ p_name ∷ "')" ∷ [])

unfoldable pub parameter_type_findings : String → ℕ → String → TypeDef → TypeDef → List Finding
unfolding format parameter_label
parameter_type_findings name i p_name a b =
    type_change_findings a b parameter_type_changed "type changed from"
      (format (name ∷ "." ∷ p_name ∷ [])) none (parameter_label name i p_name)

-- The loop over reordered parameters: each type is compared with the one of the same name.
unfoldable pub check_reordered :
    String → (new_inputs : List FunctionInput) → ℕ → List FunctionInput → List Finding
unfolding parameter_type_findings
check_reordered name new_inputs i [] = []
check_reordered name new_inputs i (o ∷ olds) =
    elim (type_of_input o.name new_inputs) [
      | none ↦ []
      | some t ↦ parameter_type_findings name i o.name o.type_ t
    ]
    ++ check_reordered name new_inputs (suc i) olds

abbrev renamed_finding : String → ℕ → String → String → Finding
renamed_finding name i old_name new_name =
    direct parameter_renamed warning
      (format (
        "Function '"
        ∷ name
        ∷ "': parameter "
        ∷ decimal i
        ∷ " renamed from '"
        ∷ old_name
        ∷ "' to '"
        ∷ new_name
        ∷ "'."
        ∷ []))
      none (some (format (name ∷ "." ∷ old_name ∷ [])))

-- The loop over the parameters by position.
unfoldable pub check_positional :
    String → ℕ → List FunctionInput → List FunctionInput → List Finding
unfolding parameter_type_findings format
check_positional name i (o ∷ olds) (n ∷ news) =
    push_if (not (str_eq o.name n.name)) (renamed_finding name i o.name n.name)
    ++ (parameter_type_findings name i o.name o.type_ n.type_
        ++ check_positional name (suc i) olds news)
check_positional name i _ _ = []

unfoldable pub check_parameters : String → List FunctionInput → List FunctionInput → List Finding
unfolding is_reordered check_reordered check_positional format
check_parameters name olds news =
    if is_reordered (input_names olds) (input_names news)
    then direct parameter_reordered critical
        (format (
          "Function '" ∷ name
          ∷ "': parameters reordered. The set of parameter names is unchanged but their order differs."
          ∷ []))
        none (some name)
      ∷ check_reordered name news 0 olds
    else check_positional name 0 olds news

-- The loop over the return types.
unfoldable pub check_output_types : String → ℕ → TypeDefs → TypeDefs → List Finding
unfolding format
check_output_types name i (cons o olds) (cons n news) =
    type_change_findings o n return_type_changed "changed from" name none
      (format ("Function '" ∷ name ∷ "': return type " ∷ decimal i ∷ []))
    ++ check_output_types name (suc i) olds news
check_output_types name i _ _ = []

unfoldable pub check_outputs : String → TypeDefs → TypeDefs → List Finding
unfolding check_output_types format
check_outputs name olds news =
    if types_len olds == types_len news
    then check_output_types name 0 olds news
    else direct return_type_changed critical
        (format (
          "Function '"
          ∷ name
          ∷ "': return type count changed from "
          ∷ decimal (types_len olds)
          ∷ " to "
          ∷ decimal (types_len news)
          ∷ "."
          ∷ []))
        none (some name)
      ∷ []

-- A changed number of parameters ends the comparison.
unfoldable pub check_function_signature : String → Function → Function → List Finding
unfolding check_parameters check_outputs format
check_function_signature name old_fn new_fn =
    if length old_fn.inputs == length new_fn.inputs
    then check_parameters name old_fn.inputs new_fn.inputs
      ++ check_outputs name old_fn.outputs new_fn.outputs
    else direct function_signature_changed critical
        (format (
          "Function '"
          ∷ name
          ∷ "': parameter count changed from "
          ∷ decimal (length old_fn.inputs)
          ∷ " to "
          ∷ decimal (length new_fn.inputs)
          ∷ "."
          ∷ []))
        none (some name)
      ∷ []

abbrev pub function_removed_finding : String → Finding
function_removed_finding name =
    direct function_removed critical
      (format ("Function '" ∷ name ∷ "' was removed. Existing callers will break." ∷ [])) none
      (some name)

-- One round of the loop over the old functions.
unfoldable pub compare_function : ContractSpec → String × Function → List Finding
unfolding check_function_signature doc_message format
compare_function new (name, old_fn) = elim (get name new.functions) [
  | none ↦ function_removed_finding name ∷ []
  | some new_fn ↦
      check_function_signature name old_fn new_fn
      ++ push_if (not (str_eq old_fn.doc new_fn.doc)) (
          direct function_documentation_changed info
            (doc_message "Function" name old_fn.doc new_fn.doc) none (some name))
]

unfoldable pub added_function : ContractSpec → String × Function → List Finding
unfolding format
added_function old (name, new_fn) = push_if (not (contains_key name old.functions)) (
    direct function_added info (format ("New function '" ∷ name ∷ "' added." ∷ [])) none
      (some name))

unfoldable pub compare_functions : ContractSpec → ContractSpec → List Finding
unfolding compare_function added_function
compare_functions old new =
    for_each (compare_function new) old.functions ++ for_each (added_function old) new.functions

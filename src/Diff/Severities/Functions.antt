-- ===== src/Diff/Severities/Functions.antt =====
-- The severities of the findings about functions.
use soroban_upgrade_safeguar.Base.{
  ℕ, suc, String, refl, List, [], ◌∷◌, Option, none, some, Every, Every-append, Every-for_each,
  length, ◌==◌, Every-if, Option-cases, inl, inr, length, ◌==◌,
}
use soroban_upgrade_safeguar.Category.{
  default_severity, parameter_renamed, parameter_reordered, return_type_changed, function_removed,
  function_added, function_documentation_changed, function_signature_changed,
}
use soroban_upgrade_safeguar.Spec.{
  TypeDef, TypeDefs, nil, cons, Function, FunctionInput, ContractSpec, get, types_len,
}
use soroban_upgrade_safeguar.Diff.Functions.{
  input_names, is_reordered, type_of_input, parameter_type_findings, check_reordered,
  check_positional, check_parameters, check_output_types, check_outputs, check_function_signature,
  compare_function, added_function, compare_functions,
}
use soroban_upgrade_safeguar.Diff.Severities.{IsStandard, Every-push_if, type_change-IsStandard}

module _ (name : String) where
  parameter_type-IsStandard :
      (i : ℕ) (p : String) (a b : TypeDef) → Every IsStandard (parameter_type_findings name i p a b)
  unfolding parameter_type_findings default_severity
  parameter_type-IsStandard i p a b = type_change-IsStandard a b _ _ _ _ _ refl

  matched-IsStandard :
      (i : ℕ) (p : String) (a : TypeDef) (o : Option TypeDef)
      → Every IsStandard (elim o [ none ↦ [] | some t ↦ parameter_type_findings name i p a t ])
  matched-IsStandard i p a none = tt
  matched-IsStandard i p a (some t) = parameter_type-IsStandard i p a t

  check_reordered-IsStandard :
      (news : List FunctionInput) (i : ℕ) (olds : List FunctionInput)
      → Every IsStandard (check_reordered name news i olds)
  unfolding check_reordered
  check_reordered-IsStandard news i [] = tt
  check_reordered-IsStandard news i (o ∷ olds) =
      Every-append IsStandard _ _ (matched-IsStandard i o.name o.type_ (type_of_input o.name news))
        (check_reordered-IsStandard news (suc i) olds)

  check_positional-IsStandard :
      (i : ℕ) (olds news : List FunctionInput)
      → Every IsStandard (check_positional name i olds news)
  unfolding check_positional default_severity
  check_positional-IsStandard i [] news = tt
  check_positional-IsStandard i (o ∷ olds) [] = tt
  check_positional-IsStandard i (o ∷ olds) (n ∷ news) =
      Every-append IsStandard _ _ (Every-push_if _ _ (parameter_renamed, refl, refl)) (
        Every-append IsStandard _ _ (parameter_type-IsStandard i o.name o.type_ n.type_)
          (check_positional-IsStandard (suc i) olds news))

  check_parameters-IsStandard :
      (olds news : List FunctionInput) → Every IsStandard (check_parameters name olds news)
  unfolding check_parameters default_severity
  check_parameters-IsStandard olds news =
      Every-if IsStandard (is_reordered (input_names olds) (input_names news))
        (_ ∷ check_reordered name news 0 olds) _
        ((parameter_reordered, refl, refl), check_reordered-IsStandard news 0 olds)
        (check_positional-IsStandard 0 olds news)

  check_output_types-IsStandard :
      (i : ℕ) (olds news : TypeDefs) → Every IsStandard (check_output_types name i olds news)
  unfolding check_output_types default_severity
  check_output_types-IsStandard i nil news = tt
  check_output_types-IsStandard i (cons o olds) nil = tt
  check_output_types-IsStandard i (cons o olds) (cons n news) =
      Every-append IsStandard _ _ (type_change-IsStandard o n _ _ _ _ _ refl)
        (check_output_types-IsStandard (suc i) olds news)

  check_outputs-IsStandard :
      (olds news : TypeDefs) → Every IsStandard (check_outputs name olds news)
  unfolding check_outputs default_severity
  check_outputs-IsStandard olds news =
      Every-if IsStandard (types_len olds == types_len news) _ (_ ∷ [])
        (check_output_types-IsStandard 0 olds news) ((return_type_changed, refl, refl), tt)

  check_function_signature-IsStandard :
      (old new : Function) → Every IsStandard (check_function_signature name old new)
  unfolding check_function_signature default_severity
  check_function_signature-IsStandard old new =
      Every-if IsStandard (length old.inputs == length new.inputs) _ (_ ∷ [])
        (Every-append IsStandard _ _ (check_parameters-IsStandard old.inputs new.inputs)
          (check_outputs-IsStandard old.outputs new.outputs))
        ((function_signature_changed, refl, refl), tt)

compare_function-IsStandard :
    (new : ContractSpec) (e : String × Function) → Every IsStandard (compare_function new e)
unfolding compare_function default_severity
compare_function-IsStandard new (name, old_fn) = elim (Option-cases (get name new.functions)) [
  | inl e ↦ rw (e, compare_function) ((function_removed, refl, refl), tt)
  | inr (new_fn, e) ↦
      rw (e, compare_function)
        (Every-append IsStandard _ _ (check_function_signature-IsStandard name old_fn new_fn)
          (Every-push_if _ _ (function_documentation_changed, refl, refl)))
]

added_function-IsStandard :
    (old : ContractSpec) (e : String × Function) → Every IsStandard (added_function old e)
unfolding added_function default_severity
added_function-IsStandard old (name, new_fn) = Every-push_if _ _ (function_added, refl, refl)

pub compare_functions-IsStandard :
    (old new : ContractSpec) → Every IsStandard (compare_functions old new)
unfolding compare_functions
compare_functions-IsStandard old new =
    Every-append IsStandard _ _
      (Every-for_each IsStandard _ (compare_function-IsStandard new) old.functions)
      (Every-for_each IsStandard _ (added_function-IsStandard old) new.functions)

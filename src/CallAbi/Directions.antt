-- ===== src/CallAbi/Directions.antt =====
-- `compare` and `compare_direction` of src/call_abi.rs: arguments flow from the client to the
-- contract, return values from the contract to the client.
use Prim.Native.String.{compare as compare_text}
use Prim.Native.Nat.{Ordering}
use soroban_upgrade_safeguar.Base.{
  ℕ, suc, String, Option, none, some, List, [], ◌∷◌, Bool, true, false, ◌&&◌, ◌==◌, length, format,
  decimal, if◌then◌else◌,
}
use soroban_upgrade_safeguar.Spec.{
  TypeDef, TypeDefs, types_len, cons, FunctionInput, Function, ContractSpec, Dict, get,
}
use soroban_upgrade_safeguar.CallAbi.{
  CallDirection, old_client_to_new_contract, new_client_to_old_contract, CallAbiBreak,
  DirectionalCallVerdict, verdict, CallAbiCompatibility,
}
use soroban_upgrade_safeguar.CallAbi.Flow.{
  Flow, and_flow, break_at, check_value_flow, check_udt_flow, flow_rounds,
}

unfoldable pub pluralize : ℕ → String → String → String
pluralize count singular plural =
    format (decimal count ∷ " " ∷ (if count == 1 then singular else plural) ∷ [])

-- A flow from one type to another, with nothing in progress yet.
unfoldable pub value_flow : String → ContractSpec → ContractSpec → String → TypeDef → TypeDef → Flow
unfolding check_value_flow check_udt_flow flow_rounds
value_flow function producer consumer path a b =
    check_value_flow function
      (check_udt_flow function producer consumer (flow_rounds function producer consumer)) path a b
      []

module _ (name : String) (client contract : ContractSpec) where
  abbrev pub indexed : String → ℕ → String
  indexed part index = format ("function." ∷ name ∷ "." ∷ part ∷ "[" ∷ decimal index ∷ "]" ∷ [])

  -- The loop over the zipped arguments.
  unfoldable pub argument_flows : ℕ → List FunctionInput → List FunctionInput → Flow
  unfolding value_flow
  argument_flows index (p ∷ produced) (c ∷ consumed) =
      and_flow (value_flow name client contract (indexed "argument" index) p.type_ c.type_)
        (argument_flows (suc index) produced consumed)
  argument_flows index _ _ = some []

  -- The loop over the zipped return values; the provider's are the produced ones.
  unfoldable pub return_flows : ℕ → TypeDefs → TypeDefs → Flow
  unfolding value_flow
  return_flows index (cons c consumed) (cons p produced) =
      and_flow (value_flow name contract client (indexed "return" index) p c)
        (return_flows (suc index) consumed produced)
  return_flows index _ _ = some []

  unfoldable pub inputs_flow : Function → Function → Flow
  unfolding argument_flows
  inputs_flow client_fn contract_fn =
      if length client_fn.inputs == length contract_fn.inputs
      then argument_flows 0 client_fn.inputs contract_fn.inputs
      else some (
          break_at name (format ("function." ∷ name ∷ ".arguments" ∷ [])) (
            "the client sends "
            ∷ pluralize (length client_fn.inputs) "positional argument" "positional arguments"
            ∷ " but the provider requires "
            ∷ decimal (length contract_fn.inputs)
            ∷ []))

  unfoldable pub outputs_flow : Function → Function → Flow
  unfolding return_flows
  outputs_flow client_fn contract_fn =
      if types_len client_fn.outputs == types_len contract_fn.outputs
      then return_flows 0 client_fn.outputs contract_fn.outputs
      else some (
          break_at name (format ("function." ∷ name ∷ ".return" ∷ [])) (
            "the provider returns "
            ∷ pluralize (types_len contract_fn.outputs) "value" "values"
            ∷ " but the client decodes "
            ∷ decimal (types_len client_fn.outputs)
            ∷ []))

  unfoldable pub function_flow : Function → Flow
  unfolding inputs_flow outputs_flow
  function_flow client_fn = elim (get name contract.functions) [
    | none ↦ some (
        break_at name (format ("function." ∷ name ∷ []))
          ("the client invokes a function that the provider does not export" ∷ []))
    | some contract_fn ↦
        and_flow (inputs_flow client_fn contract_fn) (outputs_flow client_fn contract_fn)
  ]

unfoldable pub function_flows : ContractSpec → ContractSpec → Dict Function → Flow
unfolding function_flow
function_flows client contract [] = some []
function_flows client contract ((name, f) ∷ fs) =
    and_flow (function_flow name client contract f) (function_flows client contract fs)

-- The order of the breaks: by function, path and reason.
abbrev pub break_before : CallAbiBreak → CallAbiBreak → Bool
break_before a b = elim (compare_text a.function b.function) [
  | Ordering.lt ↦ true
  | Ordering.gt ↦ false
  | Ordering.eq ↦ elim (compare_text a.path b.path) [
    | Ordering.lt ↦ true
    | Ordering.gt ↦ false
    | Ordering.eq ↦ elim (compare_text a.reason b.reason) [ Ordering.lt ↦ true | _ ↦ false ]
  ]
]

unfoldable pub insert_break : CallAbiBreak → List CallAbiBreak → List CallAbiBreak
insert_break a [] = a ∷ []
insert_break a (b ∷ bs) =
    let rest = insert_break a bs in if break_before b a then b ∷ rest else a ∷ b ∷ bs

-- `sort_by`, which is stable.
unfoldable pub sort_breaks : List CallAbiBreak → List CallAbiBreak
unfolding insert_break
sort_breaks [] = []
sort_breaks (b ∷ bs) = insert_break b (sort_breaks bs)

-- The breaks of a direction; the rounds of a walk are enough, so there always are some.
unfoldable pub compare_direction :
    CallDirection → ContractSpec → ContractSpec → Option DirectionalCallVerdict
unfolding function_flows sort_breaks
compare_direction direction client contract =
    elim (function_flows client contract client.functions) [
      | none ↦ none
      | some breaks ↦ some (verdict direction (sort_breaks breaks))
    ]

unfoldable pub compare : ContractSpec → ContractSpec → Option CallAbiCompatibility
unfolding compare_direction
compare old new = elim (compare_direction old_client_to_new_contract old new) [
  | none ↦ none
  | some a ↦ elim (compare_direction new_client_to_old_contract new old) [
    | none ↦ none
    | some b ↦ some (record { old_client = a; new_client = b })
  ]
]

-- `CallAbiCompatibility::compatible`
abbrev pub compatible : CallAbiCompatibility → Bool
compatible c = c.old_client.compatible && c.new_client.compatible

-- ===== src/CallAbi/Served.antt =====
-- src/call_abi.rs: a contract serves the calls of a client when it has every function of the client,
-- its arguments flow to the contract, and its return values flow back. `compare` always returns,
-- and finds a direction compatible exactly when the calls are served.
use soroban_upgrade_safeguar.Base.{
  ℕ, suc, String, Option, none, some, List, [], ◌∷◌, ◌≡◌, refl, ◌↔◌, ◌==◌, true, false, arith, inl,
  inr, sym, ◌∙◌, Bool-cases, and_iff, Every, length, Option-cases,
}
use soroban_upgrade_safeguar.Spec.{
  TypeDefs, nil, cons, types_len, FunctionInput, Function, ContractSpec, Dict, get,
}
use soroban_upgrade_safeguar.CallAbi.{
  CallDirection, old_client_to_new_contract, new_client_to_old_contract, CallAbiBreak, verdict,
  is_no_breaks, DirectionalCallVerdict, CallAbiCompatibility,
}
use soroban_upgrade_safeguar.CallAbi.Flow.{Flow}
use soroban_upgrade_safeguar.CallAbi.Directions.{
  argument_flows, return_flows, inputs_flow, outputs_flow, function_flow, function_flows,
  break_before, insert_break, sort_breaks, compare_direction, compare, compatible,
}
use soroban_upgrade_safeguar.CallAbi.Accepted.{IsCompatible}
use soroban_upgrade_safeguar.CallAbi.Accepted.Values.{
  IsSilent, IsRun, and_flow-IsSilent_iff, and_flow-IsRun, guarded-IsSilent_iff, guarded-IsRun,
  suc_iff, zero_or_suc, suc_or_zero,
}
use soroban_upgrade_safeguar.CallAbi.Accepted.Walk.{value_flow-IsRun, value_flow-IsSilent_iff}

module _ (client contract : ContractSpec) where
  -- As many arguments, each of the client's compatible with the contract's of its position.
  unfoldable pub AreArgumentsServed : List FunctionInput → List FunctionInput → Type 0
  AreArgumentsServed [] [] = Unit
  AreArgumentsServed (p ∷ ps) (c ∷ cs) =
      IsCompatible client contract p.type_ c.type_ × AreArgumentsServed ps cs
  AreArgumentsServed _ _ = ⊥

  -- As many return values, each of the contract's compatible with the client's of its position.
  unfoldable pub AreReturnsServed : TypeDefs → TypeDefs → Type 0
  AreReturnsServed nil nil = Unit
  AreReturnsServed (cons c cs) (cons p ps) =
      IsCompatible contract client p c × AreReturnsServed cs ps
  AreReturnsServed _ _ = ⊥

  abbrev pub IsFunctionServed : Function → Option Function → Type 0
  IsFunctionServed f none = ⊥
  IsFunctionServed f (some g) =
      AreArgumentsServed f.inputs g.inputs × AreReturnsServed f.outputs g.outputs

  unfoldable pub AreServed : Dict Function → Type 0
  AreServed fs = Every (λ e. IsFunctionServed e.1 (get e.0 contract.functions)) fs

-- The contract serves every function of the client.
unfoldable pub IsServed : ContractSpec → ContractSpec → Type 0
unfolding AreServed
IsServed client contract = AreServed client contract client.functions

module _ (name : String) (client contract : ContractSpec) where
  arguments-IsSilent_iff :
      (index : ℕ) (ps cs : List FunctionInput)
      → (((length ps == length cs) ≡ true)
          × IsSilent (argument_flows name client contract index ps cs))
        ↔ AreArgumentsServed client contract ps cs
  unfolding argument_flows AreArgumentsServed
  arguments-IsSilent_iff index [] [] = ((λ h. tt), (λ h. (refl, refl)))
  arguments-IsSilent_iff index (p ∷ ps) (c ∷ cs) =
      let rest = arguments-IsSilent_iff (suc index) ps cs in
      let first = value_flow-IsSilent_iff name client contract _ p.type_ c.type_ in
      (
        (λ h.
            let (x, y) = (and_flow-IsSilent_iff _ _).0 h.1 in
            (first.0 x, rest.0 ((suc_iff _ _).0 h.0, y))),
        (λ h.
            let (e, y) = rest.1 h.1 in
            ((suc_iff _ _).1 e, (and_flow-IsSilent_iff _ _).1 (first.1 h.0, y))),
      )
  arguments-IsSilent_iff index [] (c ∷ cs) = ((λ h. zero_or_suc (length cs) h.0), (λ h. elim h [ ]))
  arguments-IsSilent_iff index (p ∷ ps) [] = ((λ h. suc_or_zero (length ps) h.0), (λ h. elim h [ ]))

  returns-IsSilent_iff :
      (index : ℕ) (cs ps : TypeDefs)
      → (((types_len cs == types_len ps) ≡ true)
          × IsSilent (return_flows name client contract index cs ps))
        ↔ AreReturnsServed client contract cs ps
  unfolding return_flows AreReturnsServed
  returns-IsSilent_iff index nil nil = ((λ h. tt), (λ h. (refl, refl)))
  returns-IsSilent_iff index (cons c cs) (cons p ps) =
      let rest = returns-IsSilent_iff (suc index) cs ps in
      let first = value_flow-IsSilent_iff name contract client _ p c in
      (
        (λ h.
            let (x, y) = (and_flow-IsSilent_iff _ _).0 h.1 in
            (first.0 x, rest.0 ((suc_iff _ _).0 h.0, y))),
        (λ h.
            let (e, y) = rest.1 h.1 in
            ((suc_iff _ _).1 e, (and_flow-IsSilent_iff _ _).1 (first.1 h.0, y))),
      )
  returns-IsSilent_iff index nil (cons p ps) =
      ((λ h. zero_or_suc (types_len ps) h.0), (λ h. elim h [ ]))
  returns-IsSilent_iff index (cons c cs) nil =
      ((λ h. suc_or_zero (types_len cs) h.0), (λ h. elim h [ ]))

  arguments-IsRun :
      (index : ℕ) (ps cs : List FunctionInput)
      → IsRun (argument_flows name client contract index ps cs)
  unfolding argument_flows
  arguments-IsRun index (p ∷ ps) (c ∷ cs) =
      and_flow-IsRun _ _ (value_flow-IsRun name client contract _ p.type_ c.type_)
        (arguments-IsRun (suc index) ps cs)
  arguments-IsRun index [] _ = refl
  arguments-IsRun index (p ∷ ps) [] = refl

  returns-IsRun :
      (index : ℕ) (cs ps : TypeDefs) → IsRun (return_flows name client contract index cs ps)
  unfolding return_flows
  returns-IsRun index (cons c cs) (cons p ps) =
      and_flow-IsRun _ _ (value_flow-IsRun name contract client _ p c)
        (returns-IsRun (suc index) cs ps)
  returns-IsRun index nil _ = refl
  returns-IsRun index (cons c cs) nil = refl

  function-IsSilent_iff :
      (f : Function)
      → IsSilent (function_flow name client contract f)
        ↔ IsFunctionServed client contract f (get name contract.functions)
  unfolding function_flow inputs_flow outputs_flow
  function-IsSilent_iff f = elim (Option-cases (get name contract.functions)) [
    | inl e ↦ rw (e, function_flow) ((λ h. absurd cc), (λ h. elim h [ ]))
    | inr (g, e) ↦
        let inputs = arguments-IsSilent_iff 0 f.inputs g.inputs in
        let outputs = returns-IsSilent_iff 0 f.outputs g.outputs in
        rw (e, function_flow)
          (
            (λ h.
                let (x, y) = (and_flow-IsSilent_iff _ _).0 h in
                (
                  inputs.0 ((guarded-IsSilent_iff _ _ _).0 x),
                  outputs.0 ((guarded-IsSilent_iff _ _ _).0 y),
                )),
            (λ h. (and_flow-IsSilent_iff _ _).1 (
              (guarded-IsSilent_iff _ _ _).1 (inputs.1 h.0),
              (guarded-IsSilent_iff _ _ _).1 (outputs.1 h.1),
            )),
          )
  ]

  function-IsRun : (f : Function) → IsRun (function_flow name client contract f)
  unfolding function_flow inputs_flow outputs_flow
  function-IsRun f = elim (Option-cases (get name contract.functions)) [
    | inl e ↦ rw (e, function_flow) refl
    | inr (g, e) ↦
        rw (e, function_flow)
          (and_flow-IsRun _ _ (guarded-IsRun _ _ _ (arguments-IsRun 0 f.inputs g.inputs))
            (guarded-IsRun _ _ _ (returns-IsRun 0 f.outputs g.outputs)))
  ]

module _ (client contract : ContractSpec) where
  functions-IsSilent_iff :
      (fs : Dict Function)
      → IsSilent (function_flows client contract fs) ↔ AreServed client contract fs
  unfolding function_flows AreServed
  functions-IsSilent_iff [] = ((λ h. tt), (λ h. refl))
  functions-IsSilent_iff ((name, f) ∷ fs) =
      let first = function-IsSilent_iff name client contract f in
      let rest = functions-IsSilent_iff fs in
      (
        (λ h. let (p, q) = (and_flow-IsSilent_iff _ _).0 h in (first.0 p, rest.0 q)),
        (λ h. (and_flow-IsSilent_iff _ _).1 (first.1 h.0, rest.1 h.1)),
      )

  functions-IsRun : (fs : Dict Function) → IsRun (function_flows client contract fs)
  unfolding function_flows
  functions-IsRun [] = refl
  functions-IsRun ((name, f) ∷ fs) =
      and_flow-IsRun _ _ (function-IsRun name client contract f) (functions-IsRun fs)

insert_break-nonempty :
    (b : CallAbiBreak) (bs : List CallAbiBreak) → is_no_breaks (insert_break b bs) ≡ false
unfolding insert_break
insert_break-nonempty b [] = refl
insert_break-nonempty b (c ∷ bs) = elim (Bool-cases (break_before c b)) [
  | inl e ↦ rw e refl
  | inr e ↦ rw e refl
]

sorted_iff : (bs : List CallAbiBreak) → (is_no_breaks (sort_breaks bs) ≡ true) ↔ IsSilent (some bs)
unfolding sort_breaks
sorted_iff [] = ((λ h. refl), (λ h. refl))
sorted_iff (b ∷ bs) =
    ((λ h. absurd (ground (arith, insert_break-nonempty b (sort_breaks bs)))), (λ h. absurd cc))

run_result : (g : Flow) → IsRun g → (bs : List CallAbiBreak) × (g ≡ some bs)
run_result none h = absurd (ground arith)
run_result (some bs) h = (bs, refl)

-- A direction always has a verdict, compatible exactly when the contract serves the client.
compare_direction-verdict :
    (direction : CallDirection) (client contract : ContractSpec)
    → (d : DirectionalCallVerdict) × (compare_direction direction client contract ≡ some d)
      × (d.direction ≡ direction)
      × ((d.compatible ≡ true) ↔ IsServed client contract)
unfolding compare_direction IsServed
compare_direction-verdict direction client contract =
    let (bs, e) = run_result _ (functions-IsRun client contract client.functions) in
    let silent = functions-IsSilent_iff client contract client.functions in
    (
      verdict direction (sort_breaks bs),
      rw (e, compare_direction) refl,
      refl,
      ((λ h. silent.0 (e ∙ (sorted_iff bs).0 h)), (λ h. (sorted_iff bs).1 (sym e ∙ silent.1 h))),
    )

-- `compare` always returns. Old clients are compatible with the new contract exactly when it has
-- every function of the old one, with as many arguments and return values, where the old
-- arguments are accepted as the new ones and the new return values as the old ones, at every
-- depth of the values; new clients with the old contract, the other way round; and the whole is
-- compatible when both are.
pub compare-IsServed :
    (old new : ContractSpec)
    → (c : CallAbiCompatibility) × (compare old new ≡ some c)
      × ((c.old_client.compatible ≡ true) ↔ IsServed old new)
      × ((c.new_client.compatible ≡ true) ↔ IsServed new old)
      × ((compatible c ≡ true) ↔ (IsServed old new × IsServed new old))
unfolding compare
compare-IsServed old new =
    let (a, e, d, f) = compare_direction-verdict old_client_to_new_contract old new in
    let (b, g, k, h) = compare_direction-verdict new_client_to_old_contract new old in
    (record { old_client = a; new_client = b }, rw (e, g, compare) refl, f, h, and_iff _ _ f h)

-- ===== src/Diff/Tests.antt =====
-- A small contract and its upgrade, and what src/diff.rs reports of them.
pub mod Compared
pub mod Members
pub mod Passes
use soroban_upgrade_safeguar.Base.{String, ℕ, List, [], ◌∷◌, Option, none, some}
use soroban_upgrade_safeguar.Spec.{
  Primitive, address, u64, u128, TypeDef, primitive, option, map, udt, nil, cons, FunctionInput,
  Function, StructField, UdtStruct, EnumCase, UdtEnum, UnionCase, void_v0, tuple_v0, UdtUnion,
  UdtErrorEnum, ContractSpec,
}

abbrev pub field : String → TypeDef → StructField
field name t = record { doc = ""; name = name; type_ = t }

abbrev pub struct_of : String → List StructField → UdtStruct
struct_of name fields = record { doc = ""; lib = ""; name = name; fields = fields }

abbrev pub case_of : String → ℕ → EnumCase
case_of name value = record { doc = ""; name = name; value = value }

abbrev pub function_of : String → List FunctionInput → Function
function_of name inputs = record { doc = ""; name = name; inputs = inputs; outputs = nil }

abbrev pub input : String → TypeDef → FunctionInput
input name t = record { doc = ""; name = name; type_ = t }

abbrev pub limits : UdtStruct
limits = struct_of "Limits" (field "daily" (primitive u64) ∷ [])

abbrev pub wide_limits : UdtStruct
wide_limits = struct_of "Limits" (field "daily" (primitive u128) ∷ [])

abbrev pub account : UdtStruct
account =
    struct_of "Account" (field "owner" (primitive address) ∷ field "limits" (udt "Limits") ∷ [])

abbrev pub mode : UdtEnum
mode = record {
  doc = "";
  lib = "";
  name = "Mode";
  cases = case_of "Open" 0 ∷ case_of "Shut" 1 ∷ [];
}

abbrev pub choice : UdtUnion
choice = record {
  doc = "";
  lib = "";
  name = "Choice";
  cases = void_v0 "" "Nobody" ∷ tuple_v0 "" "Somebody" (cons (udt "Account") nil) ∷ [];
}

abbrev pub fault : UdtErrorEnum
fault = record { doc = ""; lib = ""; name = "Fault"; cases = case_of "Late" 1 ∷ [] }

abbrev pub pay : Function
pay = function_of "pay" (input "from" (udt "Account") ∷ [])

abbrev pub ping : Function
ping = function_of "ping" []

abbrev pub old_spec : ContractSpec
old_spec = record {
  functions = ("pay", pay) ∷ ("ping", ping) ∷ [];
  structs = ("Account", account) ∷ ("Limits", limits) ∷ [];
  enums = ("Mode", mode) ∷ [];
  unions = ("Choice", choice) ∷ [];
  error_enums = ("Fault", fault) ∷ [];
}

-- `ping` is gone, `Limits` is wider, and `Mode` is a struct.
abbrev pub new_spec : ContractSpec
new_spec = record {
  functions = ("pay", pay) ∷ [];
  structs =
      ("Account", account)
      ∷ ("Limits", wide_limits)
      ∷ ("Mode", struct_of "Mode" (field "open" (primitive u64) ∷ []))
      ∷ [];
  enums = [];
  unions = ("Choice", choice) ∷ [];
  error_enums = ("Fault", fault) ∷ [];
}

-- ===== src/Mapper.antt =====
-- src/mapper.rs: the text form of a type. Which types name which is in the module below.
pub mod Graph
use soroban_upgrade_safeguar.Base.{
  ℕ, String, List, [], ◌∷◌, Bool, true, false, format, join, decimal,
}
use soroban_upgrade_safeguar.Spec.{
  Primitive, val, bool, void, error, u32, i32, u64, i64, timepoint, duration, u128, i128, u256,
  i256, bytes, string, symbol, address, TypeDef, TypeDefs, primitive, option, result, vec, map,
  tuple, bytes_n, udt, nil, cons,
}

unfoldable pub primitive_to_string : Primitive → String
primitive_to_string val = "Val"
primitive_to_string bool = "bool"
primitive_to_string void = "()"
primitive_to_string error = "Error"
primitive_to_string u32 = "u32"
primitive_to_string i32 = "i32"
primitive_to_string u64 = "u64"
primitive_to_string i64 = "i64"
primitive_to_string timepoint = "Timepoint"
primitive_to_string duration = "Duration"
primitive_to_string u128 = "u128"
primitive_to_string i128 = "i128"
primitive_to_string u256 = "u256"
primitive_to_string i256 = "i256"
primitive_to_string bytes = "Bytes"
primitive_to_string string = "String"
primitive_to_string symbol = "Symbol"
primitive_to_string address = "Address"

unfoldable mutual
  unfolding primitive_to_string format join decimal

  pub type_to_string : TypeDef → String
  type_to_string (primitive p) = primitive_to_string p
  type_to_string (option t) = format ("Option<" ∷ type_to_string t ∷ ">" ∷ [])
  type_to_string (result t e) =
      format ("Result<" ∷ type_to_string t ∷ ", " ∷ type_to_string e ∷ ">" ∷ [])
  type_to_string (vec t) = format ("Vec<" ∷ type_to_string t ∷ ">" ∷ [])
  type_to_string (map k v) = format ("Map<" ∷ type_to_string k ∷ ", " ∷ type_to_string v ∷ ">" ∷ [])
  type_to_string (tuple ts) = format ("(" ∷ join ", " (types_to_strings ts) ∷ ")" ∷ [])
  type_to_string (bytes_n n) = format ("BytesN<" ∷ decimal n ∷ ">" ∷ [])
  type_to_string (udt name) = name

  pub types_to_strings : TypeDefs → List String
  types_to_strings nil = []
  types_to_strings (cons t ts) = type_to_string t ∷ types_to_strings ts

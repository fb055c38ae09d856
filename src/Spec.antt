-- ===== src/Spec.antt =====
-- src/spec.rs: the interface of a contract. The payload types are those of the XDR library, as
-- src/mapper.rs matches on them; its types without a payload are `Primitive`. A `HashMap` is an
-- association list in its order of iteration, which the program leaves open; a name that is not
-- UTF-8 does not occur.
pub mod Equality
pub mod Entries
pub mod Tests
use soroban_upgrade_safeguar.Base.{
  ℕ, zero, suc, String, Bool, true, false, ◌&&◌, List, [], ◌∷◌, Option, none, some, ◌==◌, str_eq,
  if◌then◌else◌, is_some,
}

pub data Primitive : Type 0 where
  val bool void error u32 i32 u64 i64 timepoint duration u128 i128 u256 i256 : Primitive
  bytes string symbol address : Primitive

mutual
  pub data TypeDef : Type 0 where
    primitive : Primitive → TypeDef
    option : TypeDef → TypeDef
    result : TypeDef → TypeDef → TypeDef
    vec : TypeDef → TypeDef
    map : TypeDef → TypeDef → TypeDef
    tuple : TypeDefs → TypeDef
    bytes_n : ℕ → TypeDef
    udt : String → TypeDef

  -- A vector of types.
  pub data TypeDefs : Type 0 where
    nil : TypeDefs
    cons : TypeDef → TypeDefs → TypeDefs

abbrev pub types_len : TypeDefs → ℕ
types_len nil = 0
types_len (cons t ts) = suc (types_len ts)

pub record FunctionInput : Type 0 where
  pub doc : String
  pub name : String
  pub type_ : TypeDef

pub record Function : Type 0 where
  pub doc : String
  pub name : String
  pub inputs : List FunctionInput
  pub outputs : TypeDefs

pub record StructField : Type 0 where
  pub doc : String
  pub name : String
  pub type_ : TypeDef

pub record UdtStruct : Type 0 where
  pub doc : String
  pub lib : String
  pub name : String
  pub fields : List StructField

pub record EnumCase : Type 0 where
  pub doc : String
  pub name : String
  pub value : ℕ

pub record UdtEnum : Type 0 where
  pub doc : String
  pub lib : String
  pub name : String
  pub cases : List EnumCase

pub data UnionCase : Type 0 where
  void_v0 : (doc name : String) → UnionCase
  tuple_v0 : (doc name : String) (type_ : TypeDefs) → UnionCase

pub record UdtUnion : Type 0 where
  pub doc : String
  pub lib : String
  pub name : String
  pub cases : List UnionCase

-- Error enums have the shape of enums.
pub record UdtErrorEnum : Type 0 where
  pub doc : String
  pub lib : String
  pub name : String
  pub cases : List EnumCase

abbrev pub Dict : Type 0 → Type 0
Dict V = List (String × V)

module _ {V : Type 0} where
  -- `map.get(name)`
  unfoldable pub get : String → Dict V → Option V
  get k [] = none
  get k ((j, v) ∷ m) = let rest = get k m in if str_eq j k then some v else rest

  -- `map.contains_key(name)`
  abbrev pub contains_key : String → Dict V → Bool
  contains_key k m = is_some (get k m)

pub record ContractSpec : Type 0 where
  pub functions : Dict Function
  pub structs : Dict UdtStruct
  pub enums : Dict UdtEnum
  pub unions : Dict UdtUnion
  pub error_enums : Dict UdtErrorEnum

abbrev pub empty_spec : ContractSpec
empty_spec = record { functions = []; structs = []; enums = []; unions = []; error_enums = [] }

-- `==` of the types, derived from their shape.
abbrev pub tag : Primitive → ℕ
tag val = 0
tag bool = 1
tag void = 2
tag error = 3
tag u32 = 4
tag i32 = 5
tag u64 = 6
tag i64 = 7
tag timepoint = 8
tag duration = 9
tag u128 = 10
tag i128 = 11
tag u256 = 12
tag i256 = 13
tag bytes = 14
tag string = 15
tag symbol = 16
tag address = 17

unfoldable mutual
  pub types_equal : TypeDef → TypeDef → Bool
  types_equal (primitive p) (primitive q) = tag p == tag q
  types_equal (option a) (option b) = types_equal a b
  types_equal (result a e) (result b f) = types_equal a b && types_equal e f
  types_equal (vec a) (vec b) = types_equal a b
  types_equal (map k v) (map l w) = types_equal k l && types_equal v w
  types_equal (tuple xs) (tuple ys) = all_types_equal xs ys
  types_equal (bytes_n m) (bytes_n n) = m == n
  types_equal (udt a) (udt b) = str_eq a b
  types_equal _ _ = false

  pub all_types_equal : TypeDefs → TypeDefs → Bool
  all_types_equal nil nil = true
  all_types_equal (cons a xs) (cons b ys) = types_equal a b && all_types_equal xs ys
  all_types_equal _ _ = false

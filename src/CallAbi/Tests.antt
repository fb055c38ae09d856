-- ===== src/CallAbi/Tests.antt =====
-- Tests of the call-ABI analysis: a type that embeds itself, and an enum that grows.
use soroban_upgrade_safeguar.Base.{
  ◌≡◌, refl, ◌↔◌, String, List, [], ◌∷◌, some, true, Option, none, map_list, str_eq, format,
  decimal,
}
use soroban_upgrade_safeguar.Spec.{
  u64, primitive, option, udt, nil, cons, EnumCase, ContractSpec, get, types_equal,
}
use soroban_upgrade_safeguar.CallAbi.{CallAbiCompatibility}
use soroban_upgrade_safeguar.CallAbi.Directions.{compare, compatible}
use soroban_upgrade_safeguar.CallAbi.Served.{IsServed, compare-IsServed}

-- The values of `Level` are those of the argument.
abbrev spec_of : List EnumCase → ContractSpec
spec_of cases = record {
  functions =
      (
        "put",
        record {
          doc = "";
          name = "put";
          inputs = record { doc = ""; name = "node"; type_ = udt "Node" } ∷ [];
          outputs = nil;
        },
      )
      ∷ (
        "level",
        record { doc = ""; name = "level"; inputs = []; outputs = cons (udt "Level") nil },
      )
      ∷ [];
  structs =
      (
        "Node",
        record {
          doc = "";
          lib = "";
          name = "Node";
          fields =
              record { doc = ""; name = "size"; type_ = primitive u64 }
              ∷ record { doc = ""; name = "next"; type_ = option (udt "Node") }
              ∷ [];
        },
      )
      ∷ [];
  enums = ("Level", record { doc = ""; lib = ""; name = "Level"; cases = cases }) ∷ [];
  unions = [];
  error_enums = [];
}

abbrev two_levels : List EnumCase
two_levels =
    record { doc = ""; name = "Low"; value = 1 }
    ∷ record { doc = ""; name = "High"; value = 2 }
    ∷ []

abbrev old_contract : ContractSpec
old_contract = spec_of two_levels

abbrev new_contract : ContractSpec
new_contract = spec_of (record { doc = ""; name = "Top"; value = 3 } ∷ two_levels)

abbrev old_client_paths : Option CallAbiCompatibility → List String
old_client_paths none = "out of rounds" ∷ []
old_client_paths (some c) = map_list (λ b. b.path) c.old_client.breaks

abbrev new_client_paths : Option CallAbiCompatibility → List String
new_client_paths none = "out of rounds" ∷ []
new_client_paths (some c) = map_list (λ b. b.path) c.new_client.breaks

-- Old clients cannot decode the new level; new clients decode the old ones.
old_client_test :
    old_client_paths (compare old_contract new_contract) ≡ "function.level.return[0].case[3]" ∷ []
unfolding compare get str_eq types_equal format decimal
old_client_test = refl

new_client_test : new_client_paths (compare old_contract new_contract) ≡ []
unfolding compare get str_eq types_equal
new_client_test = refl

compare-IsServed_example :
    (c : CallAbiCompatibility) × (compare old_contract new_contract ≡ some c)
    × ((c.old_client.compatible ≡ true) ↔ IsServed old_contract new_contract)
    × ((c.new_client.compatible ≡ true) ↔ IsServed new_contract old_contract)
    × ((compatible c ≡ true)
        ↔ (IsServed old_contract new_contract × IsServed new_contract old_contract))
compare-IsServed_example = compare-IsServed old_contract new_contract

-- ===== src/Spec/Tests.antt =====
-- Tests of the specification that is built from entries.
use soroban_upgrade_safeguar.Base.{◌≡◌, List, [], ◌∷◌}
use soroban_upgrade_safeguar.Spec.{u64, primitive, UdtStruct, get}
use soroban_upgrade_safeguar.Spec.Entries.{
  SpecEntry, udt_struct_v0, from_entries, IsWellFormed, from_entries-IsWellFormed, first_struct,
  from_entries-first_struct,
}

abbrev limits : UdtStruct
limits = record {
  doc = "";
  lib = "";
  name = "Limits";
  fields = record { doc = ""; name = "daily"; type_ = primitive u64 } ∷ [];
}

-- The name is declared twice.
abbrev entries : List SpecEntry
entries = udt_struct_v0 limits ∷ udt_struct_v0 (record limits { fields = [] }) ∷ []

from_entries-IsWellFormed_example : IsWellFormed (from_entries entries)
from_entries-IsWellFormed_example = from_entries-IsWellFormed entries

from_entries-first_struct_example :
    get "Limits" (from_entries entries).structs ≡ first_struct "Limits" entries
from_entries-first_struct_example = from_entries-first_struct "Limits" entries

-- ===== src/CallAbi.antt =====
-- src/call_abi.rs: whether values flow between a client and a contract of two versions. Flow is
-- the walk over a pair of types, Directions the two directions over the functions.
pub mod Flow
pub mod Directions
pub mod Accepted
pub mod Served
pub mod Tests
use soroban_upgrade_safeguar.Base.{String, List, [], ◌∷◌, Bool, true, false}

pub data CallDirection : Type 0 where
  old_client_to_new_contract new_client_to_old_contract : CallDirection

pub record CallAbiBreak : Type 0 where
  pub function : String
  pub path : String
  pub reason : String

pub record DirectionalCallVerdict : Type 0 where
  pub direction : CallDirection
  pub compatible : Bool
  pub breaks : List CallAbiBreak

abbrev pub is_no_breaks : List CallAbiBreak → Bool
is_no_breaks bs = elim bs [ [] ↦ true | b ∷ rest ↦ false ]

-- `DirectionalCallVerdict::new`
abbrev pub verdict : CallDirection → List CallAbiBreak → DirectionalCallVerdict
verdict d bs = record { direction = d; compatible = is_no_breaks bs; breaks = bs }

pub record CallAbiCompatibility : Type 0 where
  pub old_client : DirectionalCallVerdict
  pub new_client : DirectionalCallVerdict

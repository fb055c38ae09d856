-- ===== src/Diff/Kinds.antt =====
-- src/diff.rs: `detect_type_kind_changes`.
pub mod Laws
pub mod Retracted
use soroban_upgrade_safeguar.Base.{
  String, List, [], ◌∷◌, ◌++◌, Bool, true, false, not, ◌&&◌, ◌||◌, Option, none, some, any, keep,
  map_list, format, str_eq, opt_str_eq, if◌then◌else◌, is_some,
}
use soroban_upgrade_safeguar.Category.{critical, type_kind_changed}
use soroban_upgrade_safeguar.Spec.{ContractSpec, Dict, get, contains_key}
use soroban_upgrade_safeguar.Mapper.Graph.{text_le}
use soroban_upgrade_safeguar.Diff.{Finding, direct}

pub data UdtKind : Type 0 where
  struct_kind enum_kind union_kind error_enum_kind : UdtKind

abbrev pub kind_equal : UdtKind → UdtKind → Bool
kind_equal struct_kind struct_kind = true
kind_equal enum_kind enum_kind = true
kind_equal union_kind union_kind = true
kind_equal error_enum_kind error_enum_kind = true
kind_equal _ _ = false

unfoldable pub kind_label : UdtKind → String
kind_label struct_kind = "struct"
kind_label enum_kind = "enum"
kind_label union_kind = "union"
kind_label error_enum_kind = "error enum"

unfoldable pub removal_categories : UdtKind → List String
removal_categories struct_kind = "Struct Removed" ∷ "Event Definition Removed" ∷ []
removal_categories enum_kind = "Enum Removed" ∷ "Event Enum Removed" ∷ []
removal_categories union_kind = "Union Removed" ∷ []
removal_categories error_enum_kind = "Error Enum Removed" ∷ []

unfoldable pub addition_category : UdtKind → String
addition_category struct_kind = "Struct Added"
addition_category enum_kind = "Enum Added"
addition_category union_kind = "Union Added"
addition_category error_enum_kind = "Error Enum Added"

unfoldable pub udt_kind_of : ContractSpec → String → Option UdtKind
udt_kind_of spec name =
    if contains_key name spec.structs
    then some struct_kind
    else if contains_key name spec.enums
    then some enum_kind
    else if contains_key name spec.unions
    then some union_kind
    else if contains_key name spec.error_enums
    then some error_enum_kind
    else none

pub record KindChange : Type 0 where
  pub name : String
  pub old_kind : UdtKind
  pub new_kind : UdtKind

abbrev pub keys : {V : Type 0} → Dict V → List String
keys d = map_list (λ e. e.0) d

unfoldable pub udt_names : ContractSpec → List String
udt_names spec =
    keys spec.structs ++ (keys spec.enums ++ (keys spec.unions ++ keys spec.error_enums))

unfoldable pub kind_change : ContractSpec → ContractSpec → String → Option KindChange
unfolding udt_kind_of
kind_change old new name = elim (udt_kind_of old name) [
  | none ↦ none
  | some k ↦ elim (udt_kind_of new name) [
    | none ↦ none
    | some l ↦
        if kind_equal k l then none else some (record { name = name; old_kind = k; new_kind = l })
  ]
]

-- Insertion into the sorted list of changes. A name has one pair of kinds, so names decide.
unfoldable pub insert_change : KindChange → List KindChange → List KindChange
insert_change c [] = c ∷ []
insert_change c (d ∷ ds) = if text_le c.name d.name then c ∷ d ∷ ds else d ∷ insert_change c ds

-- `filter_map`, and the sort after it.
unfoldable pub kind_changes : ContractSpec → ContractSpec → List String → List KindChange
kind_changes old new [] = []
kind_changes old new (name ∷ names) =
    let rest = kind_changes old new names in
    elim (kind_change old new name) [ none ↦ rest | some c ↦ insert_change c rest ]

-- Whether the pass for one kind reported this name as removed or added.
unfoldable pub is_stale : KindChange → Finding → Bool
unfolding removal_categories addition_category
is_stale c f =
    opt_str_eq f.target (some c.name)
    && (any (λ category. str_eq category f.category) (removal_categories c.old_kind)
        || str_eq f.category (addition_category c.new_kind))

abbrev pub kind_finding : KindChange → Finding
kind_finding c =
    direct type_kind_changed critical
      (format (
        "Type '"
        ∷ c.name
        ∷ "' changed from "
        ∷ kind_label c.old_kind
        ∷ " to "
        ∷ kind_label c.new_kind
        ∷ ". Stored data and client decoders written against the "
        ∷ kind_label c.old_kind
        ∷ " layout cannot read the "
        ∷ kind_label c.new_kind
        ∷ " that replaced it."
        ∷ []))
      (some c.name) (some c.name)

unfoldable pub apply_kind_change : List Finding → KindChange → List Finding
unfolding is_stale format
apply_kind_change fs c = keep (λ f. not (is_stale c f)) fs ++ kind_finding c ∷ []

unfoldable pub apply_kind_changes : List Finding → List KindChange → List Finding
unfolding apply_kind_change
apply_kind_changes fs [] = fs
apply_kind_changes fs (c ∷ cs) = apply_kind_changes (apply_kind_change fs c) cs

unfoldable pub detect_type_kind_changes : ContractSpec → ContractSpec → List Finding → List Finding
unfolding apply_kind_changes kind_changes udt_names
detect_type_kind_changes old new fs = apply_kind_changes fs (kind_changes old new (udt_names old))

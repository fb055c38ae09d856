-- ===== src/Diff/Axes/Laws.antt =====
-- What the axes of a finding are, over the arms of the `match` on its category.
use soroban_upgrade_safeguar.Base.{
  String, ◌≡◌, refl, List, [], ◌∷◌, ◌++◌, Bool, true, false, ◌&&◌, ◌||◌, not, Option, none, some,
  all, sym, str_eq, str_eq_iff, ◌⊎◌, ◌∙◌, is_member, arith, Bool-cases, inl, inr,
}
use soroban_upgrade_safeguar.Spec.{ContractSpec}
use soroban_upgrade_safeguar.Diff.{
  CompatibilityAxis, storage_layout, call_abi, event_indexer, source_level, axis_equal, has_axis,
}
use soroban_upgrade_safeguar.Diff.Axes.{
  is_one_of, environment_arm, function_arm, event_arm, error_arm, runtime_arm, layout_breaks,
  or_storage, pushed, usage_axes, is_type_used_in_functions, is_type_used_in_events,
  classify_finding_axes,
}

-- Whether no arm of the `match` names the category, so that the uses of the type decide.
abbrev pub is_decided_by_use : String → Bool
is_decided_by_use category =
    not (is_one_of environment_arm category)
    && (not (is_one_of function_arm category)
        && (not (str_eq category "Parameter Renamed")
            && (not (is_one_of event_arm category)
                && (not (is_one_of error_arm category) && not (is_one_of runtime_arm category)))))

classify-use :
    (category name : String) (old new : ContractSpec)
    → is_decided_by_use category ≡ true
    → classify_finding_axes category (some name) old new
      ≡ or_storage (usage_axes category name old new)
unfolding classify_finding_axes
classify-use category name old new h = ground arith

or_storage-has_axis :
    (a : CompatibilityAxis) (axes : List CompatibilityAxis)
    → axis_equal a storage_layout ≡ false
    → has_axis a (or_storage axes) ≡ has_axis a axes
or_storage-has_axis a [] h = ground arith
or_storage-has_axis a (x ∷ axes) h = refl

has_axis-or_storage :
    (a : CompatibilityAxis) (axes : List CompatibilityAxis)
    → has_axis a axes ≡ true
    → has_axis a (or_storage axes) ≡ true
has_axis-or_storage a [] h = ground arith
has_axis-or_storage a (x ∷ axes) h = h

-- The axes that come from `b`, `c`, `d` and `e` in the order of the code.
module _ (b c d e : Bool) where
  abbrev pushed_axes : List CompatibilityAxis
  pushed_axes =
      pushed b call_abi
      ++ (pushed c event_indexer ++ (pushed d storage_layout ++ pushed e source_level))

  pushed_axes-call_abi : has_axis call_abi pushed_axes ≡ b
  pushed_axes-call_abi = ground arith

  pushed_axes-event_indexer : has_axis event_indexer pushed_axes ≡ c
  pushed_axes-event_indexer = ground arith

  pushed_axes-storage_layout : has_axis storage_layout pushed_axes ≡ d
  pushed_axes-storage_layout = ground arith

module _ (category name : String) (old new : ContractSpec)
    (h : is_decided_by_use category ≡ true) where
  -- What the default arm pushes.
  pub use-axes :
      (has_axis call_abi (classify_finding_axes category (some name) old new)
        ≡ (is_type_used_in_functions name old || is_type_used_in_functions name new))
      × (has_axis event_indexer (classify_finding_axes category (some name) old new)
          ≡ (is_type_used_in_events name old || is_type_used_in_events name new))
  unfolding usage_axes
  use-axes = rw (classify-use category name old new h) (
    or_storage-has_axis call_abi (usage_axes category name old new) refl
        ∙ pushed_axes-call_abi _ _ _ _,
    or_storage-has_axis event_indexer (usage_axes category name old new) refl
        ∙ pushed_axes-event_indexer _ _ _ _,
  )

  layout_break-storage :
      is_one_of layout_breaks category ≡ true
      → has_axis storage_layout (classify_finding_axes category (some name) old new) ≡ true
  unfolding usage_axes
  layout_break-storage l = rw (classify-use category name old new h) (
      has_axis-or_storage storage_layout (usage_axes category name old new)
        (pushed_axes-storage_layout _ _ _ _ ∙ l))

or_storage-nonempty : (axes : List CompatibilityAxis) → ¬ (or_storage axes ≡ [])
or_storage-nonempty [] e = ground arith
or_storage-nonempty (a ∷ axes) e = ground arith

-- A finding has at least one axis, whatever its category and its type.
pub classify-nonempty :
    (category : String) (type_name : Option String) (old new : ContractSpec)
    → ¬ (classify_finding_axes category type_name old new ≡ [])
unfolding classify_finding_axes
classify-nonempty category none old new e = ground arith
classify-nonempty category (some name) old new e =
    ground (arith, or_storage-nonempty (usage_axes category name old new))

-- The change of a map's key or value type.
abbrev pub IsMapChange : String → Type 0
IsMapChange category = (category ≡ "Map Key Type Changed") ⊎ (category ≡ "Map Value Type Changed")

is_member-all :
    (p : String → Bool) (category : String) (names : List String)
    → is_member category names ≡ true
    → all p names ≡ true
    → p category ≡ true
is_member-all p category [] h k = ground arith
is_member-all p category (n ∷ names) h k = elim (Bool-cases (str_eq n category)) [
  | inl e ↦ rw (← (str_eq_iff n category).0 e) (ground arith)
  | inr e ↦ is_member-all p category names (ground arith) (ground arith)
]

abbrev is_map_change : String → Bool
is_map_change category =
    str_eq "Map Key Type Changed" category || str_eq "Map Value Type Changed" category

IsMapChange-of_test : (category : String) → is_map_change category ≡ true → IsMapChange category
IsMapChange-of_test category h = elim (Bool-cases (str_eq "Map Key Type Changed" category)) [
  | inl e ↦ inl (sym ((str_eq_iff _ category).0 e))
  | inr e ↦ inr (sym ((str_eq_iff "Map Value Type Changed" category).0 (ground arith)))
]

layout_break-cases :
    (category : String)
    → is_one_of layout_breaks category ≡ true
    → (is_decided_by_use category || is_map_change category) ≡ true
unfolding is_one_of str_eq
layout_break-cases category h =
    is_member-all (λ c. is_decided_by_use c || is_map_change c) category layout_breaks h refl

module _ (name : String) (old new : ContractSpec) where
  abbrev pub IsOnStorage : String → Type 0
  IsOnStorage category =
      has_axis storage_layout (classify_finding_axes category (some name) old new) ≡ true

  abbrev pub IsOnCallAbi : String → Type 0
  IsOnCallAbi category =
      IsMapChange category × (classify_finding_axes category (some name) old new ≡ call_abi ∷ [])

  map_change-IsOnCallAbi : (category : String) → IsMapChange category → IsOnCallAbi category
  unfolding classify_finding_axes is_one_of str_eq
  map_change-IsOnCallAbi category (inl e) = rw e (inl refl, refl)
  map_change-IsOnCallAbi category (inr e) = rw e (inr refl, refl)

  -- Every category that is listed as a layout break puts a finding about a type on the storage
  -- axis, but for the two changes of a map, which an earlier arm puts on the call ABI alone.
  pub layout_break-axes :
      (category : String)
      → is_one_of layout_breaks category ≡ true
      → IsOnStorage category ⊎ IsOnCallAbi category
  layout_break-axes category l = elim (Bool-cases (is_decided_by_use category)) [
    | inl d ↦ inl (layout_break-storage category name old new d l)
    | inr d ↦ inr (
        map_change-IsOnCallAbi category
          (IsMapChange-of_test category (ground (arith, layout_break-cases category l))))
  ]

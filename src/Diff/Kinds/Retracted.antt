-- ===== src/Diff/Kinds/Retracted.antt =====
-- src/diff.rs: which findings `detect_type_kind_changes` retracts, by the categories of
-- src/category.rs.
use soroban_upgrade_safeguar.Base.{
  String, ◌≡◌, refl, ◌⊎◌, inl, inr, List, [], ◌∷◌, true, false, some, arith, any, str_eq,
  opt_str_eq_iff, Every, IsIn,
}
use soroban_upgrade_safeguar.Category.{
  as_str, struct_removed, event_definition_removed, enum_removed, event_enum_removed, union_removed,
  error_enum_removed, struct_added, enum_added, union_added, error_enum_added,
}
use soroban_upgrade_safeguar.Spec.{ContractSpec}
use soroban_upgrade_safeguar.Diff.{Finding}
use soroban_upgrade_safeguar.Diff.Kinds.{
  UdtKind, struct_kind, enum_kind, union_kind, error_enum_kind, kind_equal, removal_categories,
  addition_category, udt_kind_of, is_stale, kind_finding, detect_type_kind_changes,
}
use soroban_upgrade_safeguar.Diff.Kinds.Laws.{kind_changed-current}

-- The category says that a type of this kind was removed.
unfoldable pub IsRemoval : UdtKind → String → Type 0
IsRemoval struct_kind c = (c ≡ as_str struct_removed) ⊎ (c ≡ as_str event_definition_removed)
IsRemoval enum_kind c = (c ≡ as_str enum_removed) ⊎ (c ≡ as_str event_enum_removed)
IsRemoval union_kind c = c ≡ as_str union_removed
IsRemoval error_enum_kind c = c ≡ as_str error_enum_removed

-- The category says that a type of this kind was added.
unfoldable pub IsAddition : UdtKind → String → Type 0
IsAddition struct_kind c = c ≡ as_str struct_added
IsAddition enum_kind c = c ≡ as_str enum_added
IsAddition union_kind c = c ≡ as_str union_added
IsAddition error_enum_kind c = c ≡ as_str error_enum_added

-- The finding says that the type was removed in its old kind or added in its new one.
abbrev pub IsRetracted : String → UdtKind → UdtKind → Finding → Type 0
IsRetracted name k l f = (f.target ≡ some name) × (IsRemoval k f.category ⊎ IsAddition l f.category)

removal_known :
    (k : UdtKind) (c : String)
    → IsRemoval k c
    → any (λ category. str_eq category c) (removal_categories k) ≡ true
unfolding IsRemoval removal_categories as_str str_eq
removal_known struct_kind c (inl e) = rw e refl
removal_known struct_kind c (inr e) = rw e refl
removal_known enum_kind c (inl e) = rw e refl
removal_known enum_kind c (inr e) = rw e refl
removal_known union_kind c e = rw e refl
removal_known error_enum_kind c e = rw e refl

addition_known : (l : UdtKind) (c : String) → IsAddition l c → str_eq c (addition_category l) ≡ true
unfolding IsAddition addition_category as_str str_eq
addition_known struct_kind c e = rw e refl
addition_known enum_kind c e = rw e refl
addition_known union_kind c e = rw e refl
addition_known error_enum_kind c e = rw e refl

current-IsRetracted :
    (name : String) (k l : UdtKind) (f : Finding)
    → is_stale (record { name = name; old_kind = k; new_kind = l }) f ≡ false
    → ¬ IsRetracted name k l f
unfolding is_stale
current-IsRetracted name k l f h (t, inl removal) =
    ground (arith, removal_known k f.category removal, (opt_str_eq_iff f.target (some name)).1 t)
current-IsRetracted name k l f h (t, inr addition) =
    ground (arith, addition_known l f.category addition, (opt_str_eq_iff f.target (some name)).1 t)

all_current :
    (name : String) (k l : UdtKind) (fs : List Finding)
    → Every (λ f. is_stale (record { name = name; old_kind = k; new_kind = l }) f ≡ false) fs
    → Every (λ f. ¬ IsRetracted name k l f) fs
all_current name k l [] h = tt
all_current name k l (f ∷ fs) (e, h) = (current-IsRetracted name k l f e, all_current name k l fs h)

-- A type that is of one kind in the old contract and of another in the new one has its finding in
-- the report, and none is left whose target is the type and whose category says that a type of the
-- old kind was removed or one of the new kind added.
pub kind_changed-report :
    (old new : ContractSpec) (fs : List Finding) (name : String) (k l : UdtKind)
    → udt_kind_of old name ≡ some k
    → udt_kind_of new name ≡ some l
    → kind_equal k l ≡ false
    → IsIn
        (kind_finding (record { name = name; old_kind = k; new_kind = l }))
        (detect_type_kind_changes old new fs)
      × Every (λ f. ¬ IsRetracted name k l f) (detect_type_kind_changes old new fs)
kind_changed-report old new fs name k l e g h =
    let (found, current) = kind_changed-current old new fs name k l e g h in
    (found, all_current name k l (detect_type_kind_changes old new fs) current)

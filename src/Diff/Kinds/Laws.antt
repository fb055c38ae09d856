-- ===== src/Diff/Kinds/Laws.antt =====
-- src/diff.rs: what `detect_type_kind_changes` leaves of the report.
use soroban_upgrade_safeguar.Base.{
  String, ◌≡◌, refl, List, [], ◌∷◌, ◌++◌, true, false, not, ◌||◌, some, arith, any, keep, str_eq,
  is_member, Every, Every-append, Every-keep, Every-kept, sym, subst, ap, IsIn, IsIn-left,
  IsIn-right, IsIn-keep, Bool-cases, Option-cases, inl, inr, str_eq_iff,
}
use soroban_upgrade_safeguar.Category.{as_str}
use soroban_upgrade_safeguar.Spec.{ContractSpec, Dict, get, contains_key}
use soroban_upgrade_safeguar.Mapper.Graph.{text_le}
use soroban_upgrade_safeguar.Diff.{Finding}
use soroban_upgrade_safeguar.Diff.Kinds.{
  UdtKind, struct_kind, enum_kind, union_kind, error_enum_kind, kind_equal, removal_categories,
  addition_category, udt_kind_of, KindChange, keys, udt_names, kind_change, insert_change,
  kind_changes, is_stale, kind_finding, apply_kind_change, apply_kind_changes,
  detect_type_kind_changes,
}

-- A category that no kind's removal or addition has is never stale.
abbrev pub IsOtherCategory : String → Type 0
IsOtherCategory category =
    (k : UdtKind)
    → (any (λ c. str_eq c category) (removal_categories k) ≡ false)
      × (str_eq category (addition_category k) ≡ false)

pub is_stale-other :
    (c : KindChange) (f : Finding) → IsOtherCategory f.category → is_stale c f ≡ false
unfolding is_stale
is_stale-other c f h =
    let removal = (h c.old_kind).0 in let addition = (h c.new_kind).1 in ground arith

kind_finding-other : (c : KindChange) → IsOtherCategory (kind_finding c).category
unfolding str_eq removal_categories addition_category as_str
kind_finding-other c struct_kind = (refl, refl)
kind_finding-other c enum_kind = (refl, refl)
kind_finding-other c union_kind = (refl, refl)
kind_finding-other c error_enum_kind = (refl, refl)

-- A finding that no change makes stale stays.
pub apply-kept :
    (f : Finding) (fs : List Finding) (cs : List KindChange)
    → ((c : KindChange) → is_stale c f ≡ false)
    → IsIn f fs
    → IsIn f (apply_kind_changes fs cs)
unfolding apply_kind_changes apply_kind_change
apply-kept f fs [] h m = m
apply-kept f fs (c ∷ cs) h m = apply-kept f (apply_kind_change fs c) cs h (
    IsIn-left f (keep (λ g. not (is_stale c g)) fs) (kind_finding c ∷ [])
      (IsIn-keep (λ g. not (is_stale c g)) f fs (rw (h c) refl) m))

apply-found :
    (c : KindChange) (fs : List Finding) (cs : List KindChange)
    → IsIn c cs
    → IsIn (kind_finding c) (apply_kind_changes fs cs)
unfolding apply_kind_changes apply_kind_change
apply-found c fs [] m = elim m [ ]
apply-found c fs (d ∷ cs) (inl e) =
    apply-kept (kind_finding c) (apply_kind_change fs d) cs
      (λ b. is_stale-other b (kind_finding c) (kind_finding-other c))
      (IsIn-right (kind_finding c) (keep (λ g. not (is_stale d g)) fs) (kind_finding d ∷ [])
        (inl (ap kind_finding e)))
apply-found c fs (d ∷ cs) (inr m) = apply-found c (apply_kind_change fs d) cs m

insert_change-here : (c : KindChange) (cs : List KindChange) → IsIn c (insert_change c cs)
unfolding insert_change
insert_change-here c [] = inl refl
insert_change-here c (d ∷ ds) = elim (Bool-cases (text_le c.name d.name)) [
  | inl e ↦ rw (e, insert_change) (inl refl)
  | inr e ↦ rw (e, insert_change) (inr (insert_change-here c ds))
]

insert_change-later :
    (b c : KindChange) (cs : List KindChange) → IsIn b cs → IsIn b (insert_change c cs)
unfolding insert_change
insert_change-later b c [] m = elim m [ ]
insert_change-later b c (d ∷ ds) m = elim (Bool-cases (text_le c.name d.name)) [
  | inl e ↦ rw (e, insert_change) (inr m)
  | inr e ↦
      rw (e, insert_change)
        (elim m [ inl same ↦ inl same | inr later ↦ inr (insert_change-later b c ds later) ])
]

module _ (old new : ContractSpec) where
  kind_changes-found :
      (name : String) (c : KindChange) (names : List String)
      → kind_change old new name ≡ some c
      → is_member name names ≡ true
      → IsIn c (kind_changes old new names)
  unfolding kind_changes
  kind_changes-found name c [] e m = ground arith
  kind_changes-found name c (n ∷ names) e m = elim (Bool-cases (str_eq n name)) [
    | inl same ↦
        let here : kind_change old new n ≡ some c = rw ((str_eq_iff n name).0 same) e in
        rw (here, kind_changes) (insert_change-here c (kind_changes old new names))
    | inr other ↦
        let later = kind_changes-found name c names e (ground arith) in
        elim (Option-cases (kind_change old new n)) [
          | inl none_here ↦ rw (none_here, kind_changes) later
          | inr (b, here) ↦
              rw (here, kind_changes) (insert_change-later c b (kind_changes old new names) later)
        ]
  ]

-- A finding that a change does not make stale.
abbrev IsCurrent : KindChange → Finding → Type 0
IsCurrent c f = is_stale c f ≡ false

Every-not :
    (c : KindChange) (fs : List Finding)
    → Every (λ f. not (is_stale c f) ≡ true) fs
    → Every (IsCurrent c) fs
Every-not c [] h = tt
Every-not c (f ∷ fs) (n, h) = (ground arith, Every-not c fs h)

kind_finding-IsCurrent : (c b : KindChange) → Every (IsCurrent c) (kind_finding b ∷ [])
kind_finding-IsCurrent c b = (is_stale-other c (kind_finding b) (kind_finding-other b), tt)

apply-IsCurrent :
    (c : KindChange) (fs : List Finding) (cs : List KindChange)
    → Every (IsCurrent c) fs
    → Every (IsCurrent c) (apply_kind_changes fs cs)
unfolding apply_kind_changes apply_kind_change
apply-IsCurrent c fs [] h = h
apply-IsCurrent c fs (d ∷ cs) h = apply-IsCurrent c (apply_kind_change fs d) cs (
    Every-append (IsCurrent c) (keep (λ g. not (is_stale d g)) fs) (kind_finding d ∷ [])
      (Every-keep (IsCurrent c) (λ g. not (is_stale d g)) fs h) (kind_finding-IsCurrent c d))

apply-cleans :
    (c : KindChange) (fs : List Finding) (cs : List KindChange)
    → IsIn c cs
    → Every (IsCurrent c) (apply_kind_changes fs cs)
unfolding apply_kind_changes apply_kind_change
apply-cleans c fs [] m = elim m [ ]
apply-cleans c fs (d ∷ cs) (inl e) = apply-IsCurrent c (apply_kind_change fs d) cs (
    subst (λ b. Every (IsCurrent c) (apply_kind_change fs b)) (sym e)
      (Every-append (IsCurrent c) (keep (λ g. not (is_stale c g)) fs) (kind_finding c ∷ [])
        (Every-not c _ (Every-kept (λ g. not (is_stale c g)) fs)) (kind_finding-IsCurrent c c)))
apply-cleans c fs (d ∷ cs) (inr m) = apply-cleans c (apply_kind_change fs d) cs m

is_member-append :
    (x : String) (ms ns : List String) → is_member x (ms ++ ns) ≡ (is_member x ms || is_member x ns)
is_member-append x [] ns = refl
is_member-append x (m ∷ ms) ns = ground (arith, is_member-append x ms ns)

contains_key-member :
    {V : Type 0} (name : String) (d : Dict V) → contains_key name d ≡ is_member name (keys d)
unfolding get
contains_key-member name [] = refl
contains_key-member name ((k, v) ∷ d) = ground (arith, contains_key-member name d)

udt_kind_of-member :
    (s : ContractSpec) (name : String) (k : UdtKind)
    → udt_kind_of s name ≡ some k
    → is_member name (udt_names s) ≡ true
unfolding udt_kind_of udt_names
udt_kind_of-member s name k e = ground (
  arith,
  contains_key-member name s.structs,
  contains_key-member name s.enums,
  contains_key-member name s.unions,
  contains_key-member name s.error_enums,
  is_member-append name (keys s.structs) (keys s.enums ++ (keys s.unions ++ keys s.error_enums)),
  is_member-append name (keys s.enums) (keys s.unions ++ keys s.error_enums),
  is_member-append name (keys s.unions) (keys s.error_enums),
)

kind_change-some :
    (old new : ContractSpec) (name : String) (k l : UdtKind)
    → udt_kind_of old name ≡ some k
    → udt_kind_of new name ≡ some l
    → kind_equal k l ≡ false
    → kind_change old new name ≡ some (record { name = name; old_kind = k; new_kind = l })
unfolding kind_change
kind_change-some old new name k l e f h = ground arith

-- The changes of kind are applied: the finding is in the report, and no stale one is left.
pub kind_changed-current :
    (old new : ContractSpec) (fs : List Finding) (name : String) (k l : UdtKind)
    → udt_kind_of old name ≡ some k
    → udt_kind_of new name ≡ some l
    → kind_equal k l ≡ false
    → IsIn
        (kind_finding (record { name = name; old_kind = k; new_kind = l }))
        (detect_type_kind_changes old new fs)
      × Every
          (λ f. is_stale (record { name = name; old_kind = k; new_kind = l }) f ≡ false)
          (detect_type_kind_changes old new fs)
unfolding detect_type_kind_changes
kind_changed-current old new fs name k l e f h =
    let c : KindChange = record { name = name; old_kind = k; new_kind = l } in
    let changes = kind_changes old new (udt_names old) in
    let found : IsIn c changes =
      kind_changes-found old new name c (udt_names old) (kind_change-some old new name k l e f h)
        (udt_kind_of-member old name k e) in
    (apply-found c fs changes found, apply-cleans c fs changes found)

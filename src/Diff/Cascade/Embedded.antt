-- ===== src/Diff/Cascade/Embedded.antt =====
-- src/diff.rs: what `detect_cascading_layout_breaks` reports, in the terms of the specification and
-- of the report it starts from.
use soroban_upgrade_safeguar.Base.{
  String, ◌≡◌, ◌↔◌, ◌⊎◌, refl, sym, ◌∙◌, inl, inr, List, [], ◌∷◌, ◌++◌, true, some, arith, IsIn,
  is_member, str_eq, str_eq_iff, str_eq_refl, Bool-cases, Option-cases,
}
use soroban_upgrade_safeguar.Category.{Severity, critical, warning, info}
use soroban_upgrade_safeguar.Spec.{ContractSpec}
use soroban_upgrade_safeguar.Mapper.Graph.{insert_name, build_reverse_dependencies, dependents}
use soroban_upgrade_safeguar.Mapper.Graph.Embeds.{embeds, dependents-embeds, is_member-insert_name}
use soroban_upgrade_safeguar.Diff.{Finding, is_critical}
use soroban_upgrade_safeguar.Diff.Cascade.{broken_types, detect_cascading_layout_breaks}
use soroban_upgrade_safeguar.Diff.Cascade.Reachable.{
  Reaches, direct_dependent, further_dependent, is_reported, detect_cascading-IsBroken,
}

-- The report has a critical finding about the type.
abbrev pub HasCritical : List Finding → String → Type 0
HasCritical fs r = (f : Finding) × IsIn f fs × (f.severity ≡ critical) × (f.type_name ≡ some r)

-- A type embeds the root, directly or through other types.
pub data IsEmbedded (spec : ContractSpec) (root : String) : String → Type 0 where
  directly : (d : String) → embeds spec d root ≡ true → IsEmbedded spec root d
  through :
      (b d : String) → IsEmbedded spec root b → embeds spec d b ≡ true → IsEmbedded spec root d

is_critical_sound : (s : Severity) → is_critical s ≡ true → s ≡ critical
is_critical_sound critical h = refl
is_critical_sound warning h = absurd (ground arith)
is_critical_sound info h = absurd (ground arith)

HasCritical-cons :
    (f : Finding) (fs : List Finding) (r : String) → HasCritical fs r → HasCritical (f ∷ fs) r
HasCritical-cons f fs r (g, m, s, t) = (g, inr m, s, t)

name_inserted :
    (n r : String) (ns : List String)
    → is_member r (insert_name n ns) ≡ true
    → (n ≡ r) ⊎ (is_member r ns ≡ true)
name_inserted n r ns h = elim (Bool-cases (str_eq n r)) [
  | inl e ↦ inl ((str_eq_iff n r).0 e)
  | inr e ↦ inr (ground (arith, is_member-insert_name r n ns))
]

broken-HasCritical :
    (fs : List Finding) (r : String) → is_member r (broken_types fs) ≡ true → HasCritical fs r
unfolding broken_types
broken-HasCritical [] r h = absurd (ground arith)
broken-HasCritical (f ∷ fs) r h = elim (Bool-cases (is_critical f.severity)) [
  | inr e ↦ HasCritical-cons f fs r (broken-HasCritical fs r (rw (e, broken_types) at h))
  | inl e ↦ elim (Option-cases f.type_name) [
    | inl n ↦ HasCritical-cons f fs r (broken-HasCritical fs r (rw (e, n, broken_types) at h))
    | inr (name, n) ↦ elim (name_inserted name r (broken_types fs) (rw (e, n, broken_types) at h)) [
      | inl same ↦ (f, inl refl, is_critical_sound f.severity e, n ∙ (λ i. some (same i)))
      | inr later ↦ HasCritical-cons f fs r (broken-HasCritical fs r later)
    ]
  ]
]

inserted_name : (r : String) (ns : List String) → is_member r (insert_name r ns) ≡ true
inserted_name r ns = ground (arith, is_member-insert_name r r ns, str_eq_refl r)

kept_name :
    (n r : String) (ns : List String)
    → is_member r ns ≡ true
    → is_member r (insert_name n ns) ≡ true
kept_name n r ns h = ground (arith, is_member-insert_name r n ns)

broken_later :
    (f : Finding) (fs : List Finding) (r : String)
    → is_member r (broken_types fs) ≡ true
    → is_member r (broken_types (f ∷ fs)) ≡ true
unfolding broken_types
broken_later f fs r h = elim (Bool-cases (is_critical f.severity)) [
  | inr e ↦ rw (e, broken_types) h
  | inl e ↦ elim (Option-cases f.type_name) [
    | inl n ↦ rw (e, n, broken_types) h
    | inr (name, n) ↦ rw (e, n, broken_types) (kept_name name r (broken_types fs) h)
  ]
]

HasCritical-broken :
    (fs : List Finding) (r : String) → HasCritical fs r → is_member r (broken_types fs) ≡ true
unfolding broken_types
HasCritical-broken [] r (f, m, s, t) = elim m [ ]
HasCritical-broken (g ∷ fs) r (f, inr m, s, t) =
    broken_later g fs r (HasCritical-broken fs r (f, m, s, t))
HasCritical-broken (g ∷ fs) r (f, inl same, s, t) =
    rw (same, s, t, broken_types) (inserted_name r (broken_types fs))

module _ (spec : ContractSpec) (root : String) where
  Reaches-IsEmbedded :
      (d : String)
      → Reaches (dependents (build_reverse_dependencies spec)) root d
      → IsEmbedded spec root d
  Reaches-IsEmbedded _ (direct_dependent d m) = directly d (sym (dependents-embeds spec d root) ∙ m)
  Reaches-IsEmbedded _ (further_dependent b d h m) =
      through b d (Reaches-IsEmbedded b h) (sym (dependents-embeds spec d b) ∙ m)

  IsEmbedded-Reaches :
      (d : String)
      → IsEmbedded spec root d
      → Reaches (dependents (build_reverse_dependencies spec)) root d
  IsEmbedded-Reaches _ (directly d m) = direct_dependent d (dependents-embeds spec d root ∙ m)
  IsEmbedded-Reaches _ (through b d h m) =
      further_dependent b d (IsEmbedded-Reaches b h) (dependents-embeds spec d b ∙ m)

-- The pass only appends findings, and it reports a type under a root exactly when the report has a
-- critical finding about the root and the root occurs in a field or payload of the type, at any
-- depth of that field's type, or in one of a type that the type embeds in this way.
pub detect_cascading-reports_iff :
    (spec : ContractSpec) (fs : List Finding)
    → (found : List Finding) × (detect_cascading_layout_breaks spec fs ≡ fs ++ found)
      × ((r d : String)
          → (is_reported (d, r) found ≡ true) ↔ (HasCritical fs r × IsEmbedded spec r d))
detect_cascading-reports_iff spec fs =
    let (found, e, iff) = detect_cascading-IsBroken spec fs in
    (
      found,
      e,
      λ r d. (
        (λ k.
            let (m, reach) = (iff r d).0 k in
            (broken-HasCritical fs r m, Reaches-IsEmbedded spec r d reach)),
        (λ k. (iff r d).1 (HasCritical-broken fs r k.0, IsEmbedded-Reaches spec r d k.1)),
      ),
    )

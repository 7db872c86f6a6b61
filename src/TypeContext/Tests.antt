-- ===== src/TypeContext/Tests.antt =====
-- A registry with an optional, and what its types mean.
use nib_lang.Base.{
  ℕ, Bool, true, false, [], ◌∷◌, none, some, ◌≡◌, ◌≢◌, refl, ap, ◌⊎◌, inl, inr, ◌==◌, if◌then◌else◌,
  arith, Bool-cases, Option-cases,
}
use nib_lang.Types.{
  TypeVariant, union_type, struct_type, template_variable_type, placeholder_type, built_in_type,
  optional_type, TypeRegistry, new_type_registry, built_in_entry, find_key,
}
use nib_lang.TypeContext.{
  StructSymbol, variant_of, target_of, follow_alias, subset_of_variants, is_type_subset_of,
  contains, are_disjoint_types,
}
use nib_lang.TypeContext.Subset.{IsMeaning, IsSettled, is_type_subset_of-Below}
use nib_lang.TypeContext.Union.{
  set_of, set_insert, all_members, members_of, keep_if, flatten_subtypes_union, is_absorbed, any_of,
  normalize, get_union_of,
}
use nib_lang.TypeContext.Order.{get_union_of_same}
use nib_lang.Types.Intern.{IsRegistry, Known}
use nib_lang.TypeContext.Made.{MakesUnion, get_union_of-MakesUnion}
use nib_lang.TypeContext.Normal.{are_disjoint_types_comm}
use nib_lang.TypeContext.Ends.{IsAcyclic, is_type_subset_of-ends}

-- `i32`, `Nil` and `i32?`.
abbrev registry : TypeRegistry
registry = record new_type_registry {
  type_table =
      (10, record built_in_entry { variant = optional_type 2 })
      ∷ (2, built_in_entry)
      ∷ (8, built_in_entry)
      ∷ [];
}

abbrev structs : ℕ → StructSymbol
structs id = record { is_interface = false; interface_types = [] }

subset_runs : is_type_subset_of 3 structs registry 2 10 ≡ some true
unfolding is_type_subset_of follow_alias target_of variant_of find_key subset_of_variants
subset_runs = refl

superset_runs : is_type_subset_of 3 structs registry 10 2 ≡ some false
unfolding is_type_subset_of follow_alias target_of variant_of find_key subset_of_variants
superset_runs = refl

-- The entries of the registry.
abbrev Entry : ℕ → TypeVariant → Type 0
Entry id v =
    ((id ≡ 10) × (v ≡ optional_type 2))
    ⊎ (((id ≡ 2) × (v ≡ built_in_type)) ⊎ ((id ≡ 8) × (v ≡ built_in_type)))

entry : (id : ℕ) (v : TypeVariant) → variant_of registry id ≡ some v → Entry id v
unfolding variant_of find_key
entry id v h = elim (Bool-cases (10 == id)) [
  | inl e ↦
      let same : id ≡ 10 = ground arith in
      let k : variant_of registry id ≡ some (optional_type 2) = rw same refl in
      inl (same, cc (h, k))
  | inr e ↦ elim (Bool-cases (2 == id)) [
    | inl f ↦
        let same : id ≡ 2 = ground arith in
        let k : variant_of registry id ≡ some built_in_type = rw same refl in
        inr (inl (same, cc (h, k)))
    | inr f ↦ elim (Bool-cases (8 == id)) [
      | inl g ↦
          let same : id ≡ 8 = ground arith in
          let k : variant_of registry id ≡ some built_in_type = rw same refl in
          inr (inr (same, cc (h, k)))
      | inr g ↦
          let k : variant_of registry id ≡ none = rw (e, f, g, find_key, variant_of) refl in
          cc (h, k)
    ]
  ]
]

-- An entry that is no optional is a built-in type.
no_other :
    (id : ℕ) (v : TypeVariant)
    → v ≢ optional_type 2
    → v ≢ built_in_type
    → variant_of registry id ≡ some v
    → ⊥
no_other id v a b h = elim (entry id v h) [
  | inl (e, f) ↦ a f
  | inr (inl (e, f)) ↦ b f
  | inr (inr (e, f)) ↦ b f
]

no_target : (id target : ℕ) → target_of registry id ≡ some target → ⊥
unfolding target_of
no_target id target h = elim (Option-cases (variant_of registry id)) [
  | inl e ↦ cc (rw (e, target_of) at h)
  | inr (v, e) ↦ elim (entry id v e) [
    | inl (i, f) ↦ let k = rw f at e in cc (rw (k, target_of) at h)
    | inr (inl (i, f)) ↦ let k = rw f at e in cc (rw (k, target_of) at h)
    | inr (inr (i, f)) ↦ let k = rw f at e in cc (rw (k, target_of) at h)
  ]
]

-- The value `true` is nil, `false` a number.
abbrev Means : ℕ → Bool → Type 0
Means id v =
    if id == 8
    then v ≡ true
    else if id == 2
    then v ≡ false
    else if id == 10
    then Unit
    else if id == 6
    then Unit
    else ⊥

wrapped_is : (id w : ℕ) → variant_of registry id ≡ some (optional_type w) → (id ≡ 10) × (w ≡ 2)
wrapped_is id w h = elim (entry id (optional_type w) h) [
  | inl (e, f) ↦ (e, ap wrapped f)
  | inr (inl (e, f)) ↦ cc
  | inr (inr (e, f)) ↦ cc
]
  where
    wrapped : TypeVariant → ℕ
    wrapped (optional_type x) = x
    wrapped _ = 0

either : (v : Bool) → Means 8 v ⊎ Means 2 v
either true = inl refl
either false = inr refl

meaning : IsMeaning Bool structs registry Means
meaning = record {
  alias_to = λ id t h. absurd (no_target id t h);
  alias_from = λ id t h. absurd (no_target id t h);
  never_empty = λ v m. m;
  error_empty = λ v m. m;
  any_full = λ v. tt;
  union_member = λ id xs h. absurd (no_other id (union_type xs) (cc) (cc) h);
  member_union = λ id xs h. absurd (no_other id (union_type xs) (cc) (cc) h);
  optional_of = λ id w h v m. let (e, f) = wrapped_is id w h in rw f (either v);
  nil_optional = λ id w h v m. let (e, f) = wrapped_is id w h in rw e tt;
  wrapped_optional = λ id w h v m. let (e, f) = wrapped_is id w h in rw e tt;
  implements = λ id x i ts h. absurd (no_other id (struct_type x ts) (cc) (cc) h);
  constrained =
      λ id {name} t h. absurd (no_other id (template_variable_type name (some t)) (cc) (cc) h);
}

settled : IsSettled registry
settled = record {
  no_placeholder = λ id i h. no_other id (placeholder_type i) (cc) (cc) h;
  no_error_alias = λ id t h. absurd (no_target id t h);
  no_error_optional = λ id w h z. let (e, f) = wrapped_is id w h in cc;
}

is_type_subset_of-Below_example : Means 10 false
is_type_subset_of-Below_example =
    is_type_subset_of-Below Bool structs registry Means meaning settled 3 2 10 subset_runs (λ e. cc)
      false refl

-- The optional above what it wraps.
abbrev rank : ℕ → ℕ
rank id = if id == 10 then 1 else 0

acyclic : IsAcyclic registry rank
unfolding variant_of find_key
acyclic = record {
  alias_rank = λ id t h. absurd (no_target id t h);
  optional_rank =
      λ id w h. let (e, f) = wrapped_is id w h in rw (e, f) (omega arith, (built_in_type, refl));
}

is_type_subset_of-ends_example : (t : Bool) × (is_type_subset_of 3 structs registry 2 10 ≡ some t)
unfolding variant_of find_key
is_type_subset_of-ends_example =
    is_type_subset_of-ends structs registry rank acyclic 3 2 10 (omega arith) (built_in_type, refl)
      (optional_type 2, refl)

-- `f32 | i32? | i32` and `i32? | f32`.
same_members : (t : ℕ) → contains t (3 ∷ 10 ∷ 10 ∷ []) ≡ contains t (10 ∷ 3 ∷ [])
unfolding contains
same_members t = elim (Bool-cases (t == 3)) [
  | inl e ↦ elim (Bool-cases (t == 10)) [ inl f ↦ rw (e, f) refl | inr f ↦ rw (e, f) refl ]
  | inr e ↦ elim (Bool-cases (t == 10)) [ inl f ↦ rw (e, f) refl | inr f ↦ rw (e, f) refl ]
]

get_union_of_same_example :
    get_union_of structs (3 ∷ 10 ∷ 10 ∷ []) registry ≡ get_union_of structs (10 ∷ 3 ∷ []) registry
get_union_of_same_example =
    get_union_of_same structs registry (3 ∷ 10 ∷ 10 ∷ []) (10 ∷ 3 ∷ []) same_members

normalizes : normalize structs registry (3 ∷ 10 ∷ 7 ∷ []) ≡ (2 ∷ 3 ∷ [], true)
unfolding normalize set_of set_insert all_members members_of keep_if flatten_subtypes_union
    is_absorbed any_of variant_of find_key contains
normalizes = refl

-- The same registry, with its own count of identities.
abbrev counted : TypeRegistry
counted = record registry { next_type_id = 11 }

counted-IsRegistry : IsRegistry counted
counted-IsRegistry = record {
  below = (omega arith, (omega arith, (omega arith, tt)));
  unions = tt;
  intersections = tt;
  optionals = tt;
  placeholders = tt;
}

listed : all_members counted (3 ∷ 10 ∷ 7 ∷ []) ≡ 3 ∷ 2 ∷ 8 ∷ 7 ∷ []
unfolding all_members members_of variant_of find_key
listed = refl

listed-Known : Known (all_members counted (3 ∷ 10 ∷ 7 ∷ [])) counted
listed-Known = rw listed (omega arith, (omega arith, (omega arith, (omega arith, tt))))

get_union_of-MakesUnion_example : MakesUnion structs (3 ∷ 10 ∷ 7 ∷ []) counted
get_union_of-MakesUnion_example =
    get_union_of-MakesUnion structs (3 ∷ 10 ∷ 7 ∷ []) counted counted-IsRegistry listed-Known

are_disjoint_types_comm_example :
    are_disjoint_types structs registry 2 10 ≡ are_disjoint_types structs registry 10 2
are_disjoint_types_comm_example = are_disjoint_types_comm structs registry 2 10

-- ===== src/TypeContext/Union.antt =====
-- `GetUnionOf` and `FlattenSubtypesUnion`. A `std::set` is a list in order, without repetition.
use nib_lang.Base.{
  ℕ, Bool, true, false, not, ◌&&◌, List, [], ◌∷◌, ◌++◌, some, ◌==◌, ltb, if◌then◌else◌,
}
use nib_lang.Types.{
  intersection_type, optional_type, struct_type, union_type, TypeRegistry, new_union_type,
  new_optional_type,
}
use nib_lang.TypeContext.{StructSymbol, never_type, nil_type, variant_of, contains}

-- `set.insert(id)`
unfoldable pub set_insert : ℕ → List ℕ → List ℕ
set_insert id [] = id ∷ []
set_insert id (x ∷ xs) =
    let rest = set_insert id xs in
    if ltb id x then id ∷ x ∷ xs else if id == x then x ∷ xs else x ∷ rest

unfoldable pub set_of : List ℕ → List ℕ
unfolding set_insert
set_of [] = []
set_of (x ∷ xs) = set_insert x (set_of xs)

-- What an argument of `GetUnionOf` adds to the set.
unfoldable pub members_of : TypeRegistry → ℕ → List ℕ
members_of r id = elim (variant_of r id) [
  | some (union_type xs) ↦ xs
  | some (optional_type w) ↦ w ∷ nil_type ∷ []
  | _ ↦ id ∷ []
]

unfoldable pub all_members : TypeRegistry → List ℕ → List ℕ
unfolding members_of
all_members r [] = []
all_members r (id ∷ ids) = members_of r id ++ all_members r ids

-- `std::erase_if`, by what is kept.
unfoldable pub keep_if : (ℕ → Bool) → List ℕ → List ℕ
keep_if keep [] = []
keep_if keep (x ∷ xs) = let rest = keep_if keep xs in if keep x then x ∷ rest else rest

unfoldable pub any_of : (ℕ → Bool) → List ℕ → Bool
any_of test [] = false
any_of test (x ∷ xs) = if test x then true else any_of test xs

abbrev pub is_intersection : TypeRegistry → ℕ → Bool
is_intersection r id = elim (variant_of r id) [ some (intersection_type xs) ↦ true | _ ↦ false ]

-- `FlattenSubtypesUnion` removes an intersection with a component in the set, and a struct with one
-- of its interfaces in the set.
unfoldable pub is_absorbed : (ℕ → StructSymbol) → TypeRegistry → List ℕ → ℕ → Bool
unfolding any_of
is_absorbed s r types id = elim (variant_of r id) [
  | some (intersection_type xs) ↦ any_of (λ c. contains c types && not (is_intersection r c)) xs
  | some (struct_type x _) ↦
      any_of (λ other. not (id == other) && contains other (s x).interface_types) types
  | _ ↦ false
]

unfoldable pub flatten_subtypes_union : (ℕ → StructSymbol) → TypeRegistry → List ℕ → List ℕ
unfolding keep_if is_absorbed
flatten_subtypes_union s r types = keep_if (λ id. not (is_absorbed s r types id)) types

-- The set of the normalized members, flattened, and whether nil was among them.
unfoldable pub normalize : (ℕ → StructSymbol) → TypeRegistry → List ℕ → List ℕ × Bool
unfolding set_of all_members flatten_subtypes_union keep_if
normalize s r types =
    let normalized = keep_if (λ id. not (id == never_type)) (set_of (all_members r types)) in
    (
      flatten_subtypes_union s r (keep_if (λ id. not (id == nil_type)) normalized),
      contains nil_type normalized,
    )

unfoldable pub wrap : Bool → ℕ → TypeRegistry → ℕ × TypeRegistry
unfolding new_optional_type
wrap wrap_in_optional id r = elim wrap_in_optional [
  | true ↦ new_optional_type id r
  | false ↦ (id, r)
]

-- The type of a normalized set.
unfoldable pub union_of_set : List ℕ × Bool → TypeRegistry → ℕ × TypeRegistry
unfolding wrap
union_of_set ([], wrap_in_optional) r = (if wrap_in_optional then nil_type else never_type, r)
union_of_set (x ∷ [], wrap_in_optional) r = wrap wrap_in_optional x r
union_of_set (x ∷ y ∷ xs, wrap_in_optional) r =
    let (id, q) = new_union_type (x ∷ y ∷ xs) r in wrap wrap_in_optional id q

-- `GetUnionOf`
unfoldable pub get_union_of : (ℕ → StructSymbol) → List ℕ → TypeRegistry → ℕ × TypeRegistry
unfolding normalize union_of_set
get_union_of s types r = union_of_set (normalize s r types) r

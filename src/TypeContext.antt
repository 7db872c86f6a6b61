-- ===== src/TypeContext.antt =====
-- compiler/type_context.h and compiler/type_context.cc: which types are subsets of others, which are
-- disjoint, and unions in normal form. The symbols of structs are a function of their identities.
pub mod Subset
pub mod Ends
pub mod Union
pub mod Order
pub mod Normal
pub mod Made
mod Tests
use nib_lang.Base.{
  ℕ, zero, suc, Bool, true, false, not, ◌&&◌, ◌||◌, List, [], ◌∷◌, Option, none, some, ◌==◌, ltb,
  if◌then◌else◌, ◌>>=◌,
}
use nib_lang.Types.{
  TypeVariant, alias_type, intersection_type, optional_type, placeholder_type, struct_type,
  template_variable_type, union_type, TypeEntry, TypeRegistry, find_key, same_id, new_union_type,
  new_optional_type, SpannedType,
}

-- `StructSymbol`, the part that is asked for here.
pub record StructSymbol : Type 0 where
  pub is_interface : Bool
  pub interface_types : List ℕ

-- `LiteralType`
abbrev pub error_type : ℕ
error_type = 0

abbrev pub any_type : ℕ
any_type = 6

abbrev pub never_type : ℕ
never_type = 7

abbrev pub nil_type : ℕ
nil_type = 8

-- `type_table().at(id).variant`; `none` throws.
unfoldable pub variant_of : TypeRegistry → ℕ → Option TypeVariant
variant_of r id = elim (find_key same_id id r.type_table) [ none ↦ none | some e ↦ some e.variant ]

-- `std::ranges::find`, and `std::binary_search` of members, which are in order.
unfoldable pub contains : ℕ → List ℕ → Bool
contains id [] = false
contains id (x ∷ xs) = id == x || contains id xs

unfoldable pub contains_all : List ℕ → List ℕ → Bool
contains_all [] ys = true
contains_all (x ∷ xs) ys = contains x ys && contains_all xs ys

-- The target of an alias.
unfoldable pub target_of : TypeRegistry → ℕ → Option ℕ
target_of r id = elim (variant_of r id) [ some (alias_type name target) ↦ some target | _ ↦ none ]

unfoldable pub follow_alias : ℕ → TypeRegistry → ℕ → Option ℕ
follow_alias zero r id = none
follow_alias (suc n) r id = elim (target_of r id) [
  | none ↦ some id
  | some target ↦ follow_alias n r target
]

-- The cases of `IsTypeSubsetOf` behind the comparisons of identities, with `again` for its calls of
-- itself.
unfoldable pub subset_of_variants :
    (ℕ → ℕ → Option Bool) → (ℕ → StructSymbol) → ℕ → ℕ → TypeVariant → TypeVariant → Option Bool
subset_of_variants again s sub super (union_type xs) (union_type ys) = some (contains_all xs ys)
subset_of_variants again s sub super (union_type xs) _ = some false
subset_of_variants again s sub super _ (union_type ys) = some (contains sub ys)
subset_of_variants again s sub super (optional_type x) (optional_type y) =
    if sub == nil_type then some true else again x y
subset_of_variants again s sub super _ (optional_type y) =
    if sub == nil_type then some true else again sub y
subset_of_variants again s sub super (struct_type x _) (struct_type y _) = some (
    if not (s x).is_interface && (s y).is_interface
    then contains super (s x).interface_types
    else false)
subset_of_variants again s sub super (template_variable_type _ none) (struct_type y _) = some false
subset_of_variants again s sub super (template_variable_type _ (some t)) (struct_type y _) =
    some (if (s y).is_interface then t.type_id == super else false)
subset_of_variants again s sub super (placeholder_type _) _ = some true
subset_of_variants again s sub super _ _ = some false

-- `IsTypeSubsetOf` with `n` rounds for itself and for each chain of aliases.
unfoldable pub is_type_subset_of : ℕ → (ℕ → StructSymbol) → TypeRegistry → ℕ → ℕ → Option Bool
unfolding subset_of_variants follow_alias variant_of
is_type_subset_of zero s r a b = none
is_type_subset_of (suc n) s r a b =
    let again = λ (x y : ℕ). is_type_subset_of n s r x y in
    if a == b then some true else do
      sub ← follow_alias (suc n) r a
      super ← follow_alias (suc n) r b
      if sub == super
            || (sub == never_type || super == any_type)
            || (sub == error_type || super == error_type)
          then some true
          else do
            v ← variant_of r sub
            w ← variant_of r super
            subset_of_variants again s sub super v w

-- `AreDisjointTypes`
unfoldable pub struct_symbol : (ℕ → StructSymbol) → TypeRegistry → ℕ → Option StructSymbol
struct_symbol s r id = elim (variant_of r id) [ some (struct_type x _) ↦ some (s x) | _ ↦ none ]

-- `first` is an interface that the struct `second` implements.
abbrev pub implemented_by : ℕ → Option StructSymbol → Option StructSymbol → Bool
implemented_by first (some x) (some y) = x.is_interface && contains first y.interface_types
implemented_by first _ _ = false

abbrev pub both_interfaces : Option StructSymbol → Option StructSymbol → Bool
both_interfaces (some x) (some y) = x.is_interface && y.is_interface
both_interfaces _ _ = false

unfoldable pub are_disjoint_types : (ℕ → StructSymbol) → TypeRegistry → ℕ → ℕ → Bool
unfolding struct_symbol
are_disjoint_types s r a b =
    let x = struct_symbol s r a in
    let y = struct_symbol s r b in
    if a == b
    then false
    else not (both_interfaces x y || (implemented_by a x y || implemented_by b y x))

-- ===== src/Types/Tests.antt =====
-- Interning at a new registry.
use nib_lang.Base.{ℕ, [], ◌∷◌, ◌≡◌, refl, arith}
use nib_lang.Types.{
  new_type_registry, union_type, intersection_type, optional_type, placeholder_type, find_key,
  emplace, member, insert_all, touch_all, append_variables_from, new_type_id, add_entry, same_ids,
  new_union_type, new_intersection_type, new_optional_type, new_placeholder_type,
}
use nib_lang.Types.Intern.{IsRegistry, InternsOnce}
use nib_lang.Types.Members.{new_union_type-InternsOnce, new_intersection_type-InternsOnce}
use nib_lang.Types.Single.{new_optional_type-InternsOnce, new_placeholder_type-InternsOnce}

new-IsRegistry : IsRegistry new_type_registry
new-IsRegistry = record {
  below = (
    omega arith,
    (
      omega arith,
      (
        omega arith,
        (
          omega arith,
          (
            omega arith,
            (omega arith, (omega arith, (omega arith, (omega arith, (omega arith, tt))))),
          ),
        ),
      ),
    ),
  );
  unions = tt;
  intersections = tt;
  optionals = tt;
  placeholders = tt;
}

-- `i32 | f32`, then `f32 | i32`, then the first again.
abbrev three_unions : ℕ × ℕ × ℕ
three_unions =
    let (a, r) = new_union_type (2 ∷ 3 ∷ []) new_type_registry in
    let (b, q) = new_union_type (3 ∷ 2 ∷ []) r in
    let (c, t) = new_union_type (2 ∷ 3 ∷ []) q in (a, b, c)

unions : three_unions ≡ (10, 11, 10)
unfolding find_key emplace member insert_all touch_all append_variables_from new_type_id add_entry
    same_ids new_union_type
unions = refl

new_union_type-InternsOnce_example :
    InternsOnce (new_union_type (2 ∷ 3 ∷ [])) (union_type (2 ∷ 3 ∷ [])) new_type_registry
new_union_type-InternsOnce_example =
    new_union_type-InternsOnce (2 ∷ 3 ∷ []) new_type_registry new-IsRegistry
      (omega arith, (omega arith, tt))

new_intersection_type-InternsOnce_example :
    InternsOnce
      (new_intersection_type (2 ∷ 3 ∷ []))
      (intersection_type (2 ∷ 3 ∷ []))
      new_type_registry
new_intersection_type-InternsOnce_example =
    new_intersection_type-InternsOnce (2 ∷ 3 ∷ []) new_type_registry new-IsRegistry
      (omega arith, (omega arith, tt))

new_optional_type-InternsOnce_example :
    InternsOnce (new_optional_type 2) (optional_type 2) new_type_registry
new_optional_type-InternsOnce_example =
    new_optional_type-InternsOnce 2 new_type_registry new-IsRegistry (omega arith)

new_placeholder_type-InternsOnce_example :
    InternsOnce (new_placeholder_type 0) (placeholder_type 0) new_type_registry
new_placeholder_type-InternsOnce_example =
    new_placeholder_type-InternsOnce 0 new_type_registry new-IsRegistry

-- ===== src/Types/Members.antt =====
-- Interning of the types that are a list of members.
use nib_lang.Base.{ℕ, List, ◌∷◌, refl, inl, inr, Option-cases}
use nib_lang.Types.{
  union_type, intersection_type, TypeRegistry, find_key, same_ids, touch_all, new_type_id,
  add_entry, entry_over, new_union_type, new_intersection_type,
}
use nib_lang.Types.Table.{touch_all-Touched, add_entry-Added}
use nib_lang.Types.Intern.{
  IsRegistry, Known, InternsOnce, found-Interns, touch_all-IsRegistry, add_entry-IsRegistry,
  find_key-new, same_ids_refl, same_ids-eq, Interned-found,
}

-- The identity that is given to a union is one of the table with this union, whether it is new or
-- not; it is given again when the union is interned once more; every identity of before keeps its
-- type, and the registry stays consistent. The members have identities of the registry.
pub new_union_type-InternsOnce :
    (types : List ℕ) (r : TypeRegistry)
    → IsRegistry r
    → Known types r
    → InternsOnce (new_union_type types) (union_type types) r
unfolding new_union_type add_entry new_type_id
new_union_type-InternsOnce types r g k =
    elim (Option-cases (find_key same_ids types r.interned_union_type)) [
      | inr (id, e) ↦ (
        id,
        r,
        rw (e, new_union_type) refl,
        found-Interns (union_type types) id r g (
            Interned-found union_type same_ids types r.interned_union_type r id same_ids-eq g.unions
              e),
        rw (e, new_union_type) refl,
      )
      | inl e ↦
          let touched = touch_all-Touched types r g.below k in
          let t = touch_all types r in
          let entry = entry_over (union_type types) types t in
          let a = add_entry-Added entry t touched.below in
          let h = add_entry-IsRegistry entry t (touch_all-IsRegistry types r g k) in
          let id = (add_entry entry t).0 in
          let q = (add_entry entry t).1 in
          let map = (types, id) ∷ q.interned_union_type in
          (
            id,
            record q { interned_union_type = map },
            rw (e, new_union_type) refl,
            record {
              registry = record {
                below = h.below;
                unions = ((entry, a.found, refl), h.unions);
                intersections = h.intersections;
                optionals = h.optionals;
                placeholders = h.placeholders;
              };
              entry = entry;
              found = a.found;
              variant_eq = refl;
              keeps = λ i x y. a.keeps i x (touched.keeps i x y);
            },
            rw
                (
                  find_key-new same_ids types id q.interned_union_type (same_ids_refl types),
                  new_union_type,
                )
                refl,
          )
    ]

-- The identity that is given to an intersection is one of the table with this intersection, whether it is new or
-- not; it is given again when the intersection is interned once more; every identity of before keeps its
-- type, and the registry stays consistent. The members have identities of the registry.
pub new_intersection_type-InternsOnce :
    (types : List ℕ) (r : TypeRegistry)
    → IsRegistry r
    → Known types r
    → InternsOnce (new_intersection_type types) (intersection_type types) r
unfolding new_intersection_type add_entry new_type_id
new_intersection_type-InternsOnce types r g k =
    elim (Option-cases (find_key same_ids types r.interned_intersection_type)) [
      | inr (id, e) ↦ (
        id,
        r,
        rw (e, new_intersection_type) refl,
        found-Interns (intersection_type types) id r g (
            Interned-found intersection_type same_ids types r.interned_intersection_type r id
              same_ids-eq g.intersections e),
        rw (e, new_intersection_type) refl,
      )
      | inl e ↦
          let touched = touch_all-Touched types r g.below k in
          let t = touch_all types r in
          let entry = entry_over (intersection_type types) types t in
          let a = add_entry-Added entry t touched.below in
          let h = add_entry-IsRegistry entry t (touch_all-IsRegistry types r g k) in
          let id = (add_entry entry t).0 in
          let q = (add_entry entry t).1 in
          let map = (types, id) ∷ q.interned_intersection_type in
          (
            id,
            record q { interned_intersection_type = map },
            rw (e, new_intersection_type) refl,
            record {
              registry = record {
                below = h.below;
                unions = h.unions;
                intersections = ((entry, a.found, refl), h.intersections);
                optionals = h.optionals;
                placeholders = h.placeholders;
              };
              entry = entry;
              found = a.found;
              variant_eq = refl;
              keeps = λ i x y. a.keeps i x (touched.keeps i x y);
            },
            rw
                (
                  find_key-new same_ids types id q.interned_intersection_type (same_ids_refl types),
                  new_intersection_type,
                )
                refl,
          )
    ]

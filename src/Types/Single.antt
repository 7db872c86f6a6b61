-- ===== src/Types/Single.antt =====
-- Interning of optionals and placeholders.
use nib_lang.Base.{ℕ, ◌<◌, true, [], ◌∷◌, ◌≡◌, refl, inl, inr, arith, Option-cases}
use nib_lang.Types.{
  optional_type, placeholder_type, TypeEntry, TypeRegistry, find_key, same_id, touch, default_entry,
  new_type_id, add_entry, entry_like, new_optional_type, new_placeholder_type,
}
use nib_lang.Types.Table.{add_entry-Added, emplaced-keeps}
use nib_lang.Types.Intern.{
  IsRegistry, InternsOnce, found-Interns, touch-IsRegistry, add_entry-IsRegistry, find_key-new,
  same_id-eq, Interned-found,
}

same_id_refl : (a : ℕ) → same_id a a ≡ true
same_id_refl a = ground arith

-- The identity that is given to the optional of a type of the registry is one of the table with this
-- optional, whether it is new or not; it is given again when the optional is interned once more;
-- every identity of before keeps its type, and the registry stays consistent.
pub new_optional_type-InternsOnce :
    (wrapped : ℕ) (r : TypeRegistry)
    → IsRegistry r
    → wrapped < r.next_type_id
    → InternsOnce (new_optional_type wrapped) (optional_type wrapped) r
unfolding new_optional_type add_entry new_type_id
new_optional_type-InternsOnce wrapped r g k =
    elim (Option-cases (find_key same_id wrapped r.interned_optional_type)) [
      | inr (id, e) ↦ (
        id,
        r,
        rw (e, new_optional_type) refl,
        found-Interns (optional_type wrapped) id r g (
            Interned-found optional_type same_id wrapped r.interned_optional_type r id same_id-eq
              g.optionals e),
        rw (e, new_optional_type) refl,
      )
      | inl e ↦
          let t = touch wrapped r in
          let gt = touch-IsRegistry wrapped r g k in
          let entry = entry_like (optional_type wrapped) wrapped t in
          let a = add_entry-Added entry t gt.below in
          let h = add_entry-IsRegistry entry t gt in
          let id = (add_entry entry t).0 in
          let q = (add_entry entry t).1 in
          let map = (wrapped, id) ∷ q.interned_optional_type in
          (
            id,
            record q { interned_optional_type = map },
            rw (e, new_optional_type) refl,
            record {
              registry = record {
                below = h.below;
                unions = h.unions;
                intersections = h.intersections;
                optionals = ((entry, a.found, refl), h.optionals);
                placeholders = h.placeholders;
              };
              entry = entry;
              found = a.found;
              variant_eq = refl;
              keeps =
                  λ i x y. a.keeps i x (emplaced-keeps wrapped default_entry r.type_table i x y);
            },
            rw
                (
                  find_key-new same_id wrapped id q.interned_optional_type (same_id_refl wrapped),
                  new_optional_type,
                )
                refl,
          )
    ]

-- The identity that is given to the placeholder of a position is one of the table with this
-- placeholder, whether it is new or not; it is given again when the placeholder is interned once
-- more; every identity of before keeps its type, and the registry stays consistent.
pub new_placeholder_type-InternsOnce :
    (idx : ℕ) (r : TypeRegistry)
    → IsRegistry r
    → InternsOnce (new_placeholder_type idx) (placeholder_type idx) r
unfolding new_placeholder_type add_entry new_type_id
new_placeholder_type-InternsOnce idx r g =
    elim (Option-cases (find_key same_id idx r.interned_placeholder_type)) [
      | inr (id, e) ↦ (
        id,
        r,
        rw (e, new_placeholder_type) refl,
        found-Interns (placeholder_type idx) id r g (
            Interned-found placeholder_type same_id idx r.interned_placeholder_type r id same_id-eq
              g.placeholders e),
        rw (e, new_placeholder_type) refl,
      )
      | inl e ↦
          let entry : TypeEntry = record {
            variant = placeholder_type idx;
            template_variable_types = [];
            placeholder_types = r.next_type_id ∷ [];
          } in
          let a = add_entry-Added entry r g.below in
          let h = add_entry-IsRegistry entry r g in
          let id = (add_entry entry r).0 in
          let q = (add_entry entry r).1 in
          let map = (idx, id) ∷ q.interned_placeholder_type in
          (
            id,
            record q { interned_placeholder_type = map },
            rw (e, new_placeholder_type) refl,
            record {
              registry = record {
                below = h.below;
                unions = h.unions;
                intersections = h.intersections;
                optionals = h.optionals;
                placeholders = ((entry, a.found, refl), h.placeholders);
              };
              entry = entry;
              found = a.found;
              variant_eq = refl;
              keeps = a.keeps;
            },
            rw
                (
                  find_key-new same_id idx id q.interned_placeholder_type (same_id_refl idx),
                  new_placeholder_type,
                )
                refl,
          )
    ]

-- ===== src/TypeContext/Made.antt =====
-- The type that `GetUnionOf` of compiler/type_context.cc makes.
use mathlib.Core.Path.{subst}
use nib_lang.Base.{
  ℕ, ◌<◌, Bool, true, false, not, ◌&&◌, List, [], ◌∷◌, some, ◌≡◌, refl, ◌∙◌, arith, ◌==◌,
  Bool-cases, Option-cases, All, inl, inr, ap,
}
use nib_lang.Types.{
  TypeVariant, union_type, optional_type, TypeEntry, TypeRegistry, find_key, same_id,
}
use nib_lang.Types.Table.{lookup, Keeps}
use nib_lang.Types.Intern.{IsRegistry, Interns, Known}
use nib_lang.Types.Members.{new_union_type-InternsOnce}
use nib_lang.Types.Single.{new_optional_type-InternsOnce}
use nib_lang.TypeContext.{StructSymbol, never_type, nil_type, variant_of, contains}
use nib_lang.TypeContext.Union.{
  set_of, all_members, keep_if, is_absorbed, flatten_subtypes_union, normalize, wrap, union_of_set,
  get_union_of,
}
use nib_lang.TypeContext.Order.{contains-set_of, All-set_insert}
use nib_lang.TypeContext.Normal.{IsNormal, normalize-IsNormal, contains-keep_if, All-keep_if}

-- The type of one member, or the interned union of several.
pub data Inner (q : TypeRegistry) : List ℕ → ℕ → Type 0 where
  single : (x : ℕ) → Inner q (x ∷ []) x
  several :
      {x y id : ℕ} {xs : List ℕ}
      → variant_of q id ≡ some (union_type (x ∷ y ∷ xs))
      → Inner q (x ∷ y ∷ xs) id

-- The type `t` of the members, in a registry; an optional if nil is one of the arguments' members.
pub data Made (q : TypeRegistry) : List ℕ → Bool → ℕ → Type 0 where
  nothing : Made q [] false never_type
  only_nil : Made q [] true nil_type
  plain : {x t : ℕ} {xs : List ℕ} → Inner q (x ∷ xs) t → Made q (x ∷ xs) false t
  optional :
      {x t inner : ℕ} {xs : List ℕ}
      → Inner q (x ∷ xs) inner
      → variant_of q t ≡ some (optional_type inner)
      → Made q (x ∷ xs) true t

-- What `GetUnionOf` ends with: the values that the arguments list, without `Never` and nil; those of
-- them that no other absorbs; the type that is made of these; and the registry, which has it.
pub record MakesUnion (s : ℕ → StructSymbol) (types : List ℕ) (r : TypeRegistry) : Type 0 where
  pub values : List ℕ
  pub members : List ℕ
  pub made : ℕ
  pub after : TypeRegistry
  pub result : get_union_of s types r ≡ (made, after)
  pub registry : IsRegistry after
  pub keeps : Keeps r after
  pub normal : IsNormal members
  pub are_values :
      (z : ℕ)
      → contains z values
        ≡ (not (z == nil_type) && (not (z == never_type) && contains z (all_members r types)))
  pub are_members :
      (z : ℕ) → contains z members ≡ (not (is_absorbed s r values z) && contains z values)
  pub type_eq : Made after members (contains nil_type (all_members r types)) made

interned_variant :
    {variant : TypeVariant} {id : ℕ} {r q : TypeRegistry}
    → Interns variant id r q
    → variant_of q id ≡ some variant
unfolding variant_of
interned_variant {variant} {id} {q} i = rw (variant_of, i.found) (rw i.variant_eq refl)

below_next :
    (id next : ℕ) (e : TypeEntry) (table : List (ℕ × TypeEntry))
    → All (λ (e : ℕ × TypeEntry). e.0 < next) table
    → find_key same_id id table ≡ some e
    → id < next
unfolding find_key
below_next id next e [] a h = cc
below_next id next e ((k, x) ∷ table) (b, a) h = elim (Bool-cases (k == id)) [
  | inl t ↦ ground arith
  | inr t ↦ below_next id next e table a (rw (t, find_key) at h)
]

interned_known :
    {variant : TypeVariant} {id : ℕ} {r q : TypeRegistry}
    → Interns variant id r q
    → id < q.next_type_id
interned_known {variant} {id} {r} {q} i =
    below_next id q.next_type_id i.entry q.type_table i.registry.below i.found

Keeps-variant :
    (r q : TypeRegistry) {v : TypeVariant} (id : ℕ)
    → Keeps r q
    → variant_of r id ≡ some v
    → variant_of q id ≡ some v
unfolding variant_of
Keeps-variant r q {v} id k h = elim (Option-cases (lookup id r)) [
  | inl e ↦ cc (rw (e, variant_of) at h)
  | inr (x, e) ↦ rw (variant_of, k id x e) (rw (variant_of, e) at h)
]

Inner-Keeps : (r q : TypeRegistry) {xs : List ℕ} {t : ℕ} → Keeps r q → Inner r xs t → Inner q xs t
Inner-Keeps r q k (single x) = single x
Inner-Keeps r q k (several {id} h) = several (Keeps-variant r q id k h)

All-set_of : (P : ℕ → Type 0) (xs : List ℕ) → All P xs → All P (set_of xs)
unfolding set_of
All-set_of P [] a = tt
All-set_of P (x ∷ xs) (p, a) = All-set_insert P x (set_of xs) p (All-set_of P xs a)

-- The end of `GetUnionOf` over the registry `r`.
record Ends (r : TypeRegistry) (ids : List ℕ) (nil : Bool) (end : ℕ × TypeRegistry) : Type 0 where
  registry : IsRegistry end.1
  keeps : Keeps r end.1
  type_eq : Made end.1 ids nil end.0

wrap-Ends :
    (r q : TypeRegistry) (x : ℕ) (xs : List ℕ) (nil : Bool) (inner : ℕ)
    → Keeps r q
    → IsRegistry q
    → Inner q (x ∷ xs) inner
    → inner < q.next_type_id
    → Ends r (x ∷ xs) nil (wrap nil inner q)
unfolding wrap
wrap-Ends r q x xs false inner k g i h = record { registry = g; keeps = k; type_eq = plain i }
wrap-Ends r q x xs true inner k g i h =
    let (id, p, e, o, again) = new_optional_type-InternsOnce inner q g h in
    let ends : Ends r (x ∷ xs) true (id, p) = record {
      registry = o.registry;
      keeps = λ j y f. o.keeps j y (k j y f);
      type_eq = optional (Inner-Keeps q p o.keeps i) (interned_variant o);
    } in
    rw e ends

union_of_set-Ends :
    (ids : List ℕ) (nil : Bool) (r : TypeRegistry)
    → IsRegistry r
    → Known ids r
    → Ends r ids nil (union_of_set (ids, nil) r)
unfolding union_of_set
union_of_set-Ends [] false r g k = record { registry = g; keeps = λ j y f. f; type_eq = nothing }
union_of_set-Ends [] true r g k = record { registry = g; keeps = λ j y f. f; type_eq = only_nil }
union_of_set-Ends (x ∷ []) nil r g (k, _) = wrap-Ends r r x [] nil x (λ j y f. f) g (single x) k
union_of_set-Ends (x ∷ y ∷ xs) nil r g k =
    let (id, q, e, u, again) = new_union_type-InternsOnce (x ∷ y ∷ xs) r g k in
    rw e (
      wrap-Ends r q x (y ∷ xs) nil id u.keeps u.registry (several (interned_variant u))
        (interned_known u))

-- `GetUnionOf`, whatever the arguments, if their members have identities of a registry that is
-- consistent. The type that it returns is that of a set of members: their union, the only one of
-- them, or `Never` where there is none; and the optional of this exactly when nil is an argument or a
-- member of one, but nil itself where there is no member. The set is in order, without repetition,
-- `Never` or nil, and has just the arguments' other members but those that `FlattenSubtypesUnion`
-- absorbs. The registry has the union and the optional under their identities, keeps what it had,
-- and is consistent.
pub get_union_of-MakesUnion :
    (s : ℕ → StructSymbol) (types : List ℕ) (r : TypeRegistry)
    → IsRegistry r
    → Known (all_members r types) r
    → MakesUnion s types r
unfolding get_union_of normalize flatten_subtypes_union
get_union_of-MakesUnion s types r g known =
    let all = set_of (all_members r types) in
    let some_values = keep_if (λ id. not (id == never_type)) all in
    let no_nils = keep_if (λ id. not (id == nil_type)) some_values in
    let keep = λ (id : ℕ). not (is_absorbed s r no_nils id) in
    let P = λ (i : ℕ). i < r.next_type_id in
    let set_known = All-keep_if P keep no_nils (
      All-keep_if P (λ id. not (id == nil_type)) some_values
        (All-keep_if P (λ id. not (id == never_type)) all
          (All-set_of P (all_members r types) known))) in
    let (normal, nil_eq) = normalize-IsNormal s r types in
    let ends =
      union_of_set-Ends (keep_if keep no_nils) (contains nil_type some_values) r g set_known in
    record {
      values = no_nils;
      members = keep_if keep no_nils;
      made = (get_union_of s types r).0;
      after = (get_union_of s types r).1;
      result = refl;
      registry = ends.registry;
      keeps = ends.keeps;
      normal = normal;
      are_values = λ z.
          contains-keep_if z (λ id. not (id == nil_type)) some_values
          ∙ ap (λ b. not (z == nil_type) && b)
              (contains-keep_if z (λ id. not (id == never_type)) all
                ∙ ap (λ b. not (z == never_type) && b) (contains-set_of z (all_members r types)));
      are_members = λ z. contains-keep_if z keep no_nils;
      type_eq =
          subst
            (λ b.
              Made (get_union_of s types r).1 (keep_if keep no_nils) b (get_union_of s types r).0)
            nil_eq ends.type_eq;
    }

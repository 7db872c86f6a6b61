-- ===== src/Types/Intern.antt =====
-- Interning: a type has one identity, and keeps it.
use nib_lang.Base.{
  ℕ, ◌<◌, Bool, true, false, ◌&&◌, List, [], ◌∷◌, some, ◌≡◌, refl, ap, sym, ◌∙◌, arith, ◌==◌, All,
}
use nib_lang.Types.{
  TypeVariant, union_type, intersection_type, optional_type, placeholder_type, TypeEntry,
  TypeRegistry, find_key, same_id, same_ids, touch, touch_all, default_entry, new_type_id,
  add_entry,
}
use nib_lang.Types.Table.{lookup, Below, Keeps, add_entry-Added, emplaced-keeps, emplaced-below}

-- The table has the type of every interned key under its identity.
abbrev pub Interned {ℓ} :
    {K : Type ℓ} → (K → TypeVariant) → List (K × ℕ) → List (ℕ × TypeEntry) → Type ℓ
Interned make [] table = Unit
Interned make ((k, id) ∷ map) table =
    ((e : TypeEntry) × (find_key same_id id table ≡ some e) × (e.variant ≡ make k))
    × Interned make map table

pub record IsRegistry (r : TypeRegistry) : Type 0 where
  pub below : Below r
  pub unions : Interned union_type r.interned_union_type r.type_table
  pub intersections : Interned intersection_type r.interned_intersection_type r.type_table
  pub optionals : Interned optional_type r.interned_optional_type r.type_table
  pub placeholders : Interned placeholder_type r.interned_placeholder_type r.type_table

Interned-Keeps :
    {K : Type 0} (make : K → TypeVariant) (map : List (K × ℕ)) (r q : TypeRegistry)
    → Keeps r q
    → Interned make map r.type_table
    → Interned make map q.type_table
Interned-Keeps make [] r q k i = tt
Interned-Keeps make ((key, id) ∷ map) r q k ((e, f, v), i) =
    ((e, k id e f, v), Interned-Keeps make map r q k i)

pub Interned-found :
    {K : Type 0} (make : K → TypeVariant) (same : K → K → Bool) (key : K) (map : List (K × ℕ))
    (r : TypeRegistry) (id : ℕ)
    → ((a b : K) → same a b ≡ true → a ≡ b)
    → Interned make map r.type_table
    → find_key same key map ≡ some id
    → (e : TypeEntry) × (lookup id r ≡ some e) × (e.variant ≡ make key)
unfolding find_key
Interned-found make same key [] r id s i h = cc
Interned-found make same key ((k, j) ∷ map) r id s ((e, f, v), i) h =
    go (same k key) refl h (Interned-found make same key map r id s i)
  where
    go :
        (b : Bool)
        → same k key ≡ b
        → (elim b [ true ↦ some j | false ↦ find_key same key map ]) ≡ some id
        → (find_key same key map ≡ some id
            → (e : TypeEntry) × (lookup id r ≡ some e) × (e.variant ≡ make key))
        → (e : TypeEntry) × (lookup id r ≡ some e) × (e.variant ≡ make key)
    go true t g rec =
        let at_id : j ≡ id = cc in
        (e, ap (λ (i : ℕ). lookup i r) (sym at_id) ∙ f, v ∙ ap make (s k key t))
    go false t g rec = rec g

pub same_id-eq : (a b : ℕ) → same_id a b ≡ true → a ≡ b
same_id-eq a b h = ground arith

both : (a b : Bool) → (a && b) ≡ true → (a ≡ true) × (b ≡ true)
both true b h = (refl, h)
both false b h = cc

pub same_ids-eq : (a b : List ℕ) → same_ids a b ≡ true → a ≡ b
unfolding same_ids
same_ids-eq [] [] h = refl
same_ids-eq [] (y ∷ ys) h = cc
same_ids-eq (x ∷ xs) [] h = cc
same_ids-eq (x ∷ xs) (y ∷ ys) h =
    let (e, t) = both (x == y) (same_ids xs ys) h in
    let head : x ≡ y = ground arith in let tail = same_ids-eq xs ys t in rw (head, tail)

pub same_ids_refl : (a : List ℕ) → same_ids a a ≡ true
unfolding same_ids
same_ids_refl [] = refl
same_ids_refl (x ∷ xs) = let head : (x == x) ≡ true = ground arith in rw (head, same_ids_refl xs)

pub find_key-new :
    {K : Type 0} (same : K → K → Bool) (key : K) (id : ℕ) (map : List (K × ℕ))
    → same key key ≡ true
    → find_key same key ((key, id) ∷ map) ≡ some id
unfolding find_key
find_key-new same key id map h = rw (h, find_key) refl

-- What interning the type `variant` under the identity `id` leaves.
pub record Interns (variant : TypeVariant) (id : ℕ) (r q : TypeRegistry) : Type 0 where
  pub registry : IsRegistry q
  pub entry : TypeEntry
  pub found : lookup id q ≡ some entry
  pub variant_eq : entry.variant ≡ variant
  pub keeps : Keeps r q

abbrev pub Known : List ℕ → TypeRegistry → Type 0
Known ids r = All (λ (i : ℕ). i < r.next_type_id) ids

pub found-Interns :
    (variant : TypeVariant) (id : ℕ) (r : TypeRegistry)
    → IsRegistry r
    → (e : TypeEntry) × (lookup id r ≡ some e) × (e.variant ≡ variant)
    → Interns variant id r r
found-Interns variant id r g (e, f, v) = record {
  registry = g;
  entry = e;
  found = f;
  variant_eq = v;
  keeps = λ i x h. h;
}

-- Interning ends with the type under the identity returned, and gives that identity again.
abbrev pub InternsOnce : (TypeRegistry → ℕ × TypeRegistry) → TypeVariant → TypeRegistry → Type 0
InternsOnce new variant r =
    (id : ℕ) × (q : TypeRegistry) × (new r ≡ (id, q)) × Interns variant id r q × (new q ≡ (id, q))

-- A registry whose maps are those of `r` and whose table keeps the entries of `r`.
kept-IsRegistry :
    (r q : TypeRegistry)
    → IsRegistry r
    → Keeps r q
    → Below q
    → IsRegistry (record r { type_table = q.type_table; next_type_id = q.next_type_id })
kept-IsRegistry r q g k b = record {
  below = b;
  unions = Interned-Keeps union_type r.interned_union_type r q k g.unions;
  intersections =
      Interned-Keeps intersection_type r.interned_intersection_type r q k g.intersections;
  optionals = Interned-Keeps optional_type r.interned_optional_type r q k g.optionals;
  placeholders = Interned-Keeps placeholder_type r.interned_placeholder_type r q k g.placeholders;
}

pub touch-IsRegistry :
    (id : ℕ) (r : TypeRegistry) → IsRegistry r → id < r.next_type_id → IsRegistry (touch id r)
touch-IsRegistry id r g h =
    kept-IsRegistry r (touch id r) g (λ i e k. emplaced-keeps id default_entry r.type_table i e k)
      (emplaced-below id r.next_type_id default_entry r.type_table g.below h)

pub touch_all-IsRegistry :
    (ids : List ℕ) (r : TypeRegistry) → IsRegistry r → Known ids r → IsRegistry (touch_all ids r)
unfolding touch_all
touch_all-IsRegistry [] r g k = g
touch_all-IsRegistry (id ∷ ids) r g (h, k) =
    touch_all-IsRegistry ids (touch id r) (touch-IsRegistry id r g h) k

pub add_entry-IsRegistry :
    (entry : TypeEntry) (r : TypeRegistry) → IsRegistry r → IsRegistry (add_entry entry r).1
unfolding add_entry new_type_id
add_entry-IsRegistry entry r g =
    let a = add_entry-Added entry r g.below in
    kept-IsRegistry r (add_entry entry r).1 g a.keeps a.below

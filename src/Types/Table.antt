-- ===== src/Types/Table.antt =====
-- The type table: entries stay, new identities are fresh.
use nib_lang.Base.{
  ℕ, suc, ◌≤◌, ◌<◌, true, false, List, [], ◌∷◌, Option, none, some, ◌≡◌, refl, ap, sym, ◌∙◌, inl,
  inr, arith, ◌==◌, All, Bool-cases, Option-cases,
}
use nib_lang.Types.{
  TypeEntry, TypeRegistry, find_key, same_id, emplace, default_entry, touch, touch_all, add_entry,
  new_type_id,
}

-- The entry of an identity, if it has one.
abbrev pub lookup : ℕ → TypeRegistry → Option TypeEntry
lookup id r = find_key same_id id r.type_table

-- Every identity of the table has been given out.
abbrev pub Below : TypeRegistry → Type 0
Below r = All (λ (e : ℕ × TypeEntry). e.0 < r.next_type_id) r.type_table

-- The entries of `r` are those of `q`, too.
abbrev pub Keeps : TypeRegistry → TypeRegistry → Type 0
Keeps r q = (id : ℕ) → (e : TypeEntry) → lookup id r ≡ some e → lookup id q ≡ some e

missing :
    (id n : ℕ) (table : List (ℕ × TypeEntry))
    → All (λ (e : ℕ × TypeEntry). e.0 < n) table
    → n ≤ id
    → find_key same_id id table ≡ none
unfolding find_key
missing id n [] a h = refl
missing id n ((k, v) ∷ table) (b, bs) h =
    let differ : (k == id) ≡ false = ground arith in rw (differ, find_key) (missing id n table bs h)

pub emplaced-keeps :
    (id : ℕ) (entry : TypeEntry) (table : List (ℕ × TypeEntry)) (j : ℕ) (e : TypeEntry)
    → find_key same_id j table ≡ some e
    → find_key same_id j (emplace id entry table) ≡ some e
unfolding emplace find_key
emplaced-keeps id entry table j e h = elim (Option-cases (find_key same_id id table)) [
  | inr (old, k) ↦ rw (k, emplace) h
  | inl k ↦ elim (Bool-cases (id == j)) [
    | inl s ↦
        let same : id ≡ j = ground arith in
        absurd (clash (sym k ∙ ap (λ (i : ℕ). find_key same_id i table) same ∙ h))
    | inr s ↦ rw (k, s, emplace, find_key) h
  ]
]
  where
    clash : none ≡ some e → ⊥
    clash c = cc

emplaced-new :
    (id : ℕ) (entry : TypeEntry) (table : List (ℕ × TypeEntry))
    → find_key same_id id table ≡ none
    → find_key same_id id (emplace id entry table) ≡ some entry
unfolding emplace find_key
emplaced-new id entry table h =
    let same : (id == id) ≡ true = ground arith in rw (h, same, emplace, find_key)

pub emplaced-below :
    (id n : ℕ) (entry : TypeEntry) (table : List (ℕ × TypeEntry))
    → All (λ (e : ℕ × TypeEntry). e.0 < n) table
    → id < n
    → All (λ (e : ℕ × TypeEntry). e.0 < n) (emplace id entry table)
unfolding emplace
emplaced-below id n entry table a h = elim (Option-cases (find_key same_id id table)) [
  | inr (old, k) ↦ rw (k, emplace) a
  | inl k ↦ rw (k, emplace) (h, a)
]

below_suc :
    (n : ℕ) (table : List (ℕ × TypeEntry))
    → All (λ (e : ℕ × TypeEntry). e.0 < n) table
    → All (λ (e : ℕ × TypeEntry). e.0 < suc n) table
below_suc n [] a = tt
below_suc n (x ∷ table) (b, bs) = (omega arith, below_suc n table bs)

-- What `touch_all` leaves.
pub record Touched (r q : TypeRegistry) : Type 0 where
  pub keeps : Keeps r q
  pub below : Below q
  pub next : q.next_type_id ≡ r.next_type_id

pub touch_all-Touched :
    (ids : List ℕ) (r : TypeRegistry)
    → Below r
    → All (λ (i : ℕ). i < r.next_type_id) ids
    → Touched r (touch_all ids r)
unfolding touch_all
touch_all-Touched [] r b a = record { keeps = λ i e h. h; below = b; next = refl }
touch_all-Touched (id ∷ ids) r b (a, rest) =
    let t =
      touch_all-Touched ids (touch id r)
        (emplaced-below id r.next_type_id default_entry r.type_table b a) rest in
    record {
      keeps = λ i e h. t.keeps i e (emplaced-keeps id default_entry r.type_table i e h);
      below = t.below;
      next = t.next;
    }

-- What a new identity with the entry `entry` leaves.
pub record Added (entry : TypeEntry) (id : ℕ) (r q : TypeRegistry) : Type 0 where
  pub found : lookup id q ≡ some entry
  pub keeps : Keeps r q
  pub below : Below q
  pub fresh : id ≡ r.next_type_id
  pub next : q.next_type_id ≡ suc r.next_type_id

pub add_entry-Added :
    (entry : TypeEntry) (r : TypeRegistry)
    → Below r
    → Added entry (add_entry entry r).0 r (add_entry entry r).1
unfolding add_entry new_type_id
add_entry-Added entry r b = record {
  found =
      emplaced-new r.next_type_id entry r.type_table
        (missing r.next_type_id r.next_type_id r.type_table b (omega arith));
  keeps = λ i e h. emplaced-keeps r.next_type_id entry r.type_table i e h;
  below =
      emplaced-below r.next_type_id (suc r.next_type_id) entry r.type_table
        (below_suc r.next_type_id r.type_table b) (omega arith);
  fresh = refl;
  next = refl;
}

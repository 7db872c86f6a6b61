-- ===== src/Dispatch/Placed.antt =====
-- The rows in the dispatch table: the loop over the rows, and what the table answers.
use nib_lang.Base.{
  ℕ, suc, ◌*◌, ◌≤◌, ◌<◌, max, true, false, [], ◌∷◌, Option, none, some, ◌≡◌, ◌≢◌, refl, ◌∙◌, ◌⊎◌,
  inl, inr, arith, ◌==◌, if◌then◌else◌, length, get_or, All,
}
use nib_lang.Dispatch.{
  empty_slot, add32, Entries, fits, max_slot, grow, VirtualDispatchResult, place_at,
}
use nib_lang.Dispatch.Slots.{
  entry_of, entry_at, or_else, owner_at, grow-length, get_or-grow, write_entries-length,
  write_entries-get, max_slot-Inside, fits-empty, entry_at-cons,
}

-- What the table answers for column `col` of object `i`.
abbrev pub answer : VirtualDispatchResult → ℕ → ℕ → Option ℕ
answer r i col =
    let slot = add32 (get_or r.row_displacements i 0) col in
    if get_or r.slot_owners slot empty_slot == i
    then some (get_or r.dispatch_table slot empty_slot)
    else none

-- The table with the rows of the first `n` objects, of columns below `w`.
pub record Placed (w n : ℕ) (r : VirtualDispatchResult) : Type 0 where
  pub sizes : length r.slot_owners ≡ length r.dispatch_table
  pub bound : length r.dispatch_table ≤ n * w
  pub shifts : (i : ℕ) → get_or r.row_displacements i 0 ≤ n * w
  pub unowned :
      (s : ℕ)
      → get_or r.dispatch_table s empty_slot ≡ empty_slot
      → get_or r.slot_owners s empty_slot ≡ empty_slot
  pub owned :
      (s : ℕ)
      → (get_or r.slot_owners s empty_slot ≡ empty_slot) ⊎ (get_or r.slot_owners s empty_slot < n)

-- Where nothing is a hole: no function index is the mark of an empty slot.
abbrev pub Marked : Entries → Type 0
Marked es = All (λ e. e.1 ≢ empty_slot) es

-- What placing the row of object `n` does.
pub record Places (w n : ℕ) (es : Entries) (r q : VirtualDispatchResult) : Type 0 where
  pub placed : Placed w (suc n) q
  pub displaced : length q.row_displacements ≡ length r.row_displacements
  pub own : (col : ℕ) → col < w → answer q n col ≡ entry_of es col
  pub others : (i col : ℕ) → i < n → answer q i col ≡ answer r i col

pub entry_at-Marked :
    (shift : ℕ) (es : Entries) (s : ℕ) → Marked es → entry_at shift es s ≢ some empty_slot
unfolding entry_at
entry_at-Marked shift [] s m e = cc
entry_at-Marked shift ((c, f) ∷ es) s (m, ms) e = elim (entry_at-cons shift c f es s empty_slot e) [
  | inl k ↦ entry_at-Marked shift es s ms k
  | inr (_, k) ↦ m k
]

-- A slot is the new row's, or it reads as before.
pub record Slot (n : ℕ) (o : Option ℕ) (r q : VirtualDispatchResult) (s : ℕ) : Type 0 where
  pub func : get_or q.dispatch_table s empty_slot ≡ or_else o (get_or r.dispatch_table s empty_slot)
  pub owner : get_or q.slot_owners s empty_slot ≡ owner_at o n (get_or r.slot_owners s empty_slot)
  pub fresh : (g : ℕ) → o ≡ some g → get_or r.slot_owners s empty_slot ≡ empty_slot

pub place_at-length :
    (w n d : ℕ) (es : Entries) (r : VirtualDispatchResult)
    → length r.slot_owners ≡ length r.dispatch_table
    → (length (place_at d n es r).dispatch_table
        ≡ max (length r.dispatch_table) (suc (max_slot d es 0)))
      × (length (place_at d n es r).slot_owners ≡ length (place_at d n es r).dispatch_table)
unfolding place_at
place_at-length w n d es r e =
    let last = max_slot d es 0 in
    let t = grow r.dispatch_table last in
    let u = grow r.slot_owners last in
    let (wt, wu) = write_entries-length d n es t u in
    let lt = grow-length r.dispatch_table last in
    let lu = grow-length r.slot_owners last in (wt ∙ lt, omega arith)

pub place_at-Slot :
    (w n d : ℕ) (es : Entries) (r : VirtualDispatchResult)
    → Placed w n r
    → fits r.dispatch_table d es ≡ true
    → (s : ℕ) → Slot n (entry_at d es s) r (place_at d n es r) s
unfolding place_at
place_at-Slot w n d es r p fit s =
    let last = max_slot d es 0 in
    let t = grow r.dispatch_table last in
    let u = grow r.slot_owners last in
    let lt = grow-length r.dispatch_table last in
    let lu = grow-length r.slot_owners last in
    let sizes = p.sizes in
    let inside = max_slot-Inside (length t) d es 0 (omega arith) in
    let (func, owner) = write_entries-get d n es t u s inside (omega arith) in
    record {
      func = func ∙ rw (get_or-grow r.dispatch_table last s);
      owner = owner ∙ rw (get_or-grow r.slot_owners last s);
      fresh = λ g e. p.unowned s (fits-empty r.dispatch_table d es s g fit e);
    }

pub answer-Slot :
    (n i col : ℕ) (o : Option ℕ) (r q : VirtualDispatchResult)
    → i < n
    → n < empty_slot
    → get_or q.row_displacements i 0 ≡ get_or r.row_displacements i 0
    → Slot n o r q (add32 (get_or r.row_displacements i 0) col)
    → answer q i col ≡ answer r i col
answer-Slot n i col none r q h k e s = rw (e, s.func, s.owner)
answer-Slot n i col (some g) r q h k e s =
    let f = s.fresh g refl in
    let differ : (n == i) ≡ false = ground arith in
    let empty : (empty_slot == i) ≡ false = ground arith in rw (e, s.owner, f, differ, empty)

pub own-Slot :
    (w n d col : ℕ) (o : Option ℕ) (r q : VirtualDispatchResult)
    → Placed w n r
    → n < empty_slot
    → get_or q.row_displacements n 0 ≡ d
    → Slot n o r q (add32 d col)
    → answer q n col ≡ o
own-Slot w n d col none r q p k e s = elim (p.owned (add32 d col)) [
  | inl h ↦ let empty : (empty_slot == n) ≡ false = ground arith in rw (e, s.owner, h, empty)
  | inr h ↦
      let differ : (get_or r.slot_owners (add32 d col) empty_slot == n) ≡ false = ground arith in
      rw (e, s.owner, differ)
]
own-Slot w n d col (some g) r q p k e s =
    let same : (n == n) ≡ true = ground arith in rw (e, s.func, s.owner, same)

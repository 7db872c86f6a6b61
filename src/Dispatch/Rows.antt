-- ===== src/Dispatch/Rows.antt =====
-- The loop over the rows: every row that was placed keeps its answers.
use mathlib.Core.Path.{subst}
use nib_lang.Base.{
  ℕ, zero, suc, ◌+◌, ◌*◌, ◌≤◌, ◌<◌, List, [], ◌∷◌, Option, some, ◌≡◌, ◌≢◌, refl, ap, sym, ◌∙◌, ◌⊎◌,
  inl, inr, arith, ◌==◌, ltb, length, get_or, set, replicate, All, Bool-cases, Option-cases,
  get_or-beyond, get_or-replicate, length-replicate, get_or-set_self, get_or-set_ne, length-set,
  ltb→lt,
}
use nib_lang.Dispatch.{
  empty_slot, add32, Entries, StructRow, VirtualDispatchResult, place_at, place_row, place_rows,
}
use nib_lang.Dispatch.Slots.{
  Below, entry_of, entry_at, or_else, max_slot-bound, find_shift-fits, entry_at-column,
}
use nib_lang.Dispatch.Placed.{
  answer, Placed, Marked, Places, Slot, entry_at-Marked, place_at-length, place_at-Slot,
  answer-Slot, own-Slot,
}

place_at-unowned :
    (w n d : ℕ) (es : Entries) (r q : VirtualDispatchResult)
    → Placed w n r
    → Marked es
    → ((s : ℕ) → Slot n (entry_at d es s) r q s)
    → (s : ℕ) → get_or q.dispatch_table s empty_slot ≡ empty_slot
    → get_or q.slot_owners s empty_slot ≡ empty_slot
place_at-unowned w n d es r q p m slots s e = elim (Option-cases (entry_at d es s)) [
  | inr (g, k) ↦
      let f = (slots s).func in
      let hit : g ≡ empty_slot =
        sym (ap (λ o. or_else o (get_or r.dispatch_table s empty_slot)) k) ∙ sym f ∙ e in
      absurd (entry_at-Marked d es s m (k ∙ ap some hit))
  | inl k ↦
      let f = (slots s).func in
      let o = (slots s).owner in rw (o, k) (p.unowned s (sym (rw (f, k)) ∙ e))
]

place_at-owned :
    (w n d : ℕ) (es : Entries) (r q : VirtualDispatchResult)
    → Placed w n r
    → ((s : ℕ) → Slot n (entry_at d es s) r q s)
    → (s : ℕ)
    → (get_or q.slot_owners s empty_slot ≡ empty_slot) ⊎ (get_or q.slot_owners s empty_slot < suc n)
place_at-owned w n d es r q p slots s = elim (Option-cases (entry_at d es s)) [
  | inr (g, k) ↦ let o = (slots s).owner in inr (rw (o, k) (omega arith))
  | inl k ↦
      let o = (slots s).owner in
      elim (p.owned s) [ inl h ↦ inl (rw (o, k) h) | inr h ↦ inr (rw (o, k) (omega arith)) ]
]

displacement_le :
    (w n d : ℕ) (t : List ℕ)
    → d ≤ n * w
    → ((i : ℕ) → get_or t i 0 ≤ n * w)
    → (i : ℕ) → get_or (set t n d) i 0 ≤ suc n * w
displacement_le w n d t h k i = elim (Bool-cases (n == i)) [
  | inr e ↦
      let differ : n ≢ i = λ c. ground arith in
      let same = get_or-set_ne t n i d 0 differ in let le = k i in omega arith
  | inl e ↦
      let same : n ≡ i = ground arith in
      elim (Bool-cases (ltb n (length t))) [
        | inl m ↦ let self = get_or-set_self t n d 0 (ltb→lt _ _ m) in rw (← same) (omega arith)
        | inr m ↦
            let len = length-set t n d in
            let out = get_or-beyond (set t n d) i 0 (ground arith) in omega arith
      ]
]

le_mul : (n w : ℕ) → 1 ≤ w → n ≤ n * w
le_mul zero w h = omega arith
le_mul (suc n) w h = omega (arith, le_mul n w h)

-- The row of object `n` is placed.
place_row-Places :
    (w n : ℕ) (es : Entries) (r : VirtualDispatchResult)
    → Placed w n r
    → Below w es
    → Marked es
    → 1 ≤ w
    → suc n * w < 4294967295
    → n < length r.row_displacements
    → (q : VirtualDispatchResult) × (place_row n es r ≡ some q) × Places w n es r q
unfolding place_row place_at
place_row-Places w n es r p b m one fit len =
    let size = p.bound in
    let (d, found, here, le) =
      find_shift-fits w (suc (length r.dispatch_table)) r.dispatch_table 0 es b (omega arith)
        (omega arith) (omega arith) in
    let q = place_at d n es r in
    let slots = place_at-Slot w n d es r p here in
    let (lt, lu) = place_at-length w n d es r p.sizes in
    let last = max_slot-bound w (suc n * w) d es 0 b (omega arith) (omega arith) (omega arith) in
    let small : n < empty_slot = omega (arith, le_mul (suc n) w one) in
    let self = get_or-set_self r.row_displacements n d 0 len in
    (
      q,
      rw (found, place_row) refl,
      record {
        placed = record {
          sizes = lu;
          bound = omega arith;
          shifts = displacement_le w n d r.row_displacements (omega arith) p.shifts;
          unowned = place_at-unowned w n d es r q p m slots;
          owned = place_at-owned w n d es r q p slots;
        };
        displaced = length-set r.row_displacements n d;
        own = λ col h. own-Slot w n d col (entry_of es col) r q p small self (
            subst (λ (o : Option ℕ). Slot n o r q (add32 d col))
              (entry_at-column w d es col b h (omega arith)) (slots _));
        others = λ i col h.
            answer-Slot n i col _ r q h small
              (get_or-set_ne r.row_displacements n i d 0 (λ c. omega arith)) (slots _);
      },
    )

abbrev pub no_row : StructRow
no_row = record { struct_symbol_id = 0; entries = [] }

-- The columns of every row are below `w`, and no function of it is the mark of an empty slot.
abbrev pub Sound : ℕ → List StructRow → Type 0
Sound w rows = All (λ (row : StructRow). Below w row.entries × Marked row.entries) rows

-- What the loop leaves from object `n` on.
pub record Loops (w n : ℕ) (rows : List StructRow) (r q : VirtualDispatchResult) : Type 0 where
  pub final : Placed w (n + length rows) q
  pub kept : length q.row_displacements ≡ length r.row_displacements
  pub earlier : (i col : ℕ) → i < n → answer q i col ≡ answer r i col
  pub added :
      (i col : ℕ)
      → i < length rows
      → col < w
      → answer q (n + i) col ≡ entry_of (get_or rows i no_row).entries col

grow_le : (n k w : ℕ) → suc n * w ≤ (n + suc k) * w
grow_le n k w = omega arith

plus_zero : (n : ℕ) → n + 0 ≡ n
plus_zero n = omega arith

plus_suc : (n k : ℕ) → n + suc k ≡ suc n + k
plus_suc n k = omega arith

added_row :
    (w n : ℕ) (row : StructRow) (rows : List StructRow) (r q u : VirtualDispatchResult)
    → Places w n row.entries r q
    → Loops w (suc n) rows q u
    → (i col : ℕ) → i < length (row ∷ rows)
    → col < w
    → answer u (n + i) col ≡ entry_of (get_or (row ∷ rows) i no_row).entries col
added_row w n row rows r q u t l zero col h k =
    let same : n + 0 ≡ n = omega arith in rw same (l.earlier n col (omega arith) ∙ t.own col k)
added_row w n row rows r q u t l (suc i) col h k =
    let same : n + suc i ≡ suc n + i = omega arith in rw same (l.added i col (omega arith) k)

empty_Placed :
    (w n : ℕ)
    → Placed w 0
        (record { row_displacements = replicate n 0; dispatch_table = []; slot_owners = [] })
empty_Placed w n = record {
  sizes = refl;
  bound = omega arith;
  shifts = λ i. omega (arith, get_or-replicate {A = ℕ} n i 0);
  unowned = λ s e. e;
  owned = λ s. inl refl;
}

Placed-at : (w a b : ℕ) (q : VirtualDispatchResult) → a ≡ b → Placed w a q → Placed w b q
Placed-at w a b q = subst (λ (n : ℕ). Placed w n q)

Loops-cons :
    (w n : ℕ) (row : StructRow) (rows : List StructRow) (r q u : VirtualDispatchResult)
    → Places w n row.entries r q
    → Loops w (suc n) rows q u
    → Loops w n (row ∷ rows) r u
Loops-cons w n row rows r q u t l = record {
  final = Placed-at w _ _ u (sym (plus_suc n (length rows))) l.final;
  kept = l.kept ∙ t.displaced;
  earlier = λ i col h. l.earlier i col (omega arith) ∙ t.others i col h;
  added = added_row w n row rows r q u t l;
}

place_rows-Loops :
    (w n : ℕ) (rows : List StructRow) (r : VirtualDispatchResult)
    → Placed w n r
    → Sound w rows
    → 1 ≤ w
    → (n + length rows) * w < 4294967295
    → n + length rows ≤ length r.row_displacements
    → (q : VirtualDispatchResult) × (place_rows n rows r ≡ some q) × Loops w n rows r q
unfolding place_rows
place_rows-Loops w n [] r p s one fit len = (
  r,
  refl,
  record {
    final = Placed-at w _ _ r (sym (plus_zero n)) p;
    kept = refl;
    earlier = λ i col h. refl;
    added = λ i col h. absurd (omega arith);
  },
)
place_rows-Loops w n (row ∷ rows) r p ((b, m), s) one fit len =
    let more = grow_le n (length rows) w in
    let (q, e, t) = place_row-Places w n row.entries r p b m one (omega arith) (omega arith) in
    let displaced = t.displaced in
    let (u, f, l) = place_rows-Loops w (suc n) rows q t.placed s one (omega arith) (omega arith) in
    (u, rw e f, Loops-cons w n row rows r q u t l)

-- The table that packs the rows, object by object.
unfoldable pub pack_rows : List StructRow → Option VirtualDispatchResult
pack_rows rows = place_rows 0 rows (record {
  row_displacements = replicate (length rows) 0;
  dispatch_table = [];
  slot_owners = [];
})

pub pack_rows-Loops :
    (w : ℕ) (rows : List StructRow)
    → Sound w rows
    → 1 ≤ w
    → length rows * w < 4294967295
    → (q : VirtualDispatchResult) × (pack_rows rows ≡ some q)
      × (Placed w (length rows) q)
      × (length q.row_displacements ≡ length rows)
      × ((i col : ℕ)
          → i < length rows
          → col < w
          → answer q i col ≡ entry_of (get_or rows i no_row).entries col)
unfolding pack_rows
pack_rows-Loops w rows s one fit =
    let zero_plus : 0 + length rows ≡ length rows = omega arith in
    let len = length-replicate {A = ℕ} (length rows) 0 in
    let (q, e, l) =
      place_rows-Loops w 0 rows _ (empty_Placed w (length rows)) s one (rw zero_plus fit)
        (omega arith) in
    (
      q,
      e,
      Placed-at w _ _ q zero_plus l.final,
      l.kept ∙ len,
      λ i col h k.
          from_zero i (λ (j : ℕ). answer q j col ≡ entry_of (get_or rows i no_row).entries col)
            (l.added i col h k),
    )
  where
    from_zero : (i : ℕ) (P : ℕ → Type 0) → P (0 + i) → P i
    from_zero i P = subst P (omega arith)

-- The search for a shift ends for every row, and the table that packs the rows answers for object
-- `i` and column `col` what row `i` has there, nothing where the row has no such column: whatever
-- rows share its slots. The columns are below `w`, no function index is the mark of an empty slot,
-- and the rows times `w` stay below 2^32 - 1.
pub pack_rows-answer :
    (w : ℕ) (rows : List StructRow)
    → Sound w rows
    → 1 ≤ w
    → length rows * w < 4294967295
    → (q : VirtualDispatchResult) × (pack_rows rows ≡ some q)
      × ((i col : ℕ)
          → i < length rows
          → col < w
          → answer q i col ≡ entry_of (get_or rows i no_row).entries col)
pack_rows-answer w rows s one fit =
    let (q, e, _, _, a) = pack_rows-Loops w rows s one fit in (q, e, a)

-- ===== src/Vm/Counts.antt =====
-- Counts that cover the references there are, and why no release can then go wrong.
use nib_lang.Base.{
  ℕ, zero, suc, ◌+◌, ◌≤◌, ◌<◌, ◌≢◌, List, [], ◌∷◌, ◌++◌, Option, none, some, ◌≡◌, refl, ap, inl,
  inr, arith, ◌==◌, if◌then◌else◌, length, set, get_or-set_self, get_or-set_ne, Bool-cases,
}
use nib_lang.Vm.{Value, ref_of, Content, held_values, Cell, freed, live, Heap}
use nib_lang.Vm.Faults.{ok}
use nib_lang.Vm.Heap.{cell_at, drop_cell, drop_ref, drop_one, held_count}

abbrev pub points_to : ℕ → Option ℕ → ℕ
points_to a none = 0
points_to a (some b) = if b == a then 1 else 0

-- How many of the values refer to the cell `a`.
abbrev pub refs : ℕ → List Value → ℕ
refs a [] = 0
refs a (v ∷ vs) = points_to a (ref_of v) + refs a vs

abbrev pub cell_refs : ℕ → Cell → ℕ
cell_refs a freed = 0
cell_refs a (live n c) = refs a (held_values c)

-- How many of the values that cells hold refer to `a`.
abbrev pub heap_refs : ℕ → Heap → ℕ
heap_refs a [] = 0
heap_refs a (c ∷ h) = cell_refs a c + heap_refs a h

abbrev pub count_of : Cell → ℕ
count_of freed = 0
count_of (live n c) = n

-- Every cell counts at least the references there are: those in cells, and `outer a` more. A freed
-- cell has none.
abbrev pub Covers : (ℕ → ℕ) → Heap → Type 0
Covers outer h = (a : ℕ) → outer a + heap_refs a h ≤ count_of (cell_at h a)

pub refs-append : (a : ℕ) (vs ws : List Value) → refs a (vs ++ ws) ≡ refs a vs + refs a ws
refs-append a [] ws = omega arith
refs-append a (v ∷ vs) ws = let rest = refs-append a vs ws in omega arith

pub heap_refs-set :
    (a i : ℕ) (h : Heap) (c : Cell)
    → i < length h
    → heap_refs a (set h i c) + cell_refs a (cell_at h i) ≡ heap_refs a h + cell_refs a c
heap_refs-set a i [] c k = absurd (omega arith)
heap_refs-set a zero (d ∷ h) c k = omega arith
heap_refs-set a (suc i) (d ∷ h) c k = let rest = heap_refs-set a i h c (omega arith) in omega arith

abbrev pub cell_size : Cell → ℕ
cell_size freed = 0
cell_size (live n c) = length (held_values c)

pub held_count-set :
    (i : ℕ) (h : Heap) (c : Cell)
    → i < length h
    → held_count (set h i c) + cell_size (cell_at h i) ≡ held_count h + cell_size c
held_count-set i [] c k = absurd (omega arith)
held_count-set zero (freed ∷ h) freed k = refl
held_count-set zero (freed ∷ h) (live m d) k = omega arith
held_count-set zero (live n e ∷ h) freed k = omega arith
held_count-set zero (live n e ∷ h) (live m d) k = omega arith
held_count-set (suc i) (freed ∷ h) c k = held_count-set i h c (omega arith)
held_count-set (suc i) (live n e ∷ h) c k =
    let rest = held_count-set i h c (omega arith) in omega arith

pub live_below : (h : Heap) (a n : ℕ) (c : Content) → cell_at h a ≡ live n c → a < length h
live_below [] a n c e = cc
live_below (d ∷ h) zero n c e = omega arith
live_below (d ∷ h) (suc a) n c e = let rest = live_below h a n c e in omega arith

pub points_self : (a : ℕ) → points_to a (some a) ≡ 1
points_self a = ground arith

pub points_ne : (a b : ℕ) → a ≢ b → points_to b (some a) ≡ 0
points_ne a b h = ground arith

-- A change of one cell keeps the cover, where the cell's count pays for the change of its values
-- and of the references from outside.
pub Covers-set :
    (outer outer' : ℕ → ℕ) (h : Heap) (a n : ℕ) (c : Content) (d : Cell)
    → cell_at h a ≡ live n c
    → outer' a + cell_refs a d + n ≤ outer a + refs a (held_values c) + count_of d
    → ((b : ℕ) → a ≢ b → outer' b + cell_refs b d ≤ outer b + refs b (held_values c))
    → Covers outer h
    → Covers outer' (set h a d)
Covers-set outer outer' h a n c d e here there v b =
    let k = live_below h a n c e in
    let moved = heap_refs-set b a h d k in
    let was : cell_refs b (cell_at h a) ≡ refs b (held_values c) = rw e refl in
    let before = v b in
    elim (Bool-cases (a == b)) [
      | inl t ↦
          let same : a ≡ b = ground arith in
          let at_a : cell_at (set h a d) b ≡ d = rw (← same) (get_or-set_self h a d freed k) in
          let old : count_of (cell_at h b) ≡ n = rw (← same, e) refl in
          let pays : outer' b + cell_refs b d + n ≤ outer b + refs b (held_values c) + count_of d =
            rw same at here in
          rw at_a (omega arith)
      | inr f ↦
          let ne : a ≢ b = ground arith in
          let at_b = get_or-set_ne h a b d freed ne in
          let pays = there b ne in rw at_b (omega arith)
    ]

-- A cell whose count does not fall leaves every count no lower.
pub count-set :
    (h : Heap) (a n : ℕ) (c : Content) (d : Cell)
    → cell_at h a ≡ live n c
    → n ≤ count_of d
    → (b : ℕ) → count_of (cell_at h b) ≤ count_of (cell_at (set h a d) b)
count-set h a n c d e grows b = elim (Bool-cases (a == b)) [
  | inl t ↦
      let same : a ≡ b = ground arith in
      let new : cell_at (set h a d) b ≡ d =
        rw (← same) (get_or-set_self h a d freed (live_below h a n c e)) in
      let old : count_of (cell_at h b) ≡ n = rw (← same, e) refl in rw new (omega arith)
  | inr f ↦ let ne : a ≢ b = ground arith in rw (get_or-set_ne h a b d freed ne) (omega arith)
]

-- What a cell holds is among what the heap holds.
pub cell_refs-le : (a i : ℕ) (h : Heap) → cell_refs a (cell_at h i) ≤ heap_refs a h
cell_refs-le a i [] = omega arith
cell_refs-le a zero (c ∷ h) = omega arith
cell_refs-le a (suc i) (c ∷ h) = let rest = cell_refs-le a i h in omega arith

-- One call of `rc_decrement` on a reference that is covered succeeds: what the deleter gives up
-- takes the place of the reference, and no more values wait than the heap held.
pub record Dropped (v : Value) (outer : ℕ → ℕ) (h : Heap) : Type 0 where
  pub given_up : List Value
  pub heap : Heap
  pub result : drop_one v h ≡ ok (given_up, heap)
  pub covers : Covers (λ a. refs a given_up + outer a) heap
  pub fewer : length given_up + held_count heap ≤ held_count h

pub drop_one-Dropped :
    (v : Value) (outer : ℕ → ℕ) (h : Heap)
    → Covers (λ a. points_to a (ref_of v) + outer a) h
    → Dropped v outer h
unfolding drop_one drop_ref drop_cell
drop_one-Dropped v outer h k = go (ref_of v) refl
  where
    at_cell : (a : ℕ) (c : Cell) → ref_of v ≡ some a → cell_at h a ≡ c → Dropped v outer h
    at_cell a freed r e =
        let self = points_self a in let counted = rw (r, e) at (k a) in absurd (omega arith)
    at_cell a (live zero c) r e =
        let self = points_self a in let counted = rw (r, e) at (k a) in absurd (omega arith)
    at_cell a (live (suc zero) c) r e = record {
      given_up = held_values c;
      heap = set h a freed;
      result = rw (r, e, drop_one, drop_ref, drop_cell) refl;
      covers =
          Covers-set (λ b. points_to b (ref_of v) + outer b) _ h a 1 c freed e
            (let self = points_self a in rw (r) (omega arith)) (λ b ne. omega arith) k;
      fewer =
          let sizes = held_count-set a h freed (live_below h a 1 c e) in
          let was = ap cell_size e in omega arith;
    }
    at_cell a (live (suc (suc n)) c) r e = record {
      given_up = [];
      heap = set h a (live (suc n) c);
      result = rw (r, e, drop_one, drop_ref, drop_cell) refl;
      covers =
          Covers-set (λ b. points_to b (ref_of v) + outer b) _ h a (suc (suc n)) c (live (suc n) c)
            e (let self = points_self a in rw (r) (omega arith)) (λ b ne. omega arith) k;
      fewer =
          let sizes = held_count-set a h (live (suc n) c) (live_below h a (suc (suc n)) c e) in
          let was = ap cell_size e in omega arith;
    }

    go : (r : Option ℕ) → ref_of v ≡ r → Dropped v outer h
    go none r = record {
      given_up = [];
      heap = h;
      result = rw (r, drop_one, drop_ref, drop_cell) refl;
      covers = λ a. let before = k a in omega arith;
      fewer = omega arith;
    }
    go (some a) r = at_cell a (cell_at h a) r refl

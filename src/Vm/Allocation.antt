-- ===== src/Vm/Allocation.antt =====
-- A new cell keeps the counts a cover.
use nib_lang.Base.{
  ℕ, ◌+◌, ◌*◌, ◌≤◌, ◌<◌, [], ◌∷◌, ◌++◌, some, ◌≡◌, refl, false, inl, inr, arith, ltb, ◌==◌, length,
  set, get_or-append_left, get_or-append_right, get_or-beyond, length-append, Bool-cases, ltb→lt,
}
use nib_lang.Vm.{Content, held_values, Cell, freed, live, Heap}
use nib_lang.Vm.Faults.{ok}
use nib_lang.Vm.Heap.{cell_at, increment_ref, increment_cell}
use nib_lang.Vm.Counts.{Covers, count_of, points_to, refs, cell_refs, heap_refs}

heap_refs-append :
    (a : ℕ) (h : Heap) (c : Cell) → heap_refs a (h ++ c ∷ []) ≡ heap_refs a h + cell_refs a c
heap_refs-append a [] c = omega arith
heap_refs-append a (d ∷ h) c = let rest = heap_refs-append a h c in omega arith

-- The values that the new cell holds are no references from outside any more; the counts pay for
-- `count` references to the cell.
pub allocate-Covers :
    (count : ℕ) (c : Content) (outer : ℕ → ℕ) (h : Heap)
    → Covers (λ a. refs a (held_values c) + outer a) h
    → Covers (λ a. points_to a (some (length h)) * count + outer a) (h ++ live count c ∷ [])
allocate-Covers count c outer h k a =
    let before = k a in
    let grown = heap_refs-append a h (live count c) in
    elim (Bool-cases (ltb a (length h))) [
      | inl t ↦
          let here = get_or-append_left h (live count c ∷ []) a freed (ltb→lt _ _ t) in
          let less = ltb→lt a (length h) t in
          let other : (length h == a) ≡ false = ground arith in rw (here, other) (omega arith)
      | inr f ↦
          let beyond : length h ≤ a = ground arith in
          let none = get_or-beyond h a freed beyond in
          elim (Bool-cases (length h == a)) [
            | inl t ↦
                let same : a ≡ length h + 0 = ground arith in
                let new = get_or-append_right h (live count c ∷ []) a 0 freed same in
                let was = rw none at before in rw (new, t) (omega arith)
            | inr g ↦
                let ne : length h < a = ground arith in
                let sizes = length-append h (live count c ∷ []) in
                let out = get_or-beyond (h ++ live count c ∷ []) a freed (omega arith) in
                let was = rw none at before in rw (out, g) (omega arith)
          ]
    ]

-- Counts that cover references do so in the longer heap.
pub allocate-count :
    (count : ℕ) (c : Content) (h : Heap) (a : ℕ)
    → count_of (cell_at h a) ≤ count_of (cell_at (h ++ live count c ∷ []) a)
allocate-count count c h a = elim (Bool-cases (ltb a (length h))) [
  | inl t ↦ rw (get_or-append_left h (live count c ∷ []) a freed (ltb→lt _ _ t)) (omega arith)
  | inr f ↦
      let beyond : length h ≤ a = ground arith in rw (get_or-beyond h a freed beyond) (omega arith)
]

set-append : (h : Heap) (c d : Cell) → set (h ++ c ∷ []) (length h) d ≡ h ++ d ∷ []
set-append [] c d = refl
set-append (b ∷ h) c d = rw (set-append h c d)

-- The first reference to a new cell.
pub increment_ref-allocate :
    (c : Content) (h : Heap)
    → increment_ref (h ++ live 0 c ∷ []) (some (length h)) ≡ ok (h ++ live 1 c ∷ [])
unfolding increment_ref increment_cell
increment_ref-allocate c h =
    let new = get_or-append_right h (live 0 c ∷ []) (length h) 0 freed (omega arith) in
    rw (new, increment_cell, set-append h (live 0 c) (live 1 c))

-- ===== src/Vm/Heap.antt =====
-- Counting of references: `rc_increment` and `rc_decrement` of src/vm.c, the deleters included.
use nib_lang.Base.{
  ℕ, zero, suc, ◌+◌, List, [], ◌∷◌, ◌++◌, Option, none, some, ltb, if◌then◌else◌, length, get_or,
  set,
}
use nib_lang.Vm.{Value, ref_of, Content, held_values, Cell, freed, live, Heap}
use nib_lang.Vm.Faults.{
  Result, ok, fault, ◌>>=◌, assertion, undefined, use_after_free, count_overflow,
}

-- An address that was never given out reads as a freed cell.
abbrev pub cell_at : Heap → ℕ → Cell
cell_at h a = get_or h a freed

-- `++count` of the cell.
unfoldable pub increment_cell : Heap → ℕ → Cell → Result Heap
increment_cell h a freed = fault use_after_free
increment_cell h a (live n c) =
    if ltb n 4294967295 then ok (set h a (live (suc n) c)) else fault count_overflow

unfoldable pub increment_ref : Heap → Option ℕ → Result Heap
unfolding increment_cell
increment_ref h none = ok h
increment_ref h (some a) = increment_cell h a (cell_at h a)

unfoldable pub rc_increment : Value → Heap → Result Heap
unfolding increment_ref
rc_increment v h = increment_ref h (ref_of v)

unfoldable pub rc_increment_all : List Value → Heap → Result Heap
unfolding rc_increment
rc_increment_all [] h = ok h
rc_increment_all (v ∷ vs) h = rc_increment v h >>= rc_increment_all vs

-- `--count` of the cell, and the deleter's part in it but its calls of `rc_decrement`: the values
-- these are for are returned.
unfoldable pub drop_cell : Heap → ℕ → Cell → Result (List Value × Heap)
drop_cell h a freed = fault use_after_free
drop_cell h a (live zero c) = fault assertion
drop_cell h a (live (suc zero) c) = ok (held_values c, set h a freed)
drop_cell h a (live (suc (suc n)) c) = ok ([], set h a (live (suc n) c))

unfoldable pub drop_ref : Heap → Option ℕ → Result (List Value × Heap)
unfolding drop_cell
drop_ref h none = ok ([], h)
drop_ref h (some a) = drop_cell h a (cell_at h a)

unfoldable pub drop_one : Value → Heap → Result (List Value × Heap)
unfolding drop_ref
drop_one v h = drop_ref h (ref_of v)

-- The calls of `rc_decrement` in their order: a deleter's come before those that wait.
unfoldable pub release : ℕ → List Value → Heap → Result Heap
unfolding drop_one
release fuel [] h = ok h
release zero (v ∷ pending) h = fault undefined
release (suc fuel) (v ∷ pending) h = do
  (given_up, h') ← drop_one v h
  release fuel (given_up ++ pending) h'

-- How many values the cells hold.
abbrev pub held_count : Heap → ℕ
held_count [] = 0
held_count (freed ∷ h) = held_count h
held_count (live n c ∷ h) = length (held_values c) + held_count h

unfoldable pub rc_decrement : Value → Heap → Result Heap
unfolding release
rc_decrement v h = release (1 + held_count h) (v ∷ []) h

unfoldable pub rc_decrement_all : List Value → Heap → Result Heap
unfolding rc_decrement
rc_decrement_all [] h = ok h
rc_decrement_all (v ∷ vs) h = rc_decrement v h >>= rc_decrement_all vs

-- `vm_gc_allocate`, and `vm_adopt_ref` where `count` is 1.
unfoldable pub allocate : ℕ → Content → Heap → ℕ × Heap
allocate count c h = (length h, h ++ live count c ∷ [])

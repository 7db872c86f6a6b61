-- ===== src/Vm/Safety.antt =====
-- When the counts of a machine cover the references there are.
pub mod Primitive
pub mod Calls
pub mod Values
pub mod Ops
pub mod Frames
pub mod Run
pub mod Loop
use nib_lang.Base.{ℕ, ◌+◌, ◌≤◌, List, [], ◌∷◌}
use nib_lang.Vm.{Value, ref_of, Frame, Machine}
use nib_lang.Vm.Counts.{Covers, points_to, refs}

-- How many references to the cell `a` the locals of the frames are.
abbrev pub frame_refs : ℕ → List Frame → ℕ
frame_refs a [] = 0
frame_refs a (f ∷ fs) = refs a f.locals + frame_refs a fs

-- ... and the stack, the frames and the exception together.
abbrev pub machine_refs : ℕ → Machine → ℕ
machine_refs a m = refs a m.stack + frame_refs a m.frames + points_to a (ref_of m.store.exception)

-- Every cell counts the references from the machine, from other cells, and `outer a` more.
abbrev pub Sound : (ℕ → ℕ) → Machine → Type 0
Sound outer m = Covers (λ a. outer a + machine_refs a m) m.store.heap

-- The references that `vs` are, and `outer`.
abbrev pub with_refs : List Value → (ℕ → ℕ) → ℕ → ℕ
with_refs vs outer a = refs a vs + outer a

-- A value to which the references there are come up.
abbrev pub Known : Value → (ℕ → ℕ) → Machine → Type 0
Known v outer m = (a : ℕ) → points_to a (ref_of v) ≤ outer a + machine_refs a m

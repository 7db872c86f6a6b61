-- ===== src/Vm/Stack.antt =====
-- The stack of values of src/vm.c, and what an operation does to the current frame.
use nib_lang.Base.{ℕ, zero, suc, ◌+◌, List, [], ◌∷◌, ltb, length}
use nib_lang.Vm.{Value, Heap, Frame, Machine}
use nib_lang.Vm.Faults.{Result, ok, fault, ◌>>=◌, assertion, undefined, check}
use nib_lang.Vm.Heap.{rc_increment, rc_decrement}

-- `vm->stack.capacity`
abbrev pub stack_capacity : ℕ
stack_capacity = 256

abbrev pub heap_of : Machine → Heap
heap_of m = m.store.heap

abbrev pub with_heap : Heap → Machine → Machine
with_heap h m = record m { store = record m.store { heap = h } }

-- `stack.values[stack.sp++] = value`, which takes over the caller's reference.
unfoldable pub place : Value → Machine → Result Machine
place v m = do
  _ ← check (ltb (length m.stack) stack_capacity)
  ok (record m { stack = v ∷ m.stack })

unfoldable pub push_stack : Value → Machine → Result Machine
push_stack v m = do
  _ ← check (ltb (length m.stack) stack_capacity)
  h ← rc_increment v (heap_of m)
  ok (record m { stack = v ∷ m.stack; store = record m.store { heap = h } })

unfoldable pub pop_stack : Machine → Result (Value × Machine)
pop_stack m = elim (m.stack) [ [] ↦ fault assertion | v ∷ s ↦ ok (v, record m { stack = s }) ]

-- The `n` values on top, the lowest first, in front of `acc`; `e` where there are fewer.
unfoldable pub take_top : ℕ → List Value → List Value → Result (List Value × List Value)
take_top zero s acc = ok (acc, s)
take_top (suc n) [] acc = fault assertion
take_top (suc n) (v ∷ s) acc = take_top n s (v ∷ acc)

-- `assert(sp >= argc); sp -= argc`
unfoldable pub pop_args : ℕ → Machine → Result (List Value × Machine)
unfolding take_top
pop_args n m = do (args, s) ← take_top n m.stack []; ok (args, record m { stack = s })

-- `vm_free_ref`
unfoldable pub drop_value : Value → Machine → Result Machine
drop_value v m = do h ← rc_decrement v (heap_of m); ok (with_heap h m)

unfoldable pub current_frame : Machine → Result Frame
current_frame m = elim (m.frames) [ [] ↦ fault undefined | f ∷ fs ↦ ok f ]

abbrev pub modify_head : (Frame → Frame) → List Frame → List Frame
modify_head g [] = []
modify_head g (f ∷ fs) = g f ∷ fs

unfoldable pub modify_frame : (Frame → Frame) → Machine → Machine
modify_frame g m = record m { frames = modify_head g m.frames }

-- `frame->pc += n`
abbrev pub advance : ℕ → Machine → Machine
advance n m = modify_frame (λ f. record f { pc = f.pc + n }) m

-- `frame->pc = address`
abbrev pub jump : ℕ → Machine → Machine
jump address m = modify_frame (λ f. record f { pc = address }) m

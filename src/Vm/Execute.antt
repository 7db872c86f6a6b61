-- ===== src/Vm/Execute.antt =====
-- `run_frame` of src/vm.c: the operations behind the opcodes.
use nib_lang.Base.{
  ℕ, ◌%◌, Bool, true, false, ◌&&◌, List, [], ◌∷◌, ◌++◌, ltb, leb, ◌==◌, length, get_or, set,
}
use nib_lang.Dispatch.Machine.{selected, refused, outside, select}
use nib_lang.Vm.{
  Value, null_value, bool_value, str_value, object_value, raw_type, text, elements, Frame, Machine,
  Program,
}
use nib_lang.Vm.Faults.{Result, ok, fault, ◌>>=◌, assertion, undefined, check, defined}
use nib_lang.Vm.Heap.{rc_decrement, rc_decrement_all, allocate}
use nib_lang.Vm.Numbers.{
  Floats, NumOp, num_op_add, num_op_sub, num_op_mul, num_op_div, is_number_type, text_at,
  value_to_bool, handle_number_op, increment,
}
use nib_lang.Vm.Stack.{
  heap_of, with_heap, place, push_stack, pop_stack, pop_args, drop_value, current_frame,
  modify_frame, advance, jump,
}
use nib_lang.Vm.Calls.{
  patch_function_idx, function_at, vm_invoke, vm_invoke_closure, closure_at, bind_to_function,
}

-- An operation on the two values on top, the lower one first, and its result in their place.
unfoldable pub binary_op : (Machine → Value → Value → Result Value) → Machine → Result Machine
binary_op compute m = do
  (v₂, m₁) ← pop_stack m
  (v₁, m₂) ← pop_stack m₁
  v ← compute m₂ v₁ v₂
  n ← push_stack v m₂
  ok (advance 1 n)

-- `OP_ADD` takes the upper value for its first argument, the other three the lower one.
unfoldable pub number_op : Floats → NumOp → Machine → Value → Value → Result Value
number_op fl op m v₁ v₂ = do
  _ ← check (is_number_type v₁ && is_number_type v₂)
  elim op [
    | num_op_add ↦ handle_number_op fl num_op_add v₂ v₁
    | num_op_sub ↦ handle_number_op fl num_op_sub v₁ v₂
    | num_op_mul ↦ handle_number_op fl num_op_mul v₁ v₂
    | num_op_div ↦ handle_number_op fl num_op_div v₁ v₂
  ]

-- C's `&&` and `||` look at the second value only where the first leaves it open.
unfoldable pub and_values : Floats → Machine → Value → Value → Result Value
and_values fl m v₁ v₂ = do
  b₁ ← value_to_bool fl (heap_of m) v₁
  b ← elim b₁ [ true ↦ value_to_bool fl (heap_of m) v₂ | false ↦ ok false ]
  ok (bool_value b)

unfoldable pub or_values : Floats → Machine → Value → Value → Result Value
or_values fl m v₁ v₂ = do
  b₁ ← value_to_bool fl (heap_of m) v₁
  b ← elim b₁ [ true ↦ ok true | false ↦ value_to_bool fl (heap_of m) v₂ ]
  ok (bool_value b)

unfoldable pub store_local : ℕ → Machine → Result Machine
store_local idx m = do
  f ← current_frame m
  _ ← check (ltb idx f.code.local_count)
  h ← rc_decrement (get_or f.locals idx null_value) (heap_of m)
  (v, n) ← pop_stack (with_heap h m)
  ok (advance 5 (modify_frame (λ g. record g { locals = set g.locals idx v }) n))

unfoldable pub increment_local : ℕ → Machine → Result Machine
increment_local idx m = do
  f ← current_frame m
  _ ← check (ltb idx f.code.local_count)
  v ← increment (get_or f.locals idx null_value)
  ok (advance 5 (modify_frame (λ g. record g { locals = set g.locals idx v }) m))

-- The text of an operand of `OP_CONCAT`.
unfoldable pub text_of : Value → Machine → Result (List ℕ)
text_of (str_value a) m = text_at (heap_of m) a
text_of _ m = fault assertion

unfoldable pub concat : Machine → Result Machine
concat m = do
  (v₂, m₁) ← pop_stack m
  (v₁, m₂) ← pop_stack m₁
  s₁ ← text_of v₁ m₂
  s₂ ← text_of v₂ m₂
  let (a, h) = allocate 0 (text (s₁ ++ s₂)) (heap_of m₂)
  m₃ ← push_stack (str_value a) (with_heap h m₂)
  m₄ ← drop_value v₁ m₃
  n ← drop_value v₂ m₄
  ok (advance 1 n)

unfoldable pub call : Program → ℕ → ℕ → Machine → Result Machine
call p func_idx argc m = do
  idx ← patch_function_idx func_idx p
  _ ← check (ltb (idx % 4294967296) (length p.functions))
  fn ← function_at (idx % 4294967296) p
  (args, n) ← pop_args argc m
  vm_invoke fn args (advance 9 n)

-- The assertion counts the function itself among the arguments.
unfoldable pub dynamic_call : Program → ℕ → Machine → Result Machine
dynamic_call p argc m = do
  _ ← check (leb argc (length m.stack))
  (fn, m₁) ← pop_stack m
  _ ← check (raw_type fn == 7)
  _ ← defined (leb argc (length m₁.stack))
  (args, m₂) ← pop_args argc m₁
  (fn_idx, bound) ← closure_at fn m₂
  m₃ ← vm_invoke_closure p fn_idx bound args (advance 5 m₂)
  drop_value fn m₃

-- `argv[0].type.tag.id`
unfoldable pub object_id : List Value → Result ℕ
object_id [] = fault undefined
object_id (v ∷ args) = ok (raw_type v % 2147483648)

unfoldable pub call_virtual : Program → ℕ → ℕ → Machine → Result Machine
call_virtual p id argc m = do
  (args, n) ← pop_args argc m
  object ← object_id args
  func_idx ← elim (select p.virtual_table object id) [
    | selected i ↦ ok i
    | refused ↦ fault assertion
    | outside ↦ fault undefined
  ]
  idx ← patch_function_idx func_idx p
  fn ← function_at (idx % 4294967296) p
  vm_invoke fn args (advance 9 n)

unfoldable pub bind : Program → ℕ → ℕ → Machine → Result Machine
bind p idx argc m = do
  _ ← defined (leb argc (length m.stack))
  (args, m₁) ← pop_args argc m
  (fn, m₂) ← bind_to_function idx args p m₁
  h ← rc_decrement_all args (heap_of m₂)
  n ← place fn (with_heap h m₂)
  ok (advance 9 n)

-- An identity has 31 bits.
unfoldable pub new_obj : ℕ → ℕ → Machine → Result Machine
new_obj id argc m = do
  (args, m₁) ← pop_args argc m
  let (a, h) = allocate 1 (elements args) (heap_of m₁)
  n ← place (object_value (id % 2147483648) a) (with_heap h m₁)
  ok (advance 9 n)

unfoldable pub is_type : ℕ → Machine → Result Machine
is_type type m = do
  (target, m₁) ← pop_stack m
  m₂ ← push_stack (bool_value (raw_type target == type)) m₁
  n ← drop_value target m₂
  ok (advance 2 n)

unfoldable pub jump_if : Bool → ℕ → Machine → Result Machine
jump_if wanted address m = do
  (condition, n) ← pop_stack m
  elim condition [
    | bool_value b ↦ ok (elim b [
      | true ↦ elim wanted [ true ↦ jump address n | false ↦ advance 5 n ]
      | false ↦ elim wanted [ true ↦ advance 5 n | false ↦ jump address n ]
    ])
    | _ ↦ fault assertion
  ]

-- Without a handler nothing changes, the program counter included.
abbrev pub pop_from : List (ℕ × ℕ) → Frame → Frame
pop_from [] f = f
pop_from ((catch_label, finally_label) ∷ handlers) f = record f {
  pc = finally_label;
  try_catch_handlers = handlers;
}

abbrev pub pop_handler : Frame → Frame
pop_handler f = pop_from f.try_catch_handlers f

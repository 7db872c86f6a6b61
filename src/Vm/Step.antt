-- ===== src/Vm/Step.antt =====
-- `run_frame` of src/vm.c: one turn of its loop.
use nib_lang.Base.{
  ℕ, zero, suc, ◌+◌, true, false, [], ◌∷◌, none, some, ltb, ◌==◌, if◌then◌else◌, length, get_or,
  get_elem?, replicate, signed, Bool, List,
}
use nib_lang.Assembler.Opcodes.{
  Op, op_push_const_ref, op_push_i32, op_push_f32, op_push_true, op_push_false, op_push_null,
  op_push_unit, op_push_local, op_store_local, op_stack_dup, op_stack_del, op_call, op_dynamic_call,
  op_return, op_bind, op_new_obj, op_call_virtual, op_add, op_sub, op_mul, op_div, op_and, op_or,
  op_not, op_inc, op_concat, op_bitwise_and, op_modulo, op_less_than, op_less_or_eq, op_equal,
  op_great_or_eq, op_greater_than, op_is, op_jump_if_true, op_jump_if_false, op_jump, op_try_push,
  op_try_pop, op_throw, op_debug,
}
use nib_lang.Vm.{
  Value, bytecode_function, native_function, null_value, unit_value, bool_value, int_value,
  float_value, Machine, Program, str_value,
}
use nib_lang.Vm.Faults.{Result, ok, fault, ◌>>=◌, assertion, check, defined}
use nib_lang.Vm.Numbers.{
  Floats, num_op_add, num_op_sub, num_op_mul, num_op_div, less_than, less_or_eq, equal, great_or_eq,
  greater_than, compare_values, bitwise_and, modulo, value_to_bool, text_at,
}
use nib_lang.Vm.Stack.{
  heap_of, push_stack, pop_stack, drop_value, current_frame, modify_frame, advance, jump,
}
use nib_lang.Vm.Decode.{decode}
use nib_lang.Vm.Calls.{function_at, exit_current_frame, handle_exception}
use nib_lang.Vm.Execute.{
  binary_op, number_op, and_values, or_values, store_local, increment_local, concat, call,
  dynamic_call, call_virtual, bind, new_obj, is_type, jump_if, pop_handler,
}

-- `run_frame` goes on, or returns.
pub data Outcome : Type 0 where
  running stopped : Machine → Outcome

unfoldable pub push_constant : ℕ → Program → Machine → Result Machine
push_constant idx p m = do
  v ← elim (get_elem? p.constants idx) [ none ↦ fault assertion | some v ↦ ok v ]
  n ← push_stack v m
  ok (advance 5 n)

unfoldable pub push_local : ℕ → Machine → Result Machine
push_local idx m = do
  f ← current_frame m
  _ ← check (ltb idx f.code.local_count)
  n ← push_stack (get_or f.locals idx null_value) m
  ok (advance 5 n)

unfoldable pub stack_dup : Machine → Result Machine
stack_dup m = elim (m.stack) [
  | [] ↦ fault assertion
  | v ∷ s ↦ do n ← push_stack v m; ok (advance 1 n)
]

unfoldable pub stack_del : Machine → Result Machine
stack_del m = do (v, m₁) ← pop_stack m; n ← drop_value v m₁; ok (advance 1 n)

unfoldable pub not_value : Floats → Machine → Result Machine
not_value fl m = do
  (v, m₁) ← pop_stack m
  b ← value_to_bool fl (heap_of m₁) v
  n ← push_stack (bool_value (if b then false else true)) m₁
  ok (advance 1 n)

-- The operand stays with the exception: nothing is counted, and the program counter stays.
unfoldable pub throw_value : Machine → Result Machine
throw_value m = do
  (v, n) ← pop_stack m
  ok (record n { store = record n.store { exception = v; unhandled_exception = true } })

-- A `case` of the `switch`, but `OP_RETURN` and `OP_DEBUG`: `x` and `y` are the words behind the
-- opcode, `b` is the byte behind it.
unfoldable pub execute : Floats → Program → Op → ℕ → ℕ → ℕ → Machine → Result Machine
execute fl p op_push_const_ref x y b m = push_constant x p m
execute fl p op_push_i32 x y b m = do n ← push_stack (int_value (signed x)) m; ok (advance 5 n)
execute fl p op_push_f32 x y b m = do n ← push_stack (float_value x) m; ok (advance 5 n)
execute fl p op_push_true x y b m = do n ← push_stack (bool_value true) m; ok (advance 1 n)
execute fl p op_push_false x y b m = do n ← push_stack (bool_value false) m; ok (advance 1 n)
execute fl p op_push_null x y b m = do n ← push_stack null_value m; ok (advance 1 n)
execute fl p op_push_unit x y b m = do n ← push_stack unit_value m; ok (advance 1 n)
execute fl p op_push_local x y b m = push_local x m
execute fl p op_store_local x y b m = store_local x m
execute fl p op_stack_dup x y b m = stack_dup m
execute fl p op_stack_del x y b m = stack_del m
execute fl p op_call x y b m = call p x y m
execute fl p op_dynamic_call x y b m = dynamic_call p x m
execute fl p op_return x y b m = exit_current_frame m
execute fl p op_bind x y b m = bind p x y m
execute fl p op_new_obj x y b m = new_obj x y m
execute fl p op_call_virtual x y b m = call_virtual p x y m
execute fl p op_add x y b m = binary_op (number_op fl num_op_add) m
execute fl p op_sub x y b m = binary_op (number_op fl num_op_sub) m
execute fl p op_mul x y b m = binary_op (number_op fl num_op_mul) m
execute fl p op_div x y b m = binary_op (number_op fl num_op_div) m
execute fl p op_and x y b m = binary_op (and_values fl) m
execute fl p op_or x y b m = binary_op (or_values fl) m
execute fl p op_not x y b m = not_value fl m
execute fl p op_inc x y b m = increment_local x m
execute fl p op_concat x y b m = concat m
execute fl p op_bitwise_and x y b m = binary_op (λ n. bitwise_and) m
execute fl p op_modulo x y b m = binary_op (λ n. modulo) m
execute fl p op_less_than x y b m = binary_op (λ n. compare_values fl less_than) m
execute fl p op_less_or_eq x y b m = binary_op (λ n. compare_values fl less_or_eq) m
execute fl p op_equal x y b m = binary_op (λ n. compare_values fl equal) m
execute fl p op_great_or_eq x y b m = binary_op (λ n. compare_values fl great_or_eq) m
execute fl p op_greater_than x y b m = binary_op (λ n. compare_values fl greater_than) m
execute fl p op_is x y b m = is_type b m
execute fl p op_jump_if_true x y b m = jump_if true x m
execute fl p op_jump_if_false x y b m = jump_if false x m
execute fl p op_jump x y b m = ok (jump x m)
execute fl p op_try_push x y b m = ok (
    advance 9
      (modify_frame (λ f. record f { try_catch_handlers = (x, y) ∷ f.try_catch_handlers }) m))
execute fl p op_try_pop x y b m = ok (modify_frame pop_handler m)
execute fl p op_throw x y b m = throw_value m
execute fl p op_debug x y b m = ok (advance (2 + b) m)

-- After `OP_RETURN` the last frame ends the loop.
unfoldable pub outcome_of : Op → Machine → Outcome
outcome_of op_return m = elim (m.frames) [ [] ↦ stopped m | f ∷ fs ↦ running m ]
outcome_of _ m = running m

unfoldable pub fetch : Floats → Program → Machine → Result Outcome
unfolding decode execute outcome_of
fetch fl p m = do
  f ← current_frame m
  o ← decode f.code.data_bytes f.pc
  elim o [
    | none ↦ ok (stopped m)
    | some i ↦ do n ← execute fl p i.op i.x i.y i.b m; ok (outcome_of i.op n)
  ]

-- `vm_as_str` of the exception that no frame handles, for the message: of another type than a string,
-- nothing is read.
unfoldable pub exception_message : Machine → Result (List ℕ)
unfolding text_at
exception_message m = elim (m.store.exception) [ str_value a ↦ text_at (heap_of m) a | _ ↦ ok [] ]

-- The turn behind `handle_exception`. It began with the frame that was then the current one, and
-- reads its code next: if that frame was left on the way, its memory is gone.
unfoldable pub resume : Floats → Program → Machine → Bool × Machine → Result Outcome
unfolding fetch exception_message
resume fl p m (false, n) = do _ ← exception_message n; ok (stopped n)
resume fl p m (true, n) = do _ ← defined (length n.frames == length m.frames); fetch fl p n

-- One turn: an exception goes to its handler first.
unfoldable pub step : Floats → Program → Machine → Result Outcome
unfolding resume handle_exception
step fl p m = elim (m.store.unhandled_exception) [
  | false ↦ fetch fl p m
  | true ↦ handle_exception m >>= resume fl p m
]

-- At most `n` turns of the loop of `run_frame`.
unfoldable pub run_frame : ℕ → Floats → Program → Machine → Result Outcome
unfolding step
run_frame zero fl p m = ok (running m)
run_frame (suc n) fl p m =
    let rest = λ (m' : Machine). run_frame n fl p m' in
    do o ← step fl p m; elim o [ running m' ↦ rest m' | stopped m' ↦ ok (stopped m') ]

-- `vm_run` up to the loop: the machine with the entry point's frame for its only one.
unfoldable pub enter : Program → ℕ → Machine → Result Machine
enter p entry_point_idx m = do
  let idx = p.native_functions_count + entry_point_idx
  _ ← check (ltb idx (length p.functions))
  fn ← function_at idx p
  elim fn [
    | native_function argc f ↦ fault assertion
    | bytecode_function argc code ↦ ok (record m {
      frames =
          record {
            code = code;
            pc = 0;
            try_catch_handlers = [];
            locals = replicate code.local_count null_value;
          }
          ∷ [];
    })
  ]

-- `vm_run`, of at most `n` turns: the value that is left on the stack once the loop has returned,
-- `running` where it has not.
unfoldable pub vm_run : ℕ → Floats → Program → ℕ → Machine → Result (Value × Outcome)
unfolding enter run_frame
vm_run n fl p entry_point_idx m = do
  m₁ ← enter p entry_point_idx m
  o ← run_frame n fl p m₁
  elim o [
    | running m₂ ↦ ok (null_value, running m₂)
    | stopped m₂ ↦ do (v, m₃) ← pop_stack m₂; ok (v, stopped m₃)
  ]

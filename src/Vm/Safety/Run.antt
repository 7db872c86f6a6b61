-- ===== src/Vm/Safety/Run.antt =====
-- No turn of the machine's loop touches a freed cell.
use nib_lang.Base.{
  ℕ, ◌+◌, true, false, List, [], ◌∷◌, Option, none, some, ◌≡◌, refl, arith, All, ltb, if◌then◌else◌,
  length, signed,
}
use nib_lang.Assembler.Opcodes.{
  Op, op_push_const_ref, op_push_i32, op_push_f32, op_push_true, op_push_false, op_push_null,
  op_push_unit, op_push_local, op_store_local, op_stack_dup, op_stack_del, op_call, op_dynamic_call,
  op_return, op_bind, op_new_obj, op_call_virtual, op_add, op_sub, op_mul, op_div, op_and, op_or,
  op_not, op_inc, op_concat, op_bitwise_and, op_modulo, op_less_than, op_less_or_eq, op_equal,
  op_great_or_eq, op_greater_than, op_is, op_jump_if_true, op_jump_if_false, op_jump, op_try_push,
  op_try_pop, op_throw, op_debug,
}
use nib_lang.Vm.{
  Value, null_value, unit_value, bool_value, int_value, float_value, ref_of, Frame, Machine,
  Program,
}
use nib_lang.Vm.Faults.{ok, ◌>>=◌, Post, returns, Post-bind, Post-defined}
use nib_lang.Vm.Counts.{refs}
use nib_lang.Vm.Numbers.{
  Floats, num_op_add, num_op_sub, num_op_mul, num_op_div, less_than, less_or_eq, equal, great_or_eq,
  greater_than, compare_values, bitwise_and, modulo,
}
use nib_lang.Vm.Stack.{push_stack, advance, modify_frame}
use nib_lang.Vm.Execute.{number_op, and_values, or_values}
use nib_lang.Vm.Step.{Outcome, running, stopped, execute, outcome_of, fetch}
use nib_lang.Vm.Decode.{
  Reads, two_unchecked, reads_of, Instruction, in_bounds, opcode_at, instruction_at, decode,
}
use nib_lang.Vm.Safety.{Sound}
use nib_lang.Vm.Safety.Primitive.{push_plain-Sound, advance-Sound, jump-Sound, modify_frame-Sound}
use nib_lang.Vm.Safety.Calls.{NativeSound, exit_current_frame-Sound}
use nib_lang.Vm.Safety.Values.{
  number_op-Plain, and_values-Plain, or_values-Plain, compare_values-Plain, bitwise_and-Plain,
  modulo-Plain,
}
use nib_lang.Vm.Safety.Ops.{
  binary_op-Sound, is_type-Sound, concat-Sound, new_obj-Sound, jump_if-Sound, call-Sound,
  call_virtual-Sound, dynamic_call-Sound, bind-Sound,
}
use nib_lang.Vm.Safety.Frames.{
  current_frame-Post, store_local-Sound, increment_local-Sound, push_local-Sound, stack_dup-Sound,
  stack_del-Sound, not_value-Sound, throw_value-Sound, pop_handler-Sound, push_constant-Sound,
}

-- The counts cover the references of the machine and of the image's constants.
abbrev pub IsCounted : Program → Machine → Type 0
IsCounted p = Sound (λ a. refs a p.constants)

-- The machine that an outcome carries.
abbrev pub Counted : Program → Outcome → Type 0
Counted p (running m) = IsCounted p m
Counted p (stopped m) = IsCounted p m

module _ (fl : Floats) (p : Program) (natives : All NativeSound p.functions) where
  push_plain-step :
      (n : ℕ) (v : Value) (m : Machine)
      → ref_of v ≡ none
      → IsCounted p m
      → Post (IsCounted p) (push_stack v m >>= λ m'. ok (advance n m'))
  push_plain-step n v m plain k =
      Post-bind (push_plain-Sound (λ a. refs a p.constants) v m plain k)
        λ m' k'. returns (advance-Sound (λ a. refs a p.constants) n m' k')

  pub execute-IsCounted :
      (op : Op) (x y b : ℕ) (m : Machine)
      → IsCounted p m
      → Post (IsCounted p) (execute fl p op x y b m)
  unfolding execute
  execute-IsCounted op_push_const_ref x y b m k = push_constant-Sound p x m k
  execute-IsCounted op_push_i32 x y b m k = push_plain-step 5 (int_value (signed x)) m refl k
  execute-IsCounted op_push_f32 x y b m k = push_plain-step 5 (float_value x) m refl k
  execute-IsCounted op_push_true x y b m k = push_plain-step 1 (bool_value true) m refl k
  execute-IsCounted op_push_false x y b m k = push_plain-step 1 (bool_value false) m refl k
  execute-IsCounted op_push_null x y b m k = push_plain-step 1 null_value m refl k
  execute-IsCounted op_push_unit x y b m k = push_plain-step 1 unit_value m refl k
  execute-IsCounted op_push_local x y b m k = push_local-Sound (λ a. refs a p.constants) x m k
  execute-IsCounted op_store_local x y b m k = store_local-Sound (λ a. refs a p.constants) x m k
  execute-IsCounted op_stack_dup x y b m k = stack_dup-Sound (λ a. refs a p.constants) m k
  execute-IsCounted op_stack_del x y b m k = stack_del-Sound (λ a. refs a p.constants) m k
  execute-IsCounted op_call x y b m k = call-Sound (λ a. refs a p.constants) p x y m natives k
  execute-IsCounted op_dynamic_call x y b m k =
      dynamic_call-Sound (λ a. refs a p.constants) p x m natives k
  execute-IsCounted op_return x y b m k = exit_current_frame-Sound (λ a. refs a p.constants) m k
  execute-IsCounted op_bind x y b m k = bind-Sound (λ a. refs a p.constants) p x y m k
  execute-IsCounted op_new_obj x y b m k = new_obj-Sound (λ a. refs a p.constants) x y m k
  execute-IsCounted op_call_virtual x y b m k =
      call_virtual-Sound (λ a. refs a p.constants) p x y m natives k
  execute-IsCounted op_add x y b m k =
      binary_op-Sound (λ a. refs a p.constants) (number_op fl num_op_add) m
        (λ n v w _ _. number_op-Plain fl num_op_add n v w) k
  execute-IsCounted op_sub x y b m k =
      binary_op-Sound (λ a. refs a p.constants) (number_op fl num_op_sub) m
        (λ n v w _ _. number_op-Plain fl num_op_sub n v w) k
  execute-IsCounted op_mul x y b m k =
      binary_op-Sound (λ a. refs a p.constants) (number_op fl num_op_mul) m
        (λ n v w _ _. number_op-Plain fl num_op_mul n v w) k
  execute-IsCounted op_div x y b m k =
      binary_op-Sound (λ a. refs a p.constants) (number_op fl num_op_div) m
        (λ n v w _ _. number_op-Plain fl num_op_div n v w) k
  execute-IsCounted op_and x y b m k =
      binary_op-Sound (λ a. refs a p.constants) (and_values fl) m (and_values-Plain fl) k
  execute-IsCounted op_or x y b m k =
      binary_op-Sound (λ a. refs a p.constants) (or_values fl) m (or_values-Plain fl) k
  execute-IsCounted op_not x y b m k = not_value-Sound (λ a. refs a p.constants) fl m k
  execute-IsCounted op_inc x y b m k = increment_local-Sound (λ a. refs a p.constants) x m k
  execute-IsCounted op_concat x y b m k = concat-Sound (λ a. refs a p.constants) m k
  execute-IsCounted op_bitwise_and x y b m k =
      binary_op-Sound (λ a. refs a p.constants) (λ n. bitwise_and) m
        (λ n v w _ _. bitwise_and-Plain v w) k
  execute-IsCounted op_modulo x y b m k =
      binary_op-Sound (λ a. refs a p.constants) (λ n. modulo) m (λ n v w _ _. modulo-Plain v w) k
  execute-IsCounted op_less_than x y b m k =
      binary_op-Sound (λ a. refs a p.constants) (λ n. compare_values fl less_than) m
        (λ n v w _ _. compare_values-Plain fl less_than v w) k
  execute-IsCounted op_less_or_eq x y b m k =
      binary_op-Sound (λ a. refs a p.constants) (λ n. compare_values fl less_or_eq) m
        (λ n v w _ _. compare_values-Plain fl less_or_eq v w) k
  execute-IsCounted op_equal x y b m k =
      binary_op-Sound (λ a. refs a p.constants) (λ n. compare_values fl equal) m
        (λ n v w _ _. compare_values-Plain fl equal v w) k
  execute-IsCounted op_great_or_eq x y b m k =
      binary_op-Sound (λ a. refs a p.constants) (λ n. compare_values fl great_or_eq) m
        (λ n v w _ _. compare_values-Plain fl great_or_eq v w) k
  execute-IsCounted op_greater_than x y b m k =
      binary_op-Sound (λ a. refs a p.constants) (λ n. compare_values fl greater_than) m
        (λ n v w _ _. compare_values-Plain fl greater_than v w) k
  execute-IsCounted op_is x y b m k = is_type-Sound (λ a. refs a p.constants) b m k
  execute-IsCounted op_jump_if_true x y b m k = jump_if-Sound (λ a. refs a p.constants) true x m k
  execute-IsCounted op_jump_if_false x y b m k = jump_if-Sound (λ a. refs a p.constants) false x m k
  execute-IsCounted op_jump x y b m k = returns (jump-Sound (λ a. refs a p.constants) x m k)
  execute-IsCounted op_try_push x y b m k =
      let pushed = λ (f : Frame). record f { try_catch_handlers = (x, y) ∷ f.try_catch_handlers } in
      returns (
        advance-Sound (λ a. refs a p.constants) 9 (modify_frame pushed m)
          (modify_frame-Sound (λ a. refs a p.constants) pushed m (λ f a. omega arith) k))
  execute-IsCounted op_try_pop x y b m k = returns (pop_handler-Sound (λ a. refs a p.constants) m k)
  execute-IsCounted op_throw x y b m k = throw_value-Sound (λ a. refs a p.constants) m k
  execute-IsCounted op_debug x y b m k =
      returns (advance-Sound (λ a. refs a p.constants) (2 + b) m k)

  outcome_of-Counted : (op : Op) (m : Machine) → IsCounted p m → Counted p (outcome_of op m)
  unfolding outcome_of
  outcome_of-Counted op_return m k = at_frames m.frames
    where
      at_frames : (fs : List Frame) → Counted p (elim fs [ [] ↦ stopped m | f ∷ gs ↦ running m ])
      at_frames [] = k
      at_frames (f ∷ gs) = k
  outcome_of-Counted _ m k = k

  in_bounds-Post : (r : Reads) (pc : ℕ) (bytes : List ℕ) → Post (λ _. Unit) (in_bounds r pc bytes)
  unfolding in_bounds
  in_bounds-Post two_unchecked pc bytes =
      Post-bind (Post-defined (ltb (pc + 8) (length bytes))) λ _ _. returns tt
  in_bounds-Post _ pc bytes = returns tt

  decode-Post : (bytes : List ℕ) (pc : ℕ) → Post (λ _. Unit) (decode bytes pc)
  unfolding decode
  decode-Post bytes pc = at_opcode (opcode_at bytes pc)
    where
      at_opcode :
          (o : Option Op)
          → Post
              (λ _. Unit)
              (elim o [
                | none ↦ ok none
                | some op ↦ in_bounds (reads_of op) pc bytes >>= λ inside.
                    ok (if inside then some (instruction_at bytes pc op) else none)
              ])
      at_opcode none = returns tt
      at_opcode (some op) = Post-bind (in_bounds-Post (reads_of op) pc bytes) λ inside _. returns tt

  pub fetch-Counted : (m : Machine) → IsCounted p m → Post (Counted p) (fetch fl p m)
  unfolding fetch
  fetch-Counted m k =
      Post-bind (current_frame-Post m)
        λ f at_f. Post-bind (decode-Post f.code.data_bytes f.pc) λ o _. at_instruction o
    where
      at_instruction :
          (o : Option Instruction)
          → Post (Counted p) (elim o [
            | none ↦ ok (stopped m)
            | some i ↦ execute fl p i.op i.x i.y i.b m >>= λ n. ok (outcome_of i.op n)
          ])
      at_instruction none = returns k
      at_instruction (some i) =
          Post-bind (execute-IsCounted i.op i.x i.y i.b m k)
            λ n k₁. returns (outcome_of-Counted i.op n k₁)

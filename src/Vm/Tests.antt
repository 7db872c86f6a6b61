-- ===== src/Vm/Tests.antt =====
-- Runs of the machine, and its theorems at concrete machines.
use nib_lang.Vm.Execute.{call, new_obj}
use nib_lang.Vm.Decode.{decode, opcode_at, in_bounds, reads_of}
use nib_lang.Base.{
  zero, suc, ◌+◌, true, false, List, [], ◌∷◌, some, ◌≡◌, refl, arith, pos, ltb, ◌==◌, signed, ◌⊎◌,
  ℤ, negsuc, fits_i32, tdiv, ◌*ℤ◌, ◌+ℤ◌,
}
use nib_lang.Assembler.{empty}
use nib_lang.Assembler.Emit.{push_try_at, emit}
use nib_lang.Assembler.Listing.{written_op}
use nib_lang.Assembler.Opcodes.{op_try_push, op_of, op_code}
use nib_lang.Vm.{
  Value, null_value, unit_value, int_value, float_value, str_value, text, elements, live, Heap,
  Bytecode, Frame, Store, Machine, bytecode_function, native_function, Program, object_value,
}
use nib_lang.Vm.Faults.{Result, ok, ◌>>=◌, Post, count_overflow, undefined, fault}
use nib_lang.Vm.Heap.{
  rc_increment, rc_decrement, rc_decrement_all, release, drop_one, drop_ref, drop_cell,
  increment_ref, increment_cell, allocate,
}
use nib_lang.Vm.Counts.{Covers, points_to}
use nib_lang.Vm.Release.{rc_decrement-Covers, release_enough}
use nib_lang.Vm.Numbers.{
  Floats, num_op_mul, num_op_div, int_op, int_or_float, handle_number_op, bitwise_and, modulo,
}
use nib_lang.Vm.Bounds.{FitsWord, Yields, handle_number_op-FitsWord}
use nib_lang.Vm.Division.{IsRemainder, handle_number_op-modulo}
use nib_lang.Vm.Stack.{
  push_stack, pop_stack, place, pop_args, drop_value, take_top, modify_frame, current_frame,
}
use nib_lang.Vm.Calls.{
  handle_exception, vm_invoke, patch_function_idx, function_at, exit_current_frame, dispatch,
}
use nib_lang.Vm.Decode.Emitted.{DecodesAs, decode-emit, operands_of}
use nib_lang.Vm.Step.{
  stopped, run_frame, vm_run, enter, step, fetch, execute, outcome_of, push_constant, stack_del,
  throw_value, resume,
}
use nib_lang.Vm.Safety.{Sound}
use nib_lang.Vm.Safety.Run.{IsCounted}
use nib_lang.Vm.Safety.Loop.{HandsOut, vm_run-HandsOut, until_native}
use nib_lang.Vm.Exceptions.{Lands, nearest, handle_exception-Lands, step-escapes, left_locals}

-- An arithmetic that never rounds to anything but 0.
abbrev floats : Floats
floats = record {
  add_f = λ x y. 0;
  sub_f = λ x y. 0;
  mul_f = λ x y. 0;
  div_f = λ x y. 0;
  of_i32 = λ i. 0;
  less_f = λ x y. ltb x y;
  less_eq_f = λ x y. true;
  equal_f = λ x y. x == y;
}

-- A native function that gives up its arguments and answers with the unit.
ignore : List Value → Store → Result (Value × Store)
ignore args s = do h ← rc_decrement_all args s.heap; ok (unit_value, record s { heap = h })

-- `main` pushes a string, drops it in a native call, makes an object of a number, throws the
-- object into its own handler, and returns what the handler finds.
abbrev main_code : Bytecode
main_code = record {
  data_bytes =
      37 ∷ 40 ∷ 0 ∷ 0 ∷ 0 ∷ 0 ∷ 0 ∷ 0 ∷ 0 ∷ 0 ∷ 0 ∷ 0 ∷ 0 ∷ 0 ∷ 11 ∷ 0 ∷ 0 ∷ 0 ∷ 128 ∷ 1 ∷ 0 ∷ 0 ∷ 0
      ∷ 10 ∷ 1 ∷ 5 ∷ 0 ∷ 0 ∷ 0 ∷ 15 ∷ 3 ∷ 0 ∷ 0 ∷ 0 ∷ 1 ∷ 0 ∷ 0 ∷ 0 ∷ 39 ∷ 0 ∷ 13 ∷ [];
  local_count = 1;
}

abbrev program : Program
program = record {
  constants = str_value 0 ∷ [];
  functions = native_function 1 ignore ∷ bytecode_function 0 main_code ∷ [];
  native_functions_count = 1;
  virtual_table = record { dispatch_offset = 0; dispatch_size = 0; dispatch_table = [] };
}

abbrev start : Machine
start = record {
  stack = [];
  frames = [];
  store = record {
    heap = live 1 (text (104 ∷ 105 ∷ [])) ∷ [];
    exception = null_value;
    unhandled_exception = false;
  };
}

-- One reference to the string, and no more.
start-Covers : Covers (λ a. points_to a (some 0) + 0) start.store.heap
start-Covers zero = omega arith
start-Covers (suc a) = ground arith

-- The same without the native call: `main` drops the string itself.
abbrev bytecode_only : Program
bytecode_only = record {
  constants = str_value 0 ∷ [];
  functions =
      bytecode_function 0 (record {
        data_bytes =
            37 ∷ 31 ∷ 0 ∷ 0 ∷ 0 ∷ 0 ∷ 0 ∷ 0 ∷ 0 ∷ 0 ∷ 0 ∷ 0 ∷ 0 ∷ 0 ∷ 10 ∷ 1 ∷ 5 ∷ 0 ∷ 0 ∷ 0 ∷ 15
            ∷ 3 ∷ 0 ∷ 0 ∷ 0 ∷ 1 ∷ 0 ∷ 0 ∷ 0 ∷ 39 ∷ 0 ∷ 13 ∷ [];
        local_count = 1;
      })
      ∷ [];
  native_functions_count = 0;
  virtual_table = record { dispatch_offset = 0; dispatch_size = 0; dispatch_table = [] };
}

bytecode_only-IsCounted : IsCounted bytecode_only start
bytecode_only-IsCounted zero = omega arith
bytecode_only-IsCounted (suc a) = ground arith

vm_run-HandsOut_example :
    Post (HandsOut bytecode_only) (vm_run 20 floats (until_native bytecode_only) 0 start)
vm_run-HandsOut_example = vm_run-HandsOut floats bytecode_only 20 0 start bytecode_only-IsCounted

-- The machine at the end: the string counts the constant alone, the object the exception, which is
-- not given up, and the result.
abbrev finish : Machine
finish = record {
  stack = [];
  frames = [];
  store = record {
    heap = live 1 (text (104 ∷ 105 ∷ [])) ∷ live 2 (elements (int_value (pos 5) ∷ [])) ∷ [];
    exception = object_value 3 1;
    unhandled_exception = false;
  };
}

main_returns : vm_run 20 floats program 0 start ≡ ok (object_value 3 1, stopped finish)
unfolding vm_run enter run_frame step resume fetch decode opcode_at op_of in_bounds reads_of execute
    outcome_of push_constant push_stack pop_stack place pop_args take_top drop_value call new_obj
    modify_frame stack_del throw_value exit_current_frame handle_exception dispatch current_frame
    vm_invoke function_at patch_function_idx rc_increment increment_ref increment_cell rc_decrement
    rc_decrement_all release drop_one drop_ref drop_cell allocate ignore signed
main_returns = refl

bytecode_only_returns :
    vm_run 20 floats (until_native bytecode_only) 0 start ≡ ok (object_value 3 1, stopped finish)
unfolding vm_run enter run_frame step resume fetch decode opcode_at op_of in_bounds reads_of execute
    outcome_of push_constant push_stack pop_stack place pop_args take_top drop_value call new_obj
    modify_frame stack_del throw_value exit_current_frame handle_exception dispatch current_frame
    vm_invoke function_at patch_function_idx rc_increment increment_ref increment_cell rc_decrement
    rc_decrement_all release drop_one drop_ref drop_cell allocate signed
bytecode_only_returns = refl

release_enough_example :
    release (1 + 4) (str_value 0 ∷ []) start.store.heap
    ≡ release 1 (str_value 0 ∷ []) start.store.heap
release_enough_example = release_enough 1 4 (str_value 0 ∷ []) start.store.heap (omega arith)

rc_decrement-Covers_example :
    (h : Heap) × (rc_decrement (str_value 0) start.store.heap ≡ ok h) × Covers (λ a. 0) h
rc_decrement-Covers_example =
    rc_decrement-Covers (str_value 0) (λ a. 0) start.store.heap start-Covers

tried :
    emit (push_try_at 7 9) empty
    ≡ some (record empty { bytes = 37 ∷ 7 ∷ 0 ∷ 0 ∷ 0 ∷ 9 ∷ 0 ∷ 0 ∷ 0 ∷ [] })
unfolding emit op_code
tried = refl

decode-emit_example :
    DecodesAs (37 ∷ 7 ∷ 0 ∷ 0 ∷ 0 ∷ 9 ∷ 0 ∷ 0 ∷ 0 ∷ 13 ∷ []) 0 op_try_push (7 ∷ 9 ∷ [])
unfolding operands_of written_op
decode-emit_example = decode-emit 13 [] (push_try_at 7 9) empty tried tt refl

-- A frame without a handler is left; the one around it catches, and drops this handler.
abbrev callee : Frame
callee = record { code = main_code; pc = 7; try_catch_handlers = []; locals = str_value 0 ∷ [] }

abbrev caller : Frame
caller = record {
  code = main_code;
  pc = 14;
  try_catch_handlers = (40, 0) ∷ (3, 0) ∷ [];
  locals = null_value ∷ [];
}

abbrev thrown : Machine
thrown = record {
  stack = [];
  frames = callee ∷ caller ∷ [];
  store = record {
    heap = live 2 (text (104 ∷ 105 ∷ [])) ∷ [];
    exception = str_value 0;
    unhandled_exception = true;
  };
}

thrown-Sound : Sound (λ a. 0) thrown
thrown-Sound zero = omega arith
thrown-Sound (suc a) = ground arith

handle_exception-Lands_example :
    Lands thrown
      (str_value 0 ∷ [])
      (some (record caller { pc = 40; try_catch_handlers = (3, 0) ∷ [] } ∷ []))
      (handle_exception thrown)
unfolding nearest left_locals
handle_exception-Lands_example = handle_exception-Lands (λ a. 0) thrown thrown-Sound (omega arith)

step-escapes_example :
    (step floats program thrown ≡ fault undefined)
    ⊎ (step floats program thrown ≡ fault count_overflow)
unfolding nearest
step-escapes_example =
    step-escapes floats program (λ a. 0) thrown callee (caller ∷ [])
      (record caller { pc = 40; try_catch_handlers = (3, 0) ∷ [] } ∷ []) thrown-Sound (omega arith)
      refl refl refl refl

handle_number_op-FitsWord_example :
    Yields FitsWord (handle_number_op floats num_op_div (int_value (negsuc 6)) (int_value (pos 2)))
    × Yields FitsWord (bitwise_and (int_value (negsuc 6)) (int_value (pos 2)))
unfolding fits_i32
handle_number_op-FitsWord_example =
    handle_number_op-FitsWord floats num_op_div (negsuc 6) (pos 2) refl refl

handle_number_op-modulo_example :
    (q : ℤ) × (r : ℤ) × (handle_number_op floats num_op_div
        (int_value (negsuc 6))
        (int_value (pos 2))
      ≡ ok (int_value q))
    × (modulo (int_value (negsuc 6)) (int_value (pos 2)) ≡ ok (int_value r))
    × ((q *ℤ pos 2) +ℤ r ≡ negsuc 6)
    × IsRemainder (negsuc 6) (pos 2) r
handle_number_op-modulo_example = handle_number_op-modulo floats (negsuc 6) (pos 2) refl

-- -7 / 2 is -3.
handle_number_op_truncates :
    handle_number_op floats num_op_div (int_value (negsuc 6)) (int_value (pos 2))
    ≡ ok (int_value (negsuc 2))
unfolding handle_number_op int_op tdiv
handle_number_op_truncates = refl

-- 65536 * 65536 does not fit, and becomes a `float`.
handle_number_op_overflows :
    handle_number_op floats num_op_mul (int_value (pos 65536)) (int_value (pos 65536))
    ≡ ok (float_value 0)
unfolding handle_number_op int_op int_or_float fits_i32 ◌*ℤ◌
handle_number_op_overflows = refl

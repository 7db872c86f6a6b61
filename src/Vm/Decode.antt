-- ===== src/Vm/Decode.antt =====
-- `run_frame` of src/vm.c: the opcode at the program counter and the operands behind it.
mod Shift
pub mod Emitted
use nib_lang.Base.{
  ℕ, ◌+◌, Bool, true, false, List, Option, none, some, ltb, if◌then◌else◌, length, get_or,
  read_word, Bytes,
}
use nib_lang.Assembler.Opcodes.{
  Op, op_of, op_push_const_ref, op_push_i32, op_push_f32, op_push_local, op_store_local, op_call,
  op_dynamic_call, op_bind, op_new_obj, op_call_virtual, op_inc, op_is, op_jump_if_true,
  op_jump_if_false, op_jump, op_try_push, op_debug,
}
use nib_lang.Vm.Faults.{Result, ok, ◌>>=◌, defined}

-- What the `case` of an opcode reads behind it: words of four bytes, a byte, or a byte that counts
-- those behind it. `OP_TRY_PUSH` reads its two words unchecked.
pub data Reads : Type 0 where
  nothing one_word two_words two_unchecked one_byte counted_bytes : Reads

unfoldable pub reads_of : Op → Reads
reads_of op_push_const_ref = one_word
reads_of op_push_i32 = one_word
reads_of op_push_f32 = one_word
reads_of op_push_local = one_word
reads_of op_store_local = one_word
reads_of op_inc = one_word
reads_of op_dynamic_call = one_word
reads_of op_jump_if_true = one_word
reads_of op_jump_if_false = one_word
reads_of op_jump = one_word
reads_of op_call = two_words
reads_of op_bind = two_words
reads_of op_new_obj = two_words
reads_of op_call_virtual = two_words
reads_of op_try_push = two_unchecked
reads_of op_is = one_byte
reads_of op_debug = counted_bytes
reads_of _ = nothing

-- The opcode, the words that `read_u32_arg` gives for 0 and 1, and the byte behind the opcode.
pub record Instruction : Type 0 where
  pub op : Op
  pub x : ℕ
  pub y : ℕ
  pub b : ℕ

-- `CHECK_BOUNDS` of the last operand: `false` returns from `run_frame`.
unfoldable pub in_bounds : Reads → ℕ → Bytes → Result Bool
in_bounds nothing pc bytes = ok true
in_bounds one_word pc bytes = ok (ltb (pc + 4) (length bytes))
in_bounds two_words pc bytes = ok (ltb (pc + 8) (length bytes))
in_bounds two_unchecked pc bytes = do _ ← defined (ltb (pc + 8) (length bytes)); ok true
in_bounds one_byte pc bytes = ok (ltb (pc + 1) (length bytes))
in_bounds counted_bytes pc bytes = ok (
    if ltb (pc + 1) (length bytes)
    then ltb (pc + 2 + get_or bytes (pc + 1) 0) (length bytes)
    else false)

-- The opcode at `pc`, where there is one.
unfoldable pub opcode_at : Bytes → ℕ → Option Op
opcode_at bytes pc = if ltb pc (length bytes) then op_of (get_or bytes pc 0) else none

abbrev pub instruction_at : Bytes → ℕ → Op → Instruction
instruction_at bytes pc op = record {
  op = op;
  x = read_word bytes (pc + 1);
  y = read_word bytes (pc + 5);
  b = get_or bytes (pc + 1) 0;
}

-- `none` returns from `run_frame`.
unfoldable pub decode : Bytes → ℕ → Result (Option Instruction)
unfolding in_bounds opcode_at reads_of
decode bytes pc = elim (opcode_at bytes pc) [
  | none ↦ ok none
  | some op ↦ do
    inside ← in_bounds (reads_of op) pc bytes
    ok (if inside then some (instruction_at bytes pc op) else none)
]

-- ===== src/Assembler/Dump.antt =====
-- `DumpByteCode` as a walk over the code: each line that it prints is a triple of the address, the
-- opcode and the decoded operands. `none` is a read behind the end of the vector.
use nib_lang.Base.{
  ℕ, zero, suc, ◌+◌, List, [], ◌∷◌, Option, none, some, Bytes, join_bytes, take, drop, length, leb,
  if◌then◌else◌,
}
use nib_lang.Assembler.Opcodes.{
  Op, op_push_const_ref, op_push_i32, op_push_f32, op_push_local, op_store_local, op_jump_if_true,
  op_jump_if_false, op_jump, op_dynamic_call, op_bind, op_call, op_call_virtual, op_new_obj,
  op_try_push, op_debug, op_is, op_of,
}

-- How the operands behind an opcode are read.
pub data Shape : Type 0 where
  bare one_word two_words one_byte text : Shape

-- The cases of the switch in `DumpByteCode`.
unfoldable pub dump_shape : Op → Shape
dump_shape op_push_const_ref = one_word
dump_shape op_push_i32 = one_word
dump_shape op_push_local = one_word
dump_shape op_store_local = one_word
dump_shape op_push_f32 = one_word
dump_shape op_jump_if_true = one_word
dump_shape op_jump_if_false = one_word
dump_shape op_jump = one_word
dump_shape op_dynamic_call = one_word
dump_shape op_bind = two_words
dump_shape op_call = two_words
dump_shape op_call_virtual = two_words
dump_shape op_new_obj = two_words
dump_shape op_try_push = two_words
dump_shape op_debug = text
dump_shape op_is = one_byte
dump_shape _ = bare

pub record Operands : Type 0 where
  pub values : List ℕ
  pub skip : ℕ
  pub rest : Bytes

-- The operands at the head of the code, how far `pc` moves behind the opcode, and what follows.
unfoldable pub read_operands : Shape → Bytes → Option Operands
read_operands bare bs = some (record { values = []; skip = 0; rest = bs })
read_operands one_byte (t ∷ bs) = some (record { values = t ∷ []; skip = 1; rest = bs })
read_operands one_word (a ∷ b ∷ c ∷ d ∷ bs) =
    some (record { values = join_bytes a b c d ∷ []; skip = 4; rest = bs })
read_operands two_words (a ∷ b ∷ c ∷ d ∷ e ∷ f ∷ g ∷ h ∷ bs) =
    some (record { values = join_bytes a b c d ∷ join_bytes e f g h ∷ []; skip = 8; rest = bs })
read_operands text (n ∷ bs) =
    if leb n (length bs)
    then some (record { values = take n bs; skip = suc n; rest = drop n bs })
    else none
read_operands _ _ = none

pub record Line : Type 0 where
  pub address : ℕ
  pub op : Op
  pub values : List ℕ

-- The loop over `pc`, on fuel; a byte that is no opcode prints nothing.
unfoldable pub dump : ℕ → Bytes → ℕ → Option (List Line)
dump zero bs pc = none
dump (suc f) [] pc = some []
dump (suc f) (b ∷ bs) pc = elim (op_of b) [
  | none ↦ dump f bs (pc + 1)
  | some o ↦ elim (read_operands (dump_shape o) bs) [
    | none ↦ none
    | some t ↦ elim (dump f t.rest (pc + 1 + t.skip)) [
      | none ↦ none
      | some ls ↦ some (record { address = pc; op = o; values = t.values } ∷ ls)
    ]
  ]
]

-- `DumpByteCode(bytecode)`: one step for each byte and one for the end is enough.
unfoldable pub dump_byte_code : Bytes → Option (List Line)
dump_byte_code bs = dump (suc (length bs)) bs 0

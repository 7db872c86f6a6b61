-- ===== src/Assembler/Emit.antt =====
-- The methods of `class Assembler` that append to the buffer, one constructor each.
-- An `int32_t` or `float` argument is its 32-bit pattern. `none` is a call of `std::abort`, or a
-- failed `assert`.
use Prim.Native.String.{String}
use nib_lang.Base.{
  ℕ, ◌+◌, ◌%◌, ◌^◌, max, Bool, List, [], ◌∷◌, ◌++◌, Option, none, some, ltb, if◌then◌else◌, length,
  Bytes, word_bytes,
}
use nib_lang.Assembler.Opcodes.{
  Op, op_code, op_push_const_ref, op_push_i32, op_push_f32, op_push_true, op_push_false,
  op_push_null, op_push_unit, op_push_local, op_store_local, op_stack_dup, op_stack_del, op_call,
  op_dynamic_call, op_return, op_bind, op_new_obj, op_call_virtual, op_add, op_sub, op_mul, op_div,
  op_and, op_or, op_not, op_inc, op_concat, op_bitwise_and, op_modulo, op_is, op_jump_if_true,
  op_jump_if_false, op_jump, op_try_push, op_try_pop, op_throw, op_debug,
}
use nib_lang.Assembler.{
  Assembler, offset, push_bytes, push_op_and_args, push_op, find_label, put_patch,
}

pub data Emit : Type 0 where
  push_nil push_unit stack_dup stack_del add subtract multiply divide and_op : Emit
  or_op not_op concat bitwise_and modulo return_op pop_try throw : Emit
  push_const_ref push_int32 call_dynamic increment jump_if_true_at jump_if_false_at jump_at :
      ℕ → Emit
  call bind new_object call_virtual push_try_at : ℕ → ℕ → Emit
  push_float push_local store_local : ℕ → Emit
  push_bool : Bool → Emit
  compare_op : Op → Emit
  is_type : ℕ → Emit
  patch_call patch_bind patch_new_object patch_call_virtual : ℕ → ℕ → Emit
  label jump jump_if_true jump_if_false : String → Emit
  push_try : String → String → Emit
  debug_string : Bytes → Emit

-- `max_local_index = std::max(max_local_index, idx)`
abbrev pub note_local : ℕ → Assembler → Assembler
note_local idx a = record a { max_local_index = max a.max_local_index idx }

-- `index_address = data_.size() + 1`, stored as a `uint32_t`.
abbrev pub note_call : ℕ → Assembler → Assembler
note_call idx a = record a {
  call_patch_locations = a.call_patch_locations ++ (idx, (offset a + 1) % 2 ^ 32) ∷ [];
}

abbrev pub note_object : ℕ → Assembler → Assembler
note_object id a = record a {
  virtual_patch_locations = a.virtual_patch_locations ++ (id, (offset a + 1) % 2 ^ 32) ∷ [];
}

-- The location of a known label; else 0, and the label goes into the patch table under the
-- `uint32_t` of the address.
unfoldable pub get_location_for_label : String → ℕ → Assembler → ℕ × Assembler
get_location_for_label l value_idx a = elim (find_label l a.label_to_location) [
  | some loc ↦ (loc, a)
  | none ↦ (0, record a { patch_locations = put_patch (value_idx % 2 ^ 32) l a.patch_locations })
]

unfoldable pub define_label : String → Assembler → Option Assembler
define_label l a = elim (find_label l a.label_to_location) [
  | some loc ↦ none
  | none ↦ some (record a { label_to_location = (l, offset a % 2 ^ 32) ∷ a.label_to_location })
]

unfoldable pub jump_to : Op → String → Assembler → Assembler
unfolding get_location_for_label
jump_to op l a =
    let (address, a') = get_location_for_label l (offset a + 1) a in
    push_op_and_args a' op (address ∷ [])

unfoldable pub push_try_to : String → String → Assembler → Assembler
unfolding get_location_for_label
push_try_to catch_label finally_label a =
    let (catch_addr, a₁) = get_location_for_label catch_label (offset a + 1) a in
    let (finally_addr, a₂) = get_location_for_label finally_label (offset a₁ + 5) a₁ in
    push_op_and_args a₂ op_try_push (catch_addr ∷ finally_addr ∷ [])

unfoldable pub emit_debug : Bytes → Assembler → Option Assembler
emit_debug m a =
    if ltb (length m) 256 then some (push_bytes a (op_code op_debug ∷ length m % 256 ∷ m)) else none

unfoldable pub emit : Emit → Assembler → Option Assembler
unfolding define_label jump_to push_try_to emit_debug
emit push_nil a = some (push_op a op_push_null)
emit push_unit a = some (push_op a op_push_unit)
emit stack_dup a = some (push_op a op_stack_dup)
emit stack_del a = some (push_op a op_stack_del)
emit add a = some (push_op a op_add)
emit subtract a = some (push_op a op_sub)
emit multiply a = some (push_op a op_mul)
emit divide a = some (push_op a op_div)
emit and_op a = some (push_op a op_and)
emit or_op a = some (push_op a op_or)
emit not_op a = some (push_op a op_not)
emit concat a = some (push_op a op_concat)
emit bitwise_and a = some (push_op a op_bitwise_and)
emit modulo a = some (push_op a op_modulo)
emit return_op a = some (push_op a op_return)
emit pop_try a = some (push_op a op_try_pop)
emit throw a = some (push_op a op_throw)
emit (push_const_ref x) a = some (push_op_and_args a op_push_const_ref (x ∷ []))
emit (push_int32 x) a = some (push_op_and_args a op_push_i32 (x ∷ []))
emit (call_dynamic x) a = some (push_op_and_args a op_dynamic_call (x ∷ []))
emit (increment x) a = some (push_op_and_args a op_inc (x ∷ []))
emit (jump_if_true_at x) a = some (push_op_and_args a op_jump_if_true (x ∷ []))
emit (jump_if_false_at x) a = some (push_op_and_args a op_jump_if_false (x ∷ []))
emit (jump_at x) a = some (push_op_and_args a op_jump (x ∷ []))
emit (call x y) a = some (push_op_and_args a op_call (x ∷ y ∷ []))
emit (bind x y) a = some (push_op_and_args a op_bind (x ∷ y ∷ []))
emit (new_object x y) a = some (push_op_and_args a op_new_obj (x ∷ y ∷ []))
emit (call_virtual x y) a = some (push_op_and_args a op_call_virtual (x ∷ y ∷ []))
emit (push_try_at x y) a = some (push_op_and_args a op_try_push (x ∷ y ∷ []))
emit (push_float f) a = some (push_bytes a (op_code op_push_f32 ∷ word_bytes f))
emit (push_local idx) a = some (push_op_and_args (note_local idx a) op_push_local (idx ∷ []))
emit (store_local idx) a = some (push_op_and_args (note_local idx a) op_store_local (idx ∷ []))
emit (push_bool b) a = some (push_op a (if b then op_push_true else op_push_false))
emit (compare_op op) a = some (push_op a op)
emit (is_type t) a = some (push_bytes a (op_code op_is ∷ (t % 256) ∷ []))
emit (patch_call i n) a = some (push_op_and_args (note_call i a) op_call (i ∷ n ∷ []))
emit (patch_bind i n) a = some (push_op_and_args (note_call i a) op_bind (i ∷ n ∷ []))
emit (patch_new_object i n) a = some (push_op_and_args (note_object i a) op_new_obj (i ∷ n ∷ []))
emit (patch_call_virtual i n) a =
    some (push_op_and_args (note_call i a) op_call_virtual (i ∷ n ∷ []))
emit (label l) a = define_label l a
emit (jump l) a = some (jump_to op_jump l a)
emit (jump_if_true l) a = some (jump_to op_jump_if_true l a)
emit (jump_if_false l) a = some (jump_to op_jump_if_false l a)
emit (push_try c f) a = some (push_try_to c f a)
emit (debug_string m) a = emit_debug m a

-- A chain of method calls.
unfoldable pub emit_all : List Emit → Assembler → Option Assembler
emit_all [] a = some a
emit_all (e ∷ es) a = elim (emit e a) [ none ↦ none | some b ↦ emit_all es b ]

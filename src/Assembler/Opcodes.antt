-- ===== src/Assembler/Opcodes.antt =====
-- The opcodes of src/types.h, in the order of the C enumeration.
use nib_lang.Base.{ℕ, Option, some, List, [], ◌∷◌, get_elem?, ◌≡◌, refl}

pub data Op : Type 0 where
  op_push_const_ref op_push_i32 op_push_f32 op_push_true op_push_false op_push_null : Op
  op_push_unit op_push_local op_store_local op_stack_dup op_stack_del : Op
  op_call op_dynamic_call op_return op_bind op_new_obj op_call_virtual : Op
  op_add op_sub op_mul op_div op_and op_or op_not op_inc op_concat op_bitwise_and op_modulo : Op
  op_less_than op_less_or_eq op_equal op_great_or_eq op_greater_than op_is : Op
  op_jump_if_true op_jump_if_false op_jump op_try_push op_try_pop op_throw op_debug : Op

-- The value of the enumerator, which is its byte in the stream.
unfoldable pub op_code : Op → ℕ
op_code op_push_const_ref = 0
op_code op_push_i32 = 1
op_code op_push_f32 = 2
op_code op_push_true = 3
op_code op_push_false = 4
op_code op_push_null = 5
op_code op_push_unit = 6
op_code op_push_local = 7
op_code op_store_local = 8
op_code op_stack_dup = 9
op_code op_stack_del = 10
op_code op_call = 11
op_code op_dynamic_call = 12
op_code op_return = 13
op_code op_bind = 14
op_code op_new_obj = 15
op_code op_call_virtual = 16
op_code op_add = 17
op_code op_sub = 18
op_code op_mul = 19
op_code op_div = 20
op_code op_and = 21
op_code op_or = 22
op_code op_not = 23
op_code op_inc = 24
op_code op_concat = 25
op_code op_bitwise_and = 26
op_code op_modulo = 27
op_code op_less_than = 28
op_code op_less_or_eq = 29
op_code op_equal = 30
op_code op_great_or_eq = 31
op_code op_greater_than = 32
op_code op_is = 33
op_code op_jump_if_true = 34
op_code op_jump_if_false = 35
op_code op_jump = 36
op_code op_try_push = 37
op_code op_try_pop = 38
op_code op_throw = 39
op_code op_debug = 40

all_ops : List Op
all_ops =
    op_push_const_ref ∷ op_push_i32 ∷ op_push_f32 ∷ op_push_true ∷ op_push_false ∷ op_push_null
    ∷ op_push_unit ∷ op_push_local ∷ op_store_local ∷ op_stack_dup ∷ op_stack_del ∷ op_call
    ∷ op_dynamic_call ∷ op_return ∷ op_bind ∷ op_new_obj ∷ op_call_virtual ∷ op_add ∷ op_sub
    ∷ op_mul ∷ op_div ∷ op_and ∷ op_or ∷ op_not ∷ op_inc ∷ op_concat ∷ op_bitwise_and ∷ op_modulo
    ∷ op_less_than ∷ op_less_or_eq ∷ op_equal ∷ op_great_or_eq ∷ op_greater_than ∷ op_is
    ∷ op_jump_if_true ∷ op_jump_if_false ∷ op_jump ∷ op_try_push ∷ op_try_pop ∷ op_throw ∷ op_debug
    ∷ []

-- `static_cast<op_t>(byte)`; `none` where no enumerator has the value.
unfoldable pub op_of : ℕ → Option Op
unfolding all_ops
op_of n = get_elem? all_ops n

pub op_of-op_code : (op : Op) → op_of (op_code op) ≡ some op
unfolding op_of op_code
op_of-op_code op_push_const_ref = refl
op_of-op_code _ = refl

-- ===== src/Vm/Numbers.antt =====
-- Truth, arithmetic and comparison of values, in src/vm.c. The arithmetic of `float` is a parameter:
-- C's own, on 32-bit patterns.
use nib_lang.Base.{
  ℕ, Bool, true, false, ◌&&◌, ◌||◌, not, List, ltb, ◌==◌, if◌then◌else◌, length, ℤ, pos, negsuc,
  ◌+ℤ◌, ◌-ℤ◌, ◌*ℤ◌, ltb_ℤ, leb_ℤ, eqb_ℤ, tdiv, tmod, fits_i32, signed, pattern_of, bit_and,
}
use nib_lang.Vm.{
  Value, null_value, unit_value, bool_value, int_value, float_value, str_value, map_value,
  function_value, promise_value, array_value, object_value, raw_type, text, closure, elements,
  freed, live, Heap,
}
use nib_lang.Vm.Faults.{
  Result, ok, fault, ◌>>=◌, assertion, undefined, use_after_free, check, defined,
}
use nib_lang.Vm.Heap.{cell_at}

pub record Floats : Type 0 where
  pub add_f : ℕ → ℕ → ℕ
  pub sub_f : ℕ → ℕ → ℕ
  pub mul_f : ℕ → ℕ → ℕ
  pub div_f : ℕ → ℕ → ℕ
  pub of_i32 : ℤ → ℕ
  pub less_f : ℕ → ℕ → Bool
  pub less_eq_f : ℕ → ℕ → Bool
  pub equal_f : ℕ → ℕ → Bool

-- `num_op_t`
pub data NumOp : Type 0 where
  num_op_add num_op_sub num_op_mul num_op_div : NumOp

-- The relation of an `EQUALITY_CASE`.
pub data Comparison : Type 0 where
  less_than less_or_eq equal great_or_eq greater_than : Comparison

unfoldable pub is_number_type : Value → Bool
unfolding raw_type
is_number_type v = raw_type v == 3 || raw_type v == 4

-- The text behind a `String`.
unfoldable pub text_at : Heap → ℕ → Result (List ℕ)
text_at h a = elim (cell_at h a) [
  | freed ↦ fault use_after_free
  | live n (text s) ↦ ok s
  | live n (closure fn bound) ↦ fault undefined
  | live n (elements vs) ↦ fault undefined
]

unfoldable pub value_to_bool : Floats → Heap → Value → Result Bool
unfolding text_at
value_to_bool fl h (object_value id a) = ok true
value_to_bool fl h unit_value = ok false
value_to_bool fl h null_value = ok false
value_to_bool fl h (bool_value b) = ok b
value_to_bool fl h (int_value i) = ok (not (eqb_ℤ i (pos 0)))
value_to_bool fl h (float_value f) = ok (not (fl.equal_f f 0))
value_to_bool fl h (str_value a) = do s ← text_at h a; ok (ltb 0 (length s))
value_to_bool fl h (map_value a) = ok false
value_to_bool fl h (function_value a) = ok false
value_to_bool fl h (promise_value a) = ok false
value_to_bool fl h (array_value a) = ok false

-- `value_to_float` of a number.
unfoldable pub value_to_float : Floats → Value → Result ℕ
value_to_float fl (float_value f) = ok f
value_to_float fl (int_value i) = ok (fl.of_i32 i)
value_to_float fl _ = fault assertion

abbrev pub float_op : Floats → NumOp → ℕ → ℕ → ℕ
float_op fl num_op_add = fl.add_f
float_op fl num_op_sub = fl.sub_f
float_op fl num_op_mul = fl.mul_f
float_op fl num_op_div = fl.div_f

-- `__builtin_..._overflow`: the exact result where an `int32_t` holds it, else the sum of the two as
-- floats, whatever the operation.
unfoldable pub int_or_float : Floats → ℤ → ℤ → ℤ → Value
int_or_float fl exact a b =
    if fits_i32 exact then int_value exact else float_value (fl.add_f (fl.of_i32 a) (fl.of_i32 b))

unfoldable pub int_op : Floats → NumOp → ℤ → ℤ → Result Value
unfolding int_or_float
int_op fl num_op_add a b = ok (int_or_float fl (a +ℤ b) a b)
int_op fl num_op_sub a b = ok (int_or_float fl (a -ℤ b) a b)
int_op fl num_op_mul a b = ok (int_or_float fl (a *ℤ b) a b)
int_op fl num_op_div a b = do
  _ ← check (not (eqb_ℤ b (pos 0)))
  _ ← check (not (eqb_ℤ a (negsuc 2147483647) && eqb_ℤ b (negsuc 0)))
  ok (int_value (tdiv a b))

-- Where one of the two is a `float`.
unfoldable pub float_result : Floats → NumOp → Value → Value → Result Value
unfolding value_to_float
float_result fl op a b = do
  f₁ ← value_to_float fl a
  f₂ ← value_to_float fl b
  ok (float_value (float_op fl op f₁ f₂))

unfoldable pub handle_number_op : Floats → NumOp → Value → Value → Result Value
unfolding int_op float_result
handle_number_op fl op (int_value a) (int_value b) = int_op fl op a b
handle_number_op fl op a b = float_result fl op a b

abbrev pub compare_bool : Comparison → Bool → Bool → Bool
compare_bool less_than a b = not a && b
compare_bool less_or_eq a b = not a || b
compare_bool equal a b = if a then b else not b
compare_bool great_or_eq a b = a || not b
compare_bool greater_than a b = a && not b

abbrev pub compare_int : Comparison → ℤ → ℤ → Bool
compare_int less_than a b = ltb_ℤ a b
compare_int less_or_eq a b = leb_ℤ a b
compare_int equal a b = eqb_ℤ a b
compare_int great_or_eq a b = leb_ℤ b a
compare_int greater_than a b = ltb_ℤ b a

abbrev pub compare_float : Floats → Comparison → ℕ → ℕ → Bool
compare_float fl less_than a b = fl.less_f a b
compare_float fl less_or_eq a b = fl.less_eq_f a b
compare_float fl equal a b = fl.equal_f a b
compare_float fl great_or_eq a b = fl.less_eq_f b a
compare_float fl greater_than a b = fl.less_f b a

-- An `EQUALITY_CASE` on its two operands; values of other types than these fail an assertion.
unfoldable pub compare_values : Floats → Comparison → Value → Value → Result Value
compare_values fl c (bool_value a) (bool_value b) = ok (bool_value (compare_bool c a b))
compare_values fl c (int_value a) (int_value b) = ok (bool_value (compare_int c a b))
compare_values fl c (float_value a) (float_value b) = ok (bool_value (compare_float fl c a b))
compare_values fl c _ _ = fault assertion

-- `OP_BITWISE_AND` and `OP_MODULO` read `as.i32` unchecked; of another type that is left undefined.
unfoldable pub bitwise_and : Value → Value → Result Value
bitwise_and (int_value a) (int_value b) =
    ok (int_value (signed (bit_and 32 (pattern_of a) (pattern_of b))))
bitwise_and _ _ = fault undefined

unfoldable pub modulo : Value → Value → Result Value
modulo (int_value a) (int_value b) = do
  _ ← defined (not (eqb_ℤ b (pos 0)))
  _ ← defined (not (eqb_ℤ a (negsuc 2147483647) && eqb_ℤ b (negsuc 0)))
  ok (int_value (tmod a b))
modulo _ _ = fault undefined

-- `++` of a local in `OP_INC`.
unfoldable pub increment : Value → Result Value
increment (int_value a) = do _ ← defined (fits_i32 (a +ℤ pos 1)); ok (int_value (a +ℤ pos 1))
increment _ = fault assertion

-- ===== src/Vm/Bounds.antt =====
-- The ranges of the results of integer arithmetic in src/vm.c.
use Prim.Native.Nat.{◌<◌, ◌≤◌, ◌*◌, ◌/◌, ◌%◌}
use native.Mathlib.Nat.{div-le_self, div-lt_self}
use mathlib.Core.Bool.{false≢true}
use nib_lang.Base.{
  refl, ℕ, zero, suc, ◌+◌, ◌&&◌, not, Bool, true, false, ◌≡◌, arith, if◌then◌else◌, ℤ, pos, negsuc,
  ◌+ℤ◌, ◌-ℤ◌, ◌*ℤ◌, eqb_ℤ, minus, tdiv, fits_i32, signed, pattern_of, bit_and,
}
use nib_lang.Vm.{Value, int_value, float_value}
use nib_lang.Vm.Faults.{Result, ok, check, ◌>>=◌}
use nib_lang.Vm.Numbers.{
  Floats, NumOp, num_op_add, num_op_sub, num_op_mul, num_op_div, int_or_float, int_op,
  handle_number_op, bitwise_and,
}

-- An integer that an `int32_t` holds; values of other types have no bound.
unfoldable pub FitsWord : Value → Type 0
FitsWord (int_value i) = fits_i32 i ≡ true
FitsWord _ = Unit

fits_i32-minus : (n : ℕ) → n ≤ 2147483648 → fits_i32 (minus n) ≡ true
unfolding fits_i32
fits_i32-minus zero h = ground arith
fits_i32-minus (suc n) h = ground arith

fits_i32-pos : (n : ℕ) → n < 2147483648 → fits_i32 (pos n) ≡ true
unfolding fits_i32
fits_i32-pos n h = ground arith

pos-bound : (n : ℕ) → fits_i32 (pos n) ≡ true → n < 2147483648
unfolding fits_i32
pos-bound n h = ground arith

negsuc-bound : (n : ℕ) → fits_i32 (negsuc n) ≡ true → suc n ≤ 2147483648
unfolding fits_i32
negsuc-bound n h = ground arith

below : (n m k : ℕ) → n ≤ m → m < k → n < k
below n m k h l = omega arith

within : (n m k : ℕ) → n ≤ m → m ≤ k → n ≤ k
within n m k h l = omega arith

below_lt : (n m k : ℕ) → n < m → m ≤ k → n < k
below_lt n m k h l = omega arith

within_lt : (n m k : ℕ) → n ≤ m → m < k → n ≤ k
within_lt n m k h l = omega arith

not_least :
    (n : ℕ)
    → suc n ≤ 2147483648
    → not (eqb_ℤ (negsuc n) (negsuc 2147483647) && eqb_ℤ (negsuc 0) (negsuc 0)) ≡ true
    → suc n < 2147483648
not_least n l h = ground arith

-- Where C defines the quotient.
tdiv-fits :
    (a b : ℤ)
    → fits_i32 a ≡ true
    → not (eqb_ℤ a (negsuc 2147483647) && eqb_ℤ b (negsuc 0)) ≡ true
    → fits_i32 (tdiv a b) ≡ true
unfolding tdiv
tdiv-fits (pos n) (pos m) ha h =
    fits_i32-pos (n / m) (below (n / m) n 2147483648 (div-le_self n m) (pos-bound n ha))
tdiv-fits (pos n) (negsuc m) ha h =
    fits_i32-minus (n / suc m)
      (within_lt (n / suc m) n 2147483648 (div-le_self n (suc m)) (pos-bound n ha))
tdiv-fits (negsuc n) (pos m) ha h =
    fits_i32-minus (suc n / m)
      (within (suc n / m) (suc n) 2147483648 (div-le_self (suc n) m) (negsuc-bound n ha))
tdiv-fits (negsuc n) (negsuc zero) ha h = fits_i32-pos (suc n / 1) (
    below (suc n / 1) (suc n) 2147483648 (div-le_self (suc n) 1)
      (not_least n (negsuc-bound n ha) h))
tdiv-fits (negsuc n) (negsuc (suc m)) ha h = fits_i32-pos (suc n / suc (suc m)) (
    below_lt (suc n / suc (suc m)) (suc n) 2147483648 (div-lt_self (omega arith) (omega arith))
      (negsuc-bound n ha))

bit-le : (x y : ℕ) → x < 2 → y < 2 → x * y ≤ x
bit-le x zero h l = ground arith
bit-le x (suc zero) h l = ground arith
bit-le x (suc (suc y)) h l = ground arith

halves : (b r x : ℕ) → b ≤ x % 2 → r ≤ x / 2 → b + 2 * r ≤ x
halves b r x h l = omega arith

bit_and-le : (n x y : ℕ) → bit_and n x y ≤ x
unfolding bit_and
bit_and-le zero x y = omega arith
bit_and-le (suc n) x y =
    halves (x % 2 * (y % 2)) (bit_and n (x / 2) (y / 2)) x
      (bit-le (x % 2) (y % 2) (omega arith) (omega arith)) (bit_and-le n (x / 2) (y / 2))

pattern_of-bound : (a : ℤ) → pattern_of a < 4294967296
unfolding pattern_of
pattern_of-bound (pos n) = omega arith
pattern_of-bound (negsuc n) = omega arith

signed-fits : (w : ℕ) → w < 4294967296 → fits_i32 (signed w) ≡ true
unfolding signed fits_i32
signed-fits w h = ground arith

-- The operation is one that C defines, and ends in a value with `P`.
pub data Yields (P : Value → Type 0) : Result Value → Type 0 where
  yields : {v : Value} → P v → Yields P (ok v)

-- Where the code's assertions on a quotient hold.
abbrev pub divides : ℤ → ℤ → Bool
divides b a = not (eqb_ℤ b (pos 0)) && not (eqb_ℤ a (negsuc 2147483647) && eqb_ℤ b (negsuc 0))

abbrev pub defined_op : NumOp → ℤ → ℤ → Bool
defined_op num_op_div a b = divides b a
defined_op _ a b = true

if_Fits :
    (b : Bool) (i : ℤ) (w : ℕ)
    → fits_i32 i ≡ b
    → FitsWord (if b then int_value i else float_value w)
unfolding FitsWord
if_Fits true i w h = h
if_Fits false i w h = tt

int_or_float-Fits : (fl : Floats) (exact a b : ℤ) → FitsWord (int_or_float fl exact a b)
unfolding int_or_float
int_or_float-Fits fl exact a b =
    if_Fits (fits_i32 exact) exact (fl.add_f (fl.of_i32 a) (fl.of_i32 b)) refl

both_checks :
    (p q : Bool) {P : Value → Type 0} (v : Value)
    → p && q ≡ true
    → (q ≡ true → P v)
    → Yields P (do _ ← check p; _ ← check q; ok v)
both_checks true true v h k = yields (k refl)
both_checks true false v h k = absurd (false≢true h)
both_checks false q v h k = absurd (false≢true h)

int_op-Fits :
    (fl : Floats) (op : NumOp) (a b : ℤ)
    → fits_i32 a ≡ true
    → defined_op op a b ≡ true
    → Yields FitsWord (int_op fl op a b)
unfolding int_op FitsWord
int_op-Fits fl num_op_add a b h d = yields (int_or_float-Fits fl (a +ℤ b) a b)
int_op-Fits fl num_op_sub a b h d = yields (int_or_float-Fits fl (a -ℤ b) a b)
int_op-Fits fl num_op_mul a b h d = yields (int_or_float-Fits fl (a *ℤ b) a b)
int_op-Fits fl num_op_div a b h d =
    both_checks (not (eqb_ℤ b (pos 0))) (not (eqb_ℤ a (negsuc 2147483647) && eqb_ℤ b (negsuc 0)))
      (int_value (tdiv a b)) d (tdiv-fits a b h)

-- Of two integers, the first of which an int32_t holds, an arithmetic operation that is not a
-- division by 0 or of the least integer by -1 succeeds, and so does the bitwise and; an integer that
-- they give is again one that an int32_t holds.
pub handle_number_op-FitsWord :
    (fl : Floats) (op : NumOp) (a b : ℤ)
    → fits_i32 a ≡ true
    → defined_op op a b ≡ true
    → Yields FitsWord (handle_number_op fl op (int_value a) (int_value b))
      × Yields FitsWord (bitwise_and (int_value a) (int_value b))
unfolding handle_number_op bitwise_and FitsWord
handle_number_op-FitsWord fl op a b h d = (
  int_op-Fits fl op a b h d,
  yields (
      signed-fits (bit_and 32 (pattern_of a) (pattern_of b)) (
        below (bit_and 32 (pattern_of a) (pattern_of b)) (pattern_of a) 4294967296
          (bit_and-le 32 (pattern_of a) (pattern_of b)) (pattern_of-bound a))),
)

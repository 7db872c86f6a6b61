-- ===== src/Vm/Division.antt =====
-- `/` and `%` of integers in src/vm.c.
use Prim.Native.Nat.{◌<◌, ◌≤◌, ◌*◌, ◌/◌, ◌%◌}
use native.Mathlib.Nat.{div-add-mod, mod-le, mod-lt}
use mathlib.Core.Bool.{false≢true}
use nib_lang.Base.{
  ℕ, zero, suc, ◌+◌, not, Bool, true, false, ◌&&◌, ◌≡◌, refl, sym, arith, ℤ, pos, negsuc, pos_part,
  neg_part, minus, ◌+ℤ◌, ◌*ℤ◌, eqb_ℤ, tdiv, tmod,
}
use nib_lang.Vm.{int_value}
use nib_lang.Vm.Faults.{ok, check, defined, ◌>>=◌}
use nib_lang.Vm.Numbers.{Floats, num_op_div, int_op, handle_number_op, modulo}
use nib_lang.Vm.Bounds.{divides}

pos_pos : (m q r n : ℕ) → m * q + r ≡ n → (pos q *ℤ pos m) +ℤ pos r ≡ pos n
unfolding ◌*ℤ◌ ◌+ℤ◌
pos_pos m q r n h = ground arith

pos_neg : (m q r n : ℕ) → suc m * q + r ≡ n → (minus q *ℤ negsuc m) +ℤ pos r ≡ pos n
unfolding ◌*ℤ◌ ◌+ℤ◌
pos_neg m zero r n h = ground arith
pos_neg m (suc q) r n h = ground arith

neg_pos : (m q r n : ℕ) → m * q + r ≡ suc n → (minus q *ℤ pos m) +ℤ minus r ≡ negsuc n
unfolding ◌*ℤ◌ ◌+ℤ◌
neg_pos m zero zero n h = ground arith
neg_pos m zero (suc r) n h = ground arith
neg_pos m (suc q) zero n h = ground arith
neg_pos m (suc q) (suc r) n h = ground arith

neg_neg : (m q r n : ℕ) → suc m * q + r ≡ suc n → (pos q *ℤ negsuc m) +ℤ minus r ≡ negsuc n
unfolding ◌*ℤ◌ ◌+ℤ◌
neg_neg m q zero n h = ground arith
neg_neg m q (suc r) n h = ground arith

quotient-remainder : (a b : ℤ) → (tdiv a b *ℤ b) +ℤ tmod a b ≡ a
unfolding tdiv tmod
quotient-remainder (pos n) (pos m) = pos_pos m (n / m) (n % m) n (div-add-mod n m)
quotient-remainder (pos n) (negsuc m) = pos_neg m (n / suc m) (n % suc m) n (div-add-mod n (suc m))
quotient-remainder (negsuc n) (pos m) = neg_pos m (suc n / m) (suc n % m) n (div-add-mod (suc n) m)
quotient-remainder (negsuc n) (negsuc m) =
    neg_neg m (suc n / suc m) (suc n % suc m) n (div-add-mod (suc n) (suc m))

abbrev pub magnitude : ℤ → ℕ
magnitude b = pos_part b + neg_part b

-- A number between 0 and `a`, nearer to 0 than `b`.
abbrev pub IsRemainder : ℤ → ℤ → ℤ → Type 0
IsRemainder a b r = pos_part r ≤ pos_part a × neg_part r ≤ neg_part a × magnitude r < magnitude b

minus-IsRemainder :
    (n k : ℕ) (b : ℤ) → k ≤ suc n → k < magnitude b → IsRemainder (negsuc n) b (minus k)
minus-IsRemainder n zero b h l = (omega arith, omega arith, omega arith)
minus-IsRemainder n (suc k) b h l = (omega arith, omega arith, omega arith)

pos-IsRemainder : (n k : ℕ) (b : ℤ) → k ≤ n → k < magnitude b → IsRemainder (pos n) b (pos k)
pos-IsRemainder n k b h l = (omega arith, omega arith, omega arith)

mod-below : (n m d : ℕ) → d ≡ suc m → n % suc m < d
mod-below n m d h = let below = mod-lt n {m = suc m} (omega arith) in omega arith

tmod-IsRemainder : (a b : ℤ) → eqb_ℤ b (pos 0) ≡ false → IsRemainder a b (tmod a b)
unfolding tmod
tmod-IsRemainder a (pos zero) h = absurd (false≢true (sym h))
tmod-IsRemainder (pos n) (pos (suc m)) h =
    pos-IsRemainder n (n % suc m) (pos (suc m)) (mod-le n (suc m))
      (mod-below n m (suc m + 0) (omega arith))
tmod-IsRemainder (pos n) (negsuc m) h =
    pos-IsRemainder n (n % suc m) (negsuc m) (mod-le n (suc m))
      (mod-below n m (0 + suc m) (omega arith))
tmod-IsRemainder (negsuc n) (pos (suc m)) h =
    minus-IsRemainder n (suc n % suc m) (pos (suc m)) (mod-le (suc n) (suc m))
      (mod-below (suc n) m (suc m + 0) (omega arith))
tmod-IsRemainder (negsuc n) (negsuc m) h =
    minus-IsRemainder n (suc n % suc m) (negsuc m) (mod-le (suc n) (suc m))
      (mod-below (suc n) m (0 + suc m) (omega arith))

abbrev not_overflow : ℤ → ℤ → Bool
not_overflow a b = not (eqb_ℤ a (negsuc 2147483647) && eqb_ℤ b (negsuc 0))

first_false : (p q : Bool) → not p && q ≡ true → p ≡ false
first_false false q h = refl
first_false true q h = absurd (false≢true h)

checked :
    {A : Type 0} (p q : Bool) (a : A)
    → p && q ≡ true
    → ((do _ ← check p; _ ← check q; ok a) ≡ ok a)
      × ((do _ ← defined p; _ ← defined q; ok a) ≡ ok a)
checked true true a h = (refl, refl)
checked true false a h = absurd (false≢true h)
checked false q a h = absurd (false≢true h)

-- The quotient and the remainder of two integers that the assertions of a division allow exist; the
-- quotient times the divisor and the remainder make the dividend, and the remainder lies between 0
-- and the dividend, nearer to 0 than the divisor.
pub handle_number_op-modulo :
    (fl : Floats) (a b : ℤ)
    → divides b a ≡ true
    → (q : ℤ) × (r : ℤ) × (handle_number_op fl num_op_div (int_value a) (int_value b)
        ≡ ok (int_value q))
      × (modulo (int_value a) (int_value b) ≡ ok (int_value r))
      × ((q *ℤ b) +ℤ r ≡ a)
      × IsRemainder a b r
unfolding handle_number_op int_op modulo
handle_number_op-modulo fl a b h = (
  tdiv a b,
  tmod a b,
  (checked (not (eqb_ℤ b (pos 0))) (not_overflow a b) (int_value (tdiv a b)) h).0,
  (checked (not (eqb_ℤ b (pos 0))) (not_overflow a b) (int_value (tmod a b)) h).1,
  quotient-remainder a b,
  tmod-IsRemainder a b (first_false (eqb_ℤ b (pos 0)) (not_overflow a b) h),
)

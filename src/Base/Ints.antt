-- ===== src/Base/Ints.antt =====
-- Signed integers over the native numbers, and their 32-bit patterns.
use Prim.Native.Nat.{ℕ, zero, suc, ◌+◌, ◌-◌, ◌*◌, ◌/◌, ◌%◌}
use mathlib.Core.Path.{◌≡◌}
use mathlib.Core.Bool.{Bool, true, ◌&&◌}
use native.Mathlib.Omega.{arith}
use nib_lang.Base.Compare.{ltb, leb, ◌==◌, if◌then◌else◌}

-- `negsuc n` is -(n + 1).
pub data ℤ : Type 0 where
  pos : ℕ → ℤ
  negsuc : ℕ → ℤ

abbrev pub pos_part : ℤ → ℕ
pos_part (pos n) = n
pos_part (negsuc n) = 0

abbrev pub neg_part : ℤ → ℕ
neg_part (pos n) = 0
neg_part (negsuc n) = suc n

-- -n.
abbrev pub minus : ℕ → ℤ
minus zero = pos 0
minus (suc n) = negsuc n

-- a - b, as an integer.
abbrev pub sub_ℕ : ℕ → ℕ → ℤ
sub_ℕ a b = if leb b a then pos (a - b) else negsuc (b - a - 1)

infixl 65 ◌+ℤ◌ ◌-ℤ◌
infixl 70 ◌*ℤ◌
unfoldable pub ◌+ℤ◌ : ℤ → ℤ → ℤ
a +ℤ b = sub_ℕ (pos_part a + pos_part b) (neg_part a + neg_part b)

unfoldable pub ◌-ℤ◌ : ℤ → ℤ → ℤ
a -ℤ b = sub_ℕ (pos_part a + neg_part b) (neg_part a + pos_part b)

unfoldable pub ◌*ℤ◌ : ℤ → ℤ → ℤ
a *ℤ b =
    sub_ℕ (pos_part a * pos_part b + neg_part a * neg_part b)
      (pos_part a * neg_part b + neg_part a * pos_part b)

abbrev pub ltb_ℤ : ℤ → ℤ → Bool
ltb_ℤ a b = ltb (pos_part a + neg_part b) (pos_part b + neg_part a)

abbrev pub leb_ℤ : ℤ → ℤ → Bool
leb_ℤ a b = leb (pos_part a + neg_part b) (pos_part b + neg_part a)

abbrev pub eqb_ℤ : ℤ → ℤ → Bool
eqb_ℤ a b = pos_part a + neg_part b == pos_part b + neg_part a

-- The quotient that rounds towards 0, as C's, of `a` by `b`, which is not 0.
unfoldable pub tdiv : ℤ → ℤ → ℤ
tdiv (pos n) (pos m) = pos (n / m)
tdiv (pos n) (negsuc m) = minus (n / suc m)
tdiv (negsuc n) (pos m) = minus (suc n / m)
tdiv (negsuc n) (negsuc m) = pos (suc n / suc m)

-- The remainder with the sign of `a`.
unfoldable pub tmod : ℤ → ℤ → ℤ
tmod (pos n) (pos m) = pos (n % m)
tmod (pos n) (negsuc m) = pos (n % suc m)
tmod (negsuc n) (pos m) = minus (suc n % m)
tmod (negsuc n) (negsuc m) = minus (suc n % suc m)

-- The values of `int32_t`.
unfoldable pub fits_i32 : ℤ → Bool
fits_i32 a = ltb (pos_part a) 2147483648 && leb (neg_part a) 2147483648

-- The number that a 32-bit pattern stands for, and its pattern.
unfoldable pub signed : ℕ → ℤ
signed w = if ltb w 2147483648 then pos w else negsuc (4294967295 - w)

unfoldable pub pattern_of : ℤ → ℕ
pattern_of (pos n) = n % 4294967296
pattern_of (negsuc n) = 4294967295 - n % 4294967296

-- `x & y` of the low `n` bits.
unfoldable pub bit_and : ℕ → ℕ → ℕ → ℕ
bit_and zero x y = 0
bit_and (suc n) x y = x % 2 * (y % 2) + 2 * bit_and n (x / 2) (y / 2)

pub signed-pattern_of : (a : ℤ) → fits_i32 a ≡ true → signed (pattern_of a) ≡ a
unfolding signed pattern_of fits_i32
signed-pattern_of (pos n) h = ground arith
signed-pattern_of (negsuc n) h = ground arith

-- ===== src/Base/Text.antt =====
-- Text as a list of bytes: a `std::string`, and the literals of the source, which are ASCII.
use Prim.Native.Char.{code}
use Prim.Native.String.{String}
use Prim.Native.Nat.{ℕ, suc}
use mathlib.Core.Bool.{Bool, true, false, ◌&&◌}
use mathlib.Core.List.{[], ◌∷◌}
use mathlib.Core.Path.{◌≡◌, refl}
use native.Mathlib.Omega.{arith}
use nib_lang.Base.Compare.{◌==◌}
use nib_lang.Base.Words.{Bytes}

abbrev pub codes : String → Bytes
codes String.[] = []
codes (String.◌∷◌ c s) = code c ∷ codes s

-- `==` of two texts.
unfoldable pub eq_text : Bytes → Bytes → Bool
eq_text [] [] = true
eq_text (a ∷ xs) (b ∷ ys) = a == b && eq_text xs ys
eq_text _ _ = false

pub eq_text→eq : (xs ys : Bytes) → eq_text xs ys ≡ true → xs ≡ ys
unfolding eq_text
eq_text→eq [] [] h = refl
eq_text→eq (a ∷ xs) (b ∷ ys) h = ground (arith, eq_text→eq xs ys)
eq_text→eq [] (b ∷ ys) h = cc
eq_text→eq (a ∷ xs) [] h = cc

pub eq_text_refl : (xs : Bytes) → eq_text xs xs ≡ true
unfolding eq_text
eq_text_refl [] = refl
eq_text_refl (a ∷ xs) = ground (arith, eq_text_refl xs)

-- How many bytes at the head satisfy a test: a loop `while (offset < size && test(data[offset]))`.
unfoldable pub count_while : (ℕ → Bool) → Bytes → ℕ
count_while p [] = 0
count_while p (c ∷ cs) = elim (p c) [ true ↦ suc (count_while p cs) | false ↦ 0 ]

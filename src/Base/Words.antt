-- ===== src/Base/Words.antt =====
-- 32-bit words in a byte vector, least significant byte first: the layout of every bytecode
-- argument. `x & 0xFF` is `x % 256`, `x >> k` is `x / 2 ^ k`, and `|` of values in disjoint bits
-- is `+`.
use Prim.Native.Nat.{ℕ, ◌+◌, ◌*◌, ◌/◌, ◌%◌, ◌^◌}
use mathlib.Core.Path.{◌≡◌}
use mathlib.Core.List.{List, [], ◌∷◌}
use native.Mathlib.Omega.{arith}
use nib_lang.Base.Lists.{get_or}

abbrev pub Bytes : Type 0
Bytes = List ℕ

abbrev pub byte : ℕ → ℕ → ℕ
byte x k = x / 2 ^ (8 * k) % 256

-- The four bytes of a word.
abbrev pub word_bytes : ℕ → Bytes
word_bytes x = byte x 0 ∷ byte x 1 ∷ byte x 2 ∷ byte x 3 ∷ []

abbrev pub join_bytes : ℕ → ℕ → ℕ → ℕ → ℕ
join_bytes a b c d = a + b * 256 + c * 65536 + d * 16777216

-- The word at `pc`.
abbrev pub read_word : Bytes → ℕ → ℕ
read_word bs pc =
    join_bytes (get_or bs pc 0) (get_or bs (pc + 1) 0) (get_or bs (pc + 2) 0) (get_or bs (pc + 3) 0)

pub join-byte : (x : ℕ) → join_bytes (byte x 0) (byte x 1) (byte x 2) (byte x 3) ≡ x % 2 ^ 32
join-byte x = omega arith

-- ===== src/Assembler/Patch.antt =====
-- Writing words over a byte vector: the four assignments of each late link.
use nib_lang.Base.{
  ℕ, ◌+◌, ◌%◌, ◌^◌, ◌≤◌, ◌<◌, List, [], ◌∷◌, Option, none, some, ◌≡◌, ◌≢◌, ◌⊎◌, ◌∙◌, arith, length,
  set, get_or, All, Bytes, byte, read_word, length-set, get_or-set_self, get_or-set_ne,
}

unfoldable pub put_word : Bytes → ℕ → ℕ → Bytes
put_word bs pc x =
    set (set (set (set bs pc (byte x 0)) (pc + 1) (byte x 1)) (pc + 2) (byte x 2)) (pc + 3)
      (byte x 3)

-- The four-byte windows at `p` and `q` do not meet.
abbrev pub Apart : ℕ → ℕ → Type 0
Apart p q = (p + 4 ≤ q) ⊎ (q + 4 ≤ p)

-- Byte `i` is not in the window at `p`.
abbrev pub Outside : ℕ → ℕ → Type 0
Outside i p = (i < p) ⊎ (p + 4 ≤ i)

abbrev pub Spread : List ℕ → Type 0
Spread [] = Unit
Spread (p ∷ ps) = All (Apart p) ps × Spread ps

pub length-put_word : (bs : Bytes) (pc x : ℕ) → length (put_word bs pc x) ≡ length bs
unfolding put_word
length-put_word bs pc x = simp length-set

pub get_or-put_word :
    (bs : Bytes) (pc x i : ℕ) → Outside i pc → get_or (put_word bs pc x) i 0 ≡ get_or bs i 0
unfolding put_word
get_or-put_word bs pc x i h =
    let n3 : pc + 3 ≢ i = omega arith in
    let n2 : pc + 2 ≢ i = omega arith in
    let n1 : pc + 1 ≢ i = omega arith in
    let n0 : pc ≢ i = omega arith in
    get_or-set_ne _ _ i _ 0 n3
    ∙ get_or-set_ne _ _ i _ 0 n2
    ∙ get_or-set_ne _ _ i _ 0 n1
    ∙ get_or-set_ne bs _ i _ 0 n0

pub read_word-put_word-Apart :
    (bs : Bytes) (p x q : ℕ) → Apart p q → read_word (put_word bs p x) q ≡ read_word bs q
read_word-put_word-Apart bs p x q h = rw (
  get_or-put_word bs p x q (omega arith),
  get_or-put_word bs p x (q + 1) (omega arith),
  get_or-put_word bs p x (q + 2) (omega arith),
  get_or-put_word bs p x (q + 3) (omega arith),
)

-- A word written inside the vector is read back, modulo 2 ^ 32.
pub read_word-put_word :
    (bs : Bytes) (p x : ℕ) → p + 4 ≤ length bs → read_word (put_word bs p x) p ≡ x % 2 ^ 32
unfolding put_word
read_word-put_word bs p x h =
    let s0 = set bs p (byte x 0) in
    let s1 = set s0 (p + 1) (byte x 1) in
    let s2 = set s1 (p + 2) (byte x 2) in
    let l0 : length s0 ≡ length bs = length-set bs _ _ in
    let l1 : length s1 ≡ length s0 = length-set s0 _ _ in
    let l2 : length s2 ≡ length s1 = length-set s1 _ _ in
    let r3 : get_or (put_word bs p x) (p + 3) 0 ≡ byte x 3 =
      get_or-set_self s2 _ _ 0 (omega arith) in
    let r2 : get_or (put_word bs p x) (p + 2) 0 ≡ byte x 2 =
      get_or-set_ne s2 _ _ _ 0 (omega arith) ∙ get_or-set_self s1 _ _ 0 (omega arith) in
    let r1 : get_or (put_word bs p x) (p + 1) 0 ≡ byte x 1 =
      get_or-set_ne s2 _ _ _ 0 (omega arith)
      ∙ get_or-set_ne s1 _ _ _ 0 (omega arith)
      ∙ get_or-set_self s0 _ _ 0 (omega arith) in
    let r0 : get_or (put_word bs p x) p 0 ≡ byte x 0 =
      get_or-set_ne s2 _ _ _ 0 (omega arith)
      ∙ get_or-set_ne s1 _ _ _ 0 (omega arith)
      ∙ get_or-set_ne s0 _ _ _ 0 (omega arith)
      ∙ get_or-set_self bs _ _ 0 (omega arith) in
    omega (arith, r0, r1, r2, r3)

-- One late-link loop: each entry names its value and its address; `none` is `LOG(FATAL)`.
unfoldable pub patch_all {ℓ} : {K : Type ℓ} → (K → Option ℕ) → List (K × ℕ) → Bytes → Option Bytes
patch_all find [] bs = some bs
patch_all find ((k, pc) ∷ es) bs = elim (find k) [
  | none ↦ none
  | some v ↦ patch_all find es (put_word bs pc v)
]

-- ===== src/Vm/Decode/Shift.antt =====
-- Decoding looks only at the bytes from the program counter on.
use nib_lang.Base.{
  ℕ, ◌+◌, true, ◌∷◌, ◌++◌, some, ◌≡◌, refl, arith, ltb, length, length-append, get_or,
  get_or-append_right, read_word, Bytes,
}
use nib_lang.Assembler.Opcodes.{Op, op_code, op_of-op_code}
use nib_lang.Vm.Faults.{ok}
use nib_lang.Vm.Decode.{
  Reads, nothing, one_word, two_words, two_unchecked, one_byte, counted_bytes, reads_of, in_bounds,
  opcode_at, decode,
}

module _ (pre ys : Bytes) where
  shift_get : (k : ℕ) → get_or (pre ++ ys) (length pre + k) 0 ≡ get_or ys k 0
  shift_get k = get_or-append_right pre ys (length pre + k) k 0 refl

  shift_get_next : (j k : ℕ) → get_or (pre ++ ys) (length pre + j + k) 0 ≡ get_or ys (j + k) 0
  shift_get_next j k = get_or-append_right pre ys (length pre + j + k) (j + k) 0 (omega arith)

  shift_word : (j : ℕ) → read_word (pre ++ ys) (length pre + j) ≡ read_word ys j
  shift_word j = rw (shift_get j, shift_get_next j 1, shift_get_next j 2, shift_get_next j 3) refl

  shift_inside : (k : ℕ) → ltb (length pre + k) (length (pre ++ ys)) ≡ ltb k (length ys)
  shift_inside k = let sizes = length-append pre ys in ground arith

shift_bounds :
    (r : Reads) (pre zs : Bytes) → in_bounds r (length pre) (pre ++ zs) ≡ in_bounds r 0 zs
unfolding in_bounds
shift_bounds nothing pre zs = refl
shift_bounds one_word pre zs = rw (shift_inside pre zs 4) refl
shift_bounds two_words pre zs = rw (shift_inside pre zs 8) refl
shift_bounds two_unchecked pre zs = rw (shift_inside pre zs 8) refl
shift_bounds one_byte pre zs = rw (shift_inside pre zs 1) refl
shift_bounds counted_bytes pre zs =
    let n = get_or zs 1 0 in
    let apart : length pre + 2 + n ≡ length pre + (2 + n) = omega arith in
    rw (shift_get pre zs 1, apart, shift_inside pre zs 1, shift_inside pre zs (2 + n)) refl

opcode_at-append :
    (pre : Bytes) (op : Op) (ys : Bytes) → opcode_at (pre ++ op_code op ∷ ys) (length pre) ≡ some op
unfolding opcode_at
opcode_at-append pre op ys =
    let zs = op_code op ∷ ys in
    let here : get_or (pre ++ zs) (length pre) 0 ≡ op_code op =
      get_or-append_right pre zs (length pre) 0 0 (omega arith) in
    let sizes = length-append pre zs in
    let inside : ltb (length pre) (length (pre ++ zs)) ≡ true = ground arith in
    rw (inside, here, op_of-op_code op) refl

-- At the end of `pre`, the bytes that follow decode as they would alone.
pub decode-append :
    (pre : Bytes) (op : Op) (ys : Bytes)
    → in_bounds (reads_of op) 0 (op_code op ∷ ys) ≡ ok true
    → decode (pre ++ op_code op ∷ ys) (length pre)
      ≡ ok (some (record { op = op; x = read_word ys 0; y = read_word ys 4; b = get_or ys 0 0 }))
unfolding decode
decode-append pre op ys fits =
    let zs = op_code op ∷ ys in
    rw (opcode_at-append pre op ys, decode)
      (rw (shift_bounds (reads_of op) pre zs, fits)
        (rw (shift_word pre zs 1, shift_word pre zs 5, shift_get pre zs 1) refl))

-- ===== src/Vm/Decode/Emitted.antt =====
-- The machine decodes what the assembler of the compiler wrote.
use mathlib.Core.List.{append_assoc}
use nib_lang.Base.{
  ℕ, ◌+◌, ◌%◌, ◌^◌, ◌<◌, true, false, List, [], ◌∷◌, ◌++◌, some, ◌≡◌, refl, ap, ◌∙◌, arith, ltb,
  length, length-append, Bytes, word_bytes, join-byte, Bool-cases, inl, inr,
}
use nib_lang.Assembler.Opcodes.{
  Op, op_push_const_ref, op_push_i32, op_push_f32, op_push_true, op_push_false, op_push_local,
  op_store_local, op_call, op_dynamic_call, op_bind, op_new_obj, op_call_virtual, op_inc, op_is,
  op_jump_if_true, op_jump_if_false, op_jump, op_try_push, op_debug, op_code,
}
use nib_lang.Assembler.{Assembler, offset}
use nib_lang.Assembler.Emit.{
  Emit, push_const_ref, push_int32, call_dynamic, increment, jump_if_true_at, jump_if_false_at,
  jump_at, push_float, push_local, store_local, call, bind, new_object, call_virtual, push_try_at,
  patch_call, patch_bind, patch_new_object, patch_call_virtual, jump, jump_if_true, jump_if_false,
  push_bool, compare_op, is_type, label, push_try, debug_string, emit, get_location_for_label,
  jump_to, push_try_to, emit_debug,
}
use nib_lang.Assembler.Listing.{
  written_op, IsComparison, lt, le, eq, ge, gt, after_location, after_locations,
}
use nib_lang.Vm.Faults.{ok}
use nib_lang.Vm.Decode.{
  Reads, nothing, one_word, two_words, two_unchecked, one_byte, counted_bytes, reads_of,
  Instruction, in_bounds, decode,
}
use nib_lang.Vm.Decode.Shift.{decode-append}

-- The operands that a call hands to the method, as the machine gets them: words modulo 2^32, the
-- length of a text.
unfoldable pub operands_of : Emit → Assembler → List ℕ
operands_of (push_const_ref x) a = x % 2 ^ 32 ∷ []
operands_of (push_int32 x) a = x % 2 ^ 32 ∷ []
operands_of (push_float x) a = x % 2 ^ 32 ∷ []
operands_of (call_dynamic x) a = x % 2 ^ 32 ∷ []
operands_of (increment x) a = x % 2 ^ 32 ∷ []
operands_of (jump_if_true_at x) a = x % 2 ^ 32 ∷ []
operands_of (jump_if_false_at x) a = x % 2 ^ 32 ∷ []
operands_of (jump_at x) a = x % 2 ^ 32 ∷ []
operands_of (push_local x) a = x % 2 ^ 32 ∷ []
operands_of (store_local x) a = x % 2 ^ 32 ∷ []
operands_of (call x y) a = x % 2 ^ 32 ∷ y % 2 ^ 32 ∷ []
operands_of (bind x y) a = x % 2 ^ 32 ∷ y % 2 ^ 32 ∷ []
operands_of (new_object x y) a = x % 2 ^ 32 ∷ y % 2 ^ 32 ∷ []
operands_of (call_virtual x y) a = x % 2 ^ 32 ∷ y % 2 ^ 32 ∷ []
operands_of (push_try_at x y) a = x % 2 ^ 32 ∷ y % 2 ^ 32 ∷ []
operands_of (patch_call x y) a = x % 2 ^ 32 ∷ y % 2 ^ 32 ∷ []
operands_of (patch_bind x y) a = x % 2 ^ 32 ∷ y % 2 ^ 32 ∷ []
operands_of (patch_new_object x y) a = x % 2 ^ 32 ∷ y % 2 ^ 32 ∷ []
operands_of (patch_call_virtual x y) a = x % 2 ^ 32 ∷ y % 2 ^ 32 ∷ []
operands_of (jump l) a = (get_location_for_label l (offset a + 1) a).0 % 2 ^ 32 ∷ []
operands_of (jump_if_true l) a = (get_location_for_label l (offset a + 1) a).0 % 2 ^ 32 ∷ []
operands_of (jump_if_false l) a = (get_location_for_label l (offset a + 1) a).0 % 2 ^ 32 ∷ []
operands_of (push_try c f) a =
    let (catch_addr, a₁) = get_location_for_label c (offset a + 1) a in
    let (finally_addr, a₂) = get_location_for_label f (offset a₁ + 5) a₁ in
    catch_addr % 2 ^ 32 ∷ finally_addr % 2 ^ 32 ∷ []
operands_of (is_type t) a = t % 256 ∷ []
operands_of (debug_string m) a = length m ∷ []
operands_of _ a = []

-- What the machine reads of an instruction.
abbrev pub operands : Reads → Instruction → List ℕ
operands nothing i = []
operands one_word i = i.x ∷ []
operands two_words i = i.x ∷ i.y ∷ []
operands two_unchecked i = i.x ∷ i.y ∷ []
operands one_byte i = i.b ∷ []
operands counted_bytes i = i.b ∷ []

-- At the end of `a`, the code of `b` with more behind it is the instruction `op` with `values`.
abbrev pub DecodesAs : Bytes → ℕ → Op → List ℕ → Type 0
DecodesAs code pc op values =
    (i : Instruction) × (decode code pc ≡ ok (some i))
    × (i.op ≡ op)
    × (operands (reads_of op) i ≡ values)

module _ (r : ℕ) (rest : Bytes) (op : Op) (pre : Bytes) where
  bare-Decodes : reads_of op ≡ nothing → DecodesAs (pre ++ op_code op ∷ r ∷ rest) (length pre) op []
  unfolding in_bounds
  bare-Decodes e =
      let fits : in_bounds (reads_of op) 0 (op_code op ∷ r ∷ rest) ≡ ok true = rw e refl in
      (_, decode-append pre op (r ∷ rest) fits, refl, rw e refl)

  word-Decodes :
      (x : ℕ)
      → reads_of op ≡ one_word
      → DecodesAs (pre ++ op_code op ∷ (word_bytes x ++ r ∷ rest)) (length pre) op (x % 2 ^ 32 ∷ [])
  unfolding in_bounds
  word-Decodes x e =
      let ys = word_bytes x ++ r ∷ rest in
      let long : ltb 4 (length (op_code op ∷ ys)) ≡ true = ground arith in
      let fits : in_bounds (reads_of op) 0 (op_code op ∷ ys) ≡ ok true = rw (e, long) refl in
      (_, decode-append pre op ys fits, refl, rw (e, join-byte x) refl)

  two_words-Decodes :
      (x y : ℕ)
      → reads_of op ≡ two_words
      → DecodesAs
          (pre ++ op_code op ∷ ((word_bytes x ++ word_bytes y) ++ r ∷ rest))
          (length pre)
          op
          (x % 2 ^ 32 ∷ y % 2 ^ 32 ∷ [])
  unfolding in_bounds
  two_words-Decodes x y e =
      let ys = (word_bytes x ++ word_bytes y) ++ r ∷ rest in
      let long : ltb 8 (length (op_code op ∷ ys)) ≡ true = ground arith in
      let fits : in_bounds (reads_of op) 0 (op_code op ∷ ys) ≡ ok true = rw (e, long) refl in
      (_, decode-append pre op ys fits, refl, rw (e, join-byte x, join-byte y) refl)

  unchecked-Decodes :
      (x y : ℕ)
      → reads_of op ≡ two_unchecked
      → DecodesAs
          (pre ++ op_code op ∷ ((word_bytes x ++ word_bytes y) ++ r ∷ rest))
          (length pre)
          op
          (x % 2 ^ 32 ∷ y % 2 ^ 32 ∷ [])
  unfolding in_bounds
  unchecked-Decodes x y e =
      let ys = (word_bytes x ++ word_bytes y) ++ r ∷ rest in
      let long : ltb 8 (length (op_code op ∷ ys)) ≡ true = ground arith in
      let fits : in_bounds (reads_of op) 0 (op_code op ∷ ys) ≡ ok true = rw (e, long) refl in
      (_, decode-append pre op ys fits, refl, rw (e, join-byte x, join-byte y) refl)

  byte-Decodes :
      (t : ℕ)
      → reads_of op ≡ one_byte
      → DecodesAs (pre ++ op_code op ∷ ((t ∷ []) ++ r ∷ rest)) (length pre) op (t ∷ [])
  unfolding in_bounds
  byte-Decodes t e =
      let ys = t ∷ r ∷ rest in
      let long : ltb 1 (length (op_code op ∷ ys)) ≡ true = ground arith in
      let fits : in_bounds (reads_of op) 0 (op_code op ∷ ys) ≡ ok true = rw (e, long) refl in
      (_, decode-append pre op ys fits, refl, rw e refl)

  text-Decodes :
      (m : Bytes)
      → length m < 256
      → reads_of op ≡ counted_bytes
      → DecodesAs
          (pre ++ op_code op ∷ ((length m % 256 ∷ m) ++ r ∷ rest))
          (length pre)
          op
          (length m ∷ [])
  unfolding in_bounds
  text-Decodes m small e =
      let ys = length m % 256 ∷ (m ++ r ∷ rest) in
      let same : length m % 256 ≡ length m = omega arith in
      let sizes = length-append m (r ∷ rest) in
      let first : ltb 1 (length (op_code op ∷ ys)) ≡ true = ground arith in
      let long : ltb (2 + length m % 256) (length (op_code op ∷ ys)) ≡ true = ground arith in
      let fits : in_bounds (reads_of op) 0 (op_code op ∷ ys) ≡ ok true = rw (e, first, long) refl in
      (_, decode-append pre op ys fits, refl, rw (e, same) refl)

-- Every call that `Compare` is not given another opcode than a comparison.
abbrev pub IsMeant : Emit → Type 0
IsMeant (compare_op op) = IsComparison op
IsMeant _ = Unit

module _ (r : ℕ) (rest : Bytes) where
  emitted :
      (a x : Assembler) {b : Assembler} (o : Op) (args : Bytes) {op : Op} {values : List ℕ}
      → some x ≡ some b
      → x.bytes ≡ a.bytes ++ op_code o ∷ args
      → some o ≡ some op
      → DecodesAs (a.bytes ++ op_code o ∷ (args ++ r ∷ rest)) (offset a) o values
      → DecodesAs (b.bytes ++ r ∷ rest) (offset a) op values
  emitted a x {b} o args {op} {values} h q w d =
      let same : b ≡ x = cc in
      let same_op : op ≡ o = cc in
      let code : b.bytes ++ r ∷ rest ≡ a.bytes ++ op_code o ∷ (args ++ r ∷ rest) =
        ap (λ (c : Assembler). c.bytes ++ r ∷ rest) same
        ∙ ap (λ (bs : Bytes). bs ++ r ∷ rest) q
        ∙ append_assoc a.bytes (op_code o ∷ args) (r ∷ rest) in
      rw (code, same_op) d

  comparison : (o : Op) → IsComparison o → reads_of o ≡ nothing
  unfolding reads_of
  comparison _ lt = refl
  comparison _ le = refl
  comparison _ eq = refl
  comparison _ ge = refl
  comparison _ gt = refl

  -- At the address where a call of the assembler wrote, with at least one byte behind its code, the
  -- machine decodes the opcode of the call and the operands that the call was given, words modulo
  -- 2^32. The call did not abort and is no `Label`, and `Compare` is given a comparison.
  pub decode-emit :
      (e : Emit) (a : Assembler) {b : Assembler} {op : Op}
      → emit e a ≡ some b
      → IsMeant e
      → written_op e ≡ some op
      → DecodesAs (b.bytes ++ r ∷ rest) (offset a) op (operands_of e a)
  unfolding emit emit_debug jump_to push_try_to written_op reads_of operands_of
  decode-emit (push_const_ref x) a h d w =
      emitted a _ op_push_const_ref (word_bytes x) h refl w (word-Decodes r rest _ a.bytes x refl)
  decode-emit (push_int32 x) a h d w =
      emitted a _ op_push_i32 (word_bytes x) h refl w (word-Decodes r rest _ a.bytes x refl)
  decode-emit (push_float x) a h d w =
      emitted a _ op_push_f32 (word_bytes x) h refl w (word-Decodes r rest _ a.bytes x refl)
  decode-emit (call_dynamic x) a h d w =
      emitted a _ op_dynamic_call (word_bytes x) h refl w (word-Decodes r rest _ a.bytes x refl)
  decode-emit (increment x) a h d w =
      emitted a _ op_inc (word_bytes x) h refl w (word-Decodes r rest _ a.bytes x refl)
  decode-emit (jump_if_true_at x) a h d w =
      emitted a _ op_jump_if_true (word_bytes x) h refl w (word-Decodes r rest _ a.bytes x refl)
  decode-emit (jump_if_false_at x) a h d w =
      emitted a _ op_jump_if_false (word_bytes x) h refl w (word-Decodes r rest _ a.bytes x refl)
  decode-emit (jump_at x) a h d w =
      emitted a _ op_jump (word_bytes x) h refl w (word-Decodes r rest _ a.bytes x refl)
  decode-emit (push_local x) a h d w =
      emitted a _ op_push_local (word_bytes x) h refl w (word-Decodes r rest _ a.bytes x refl)
  decode-emit (store_local x) a h d w =
      emitted a _ op_store_local (word_bytes x) h refl w (word-Decodes r rest _ a.bytes x refl)
  decode-emit (call x y) a h d w =
      emitted a _ op_call (word_bytes x ++ word_bytes y) h refl w
        (two_words-Decodes r rest _ a.bytes x y refl)
  decode-emit (bind x y) a h d w =
      emitted a _ op_bind (word_bytes x ++ word_bytes y) h refl w
        (two_words-Decodes r rest _ a.bytes x y refl)
  decode-emit (new_object x y) a h d w =
      emitted a _ op_new_obj (word_bytes x ++ word_bytes y) h refl w
        (two_words-Decodes r rest _ a.bytes x y refl)
  decode-emit (call_virtual x y) a h d w =
      emitted a _ op_call_virtual (word_bytes x ++ word_bytes y) h refl w
        (two_words-Decodes r rest _ a.bytes x y refl)
  decode-emit (push_try_at x y) a h d w =
      emitted a _ op_try_push (word_bytes x ++ word_bytes y) h refl w
        (unchecked-Decodes r rest _ a.bytes x y refl)
  decode-emit (patch_call x y) a h d w =
      emitted a _ op_call (word_bytes x ++ word_bytes y) h refl w
        (two_words-Decodes r rest _ a.bytes x y refl)
  decode-emit (patch_bind x y) a h d w =
      emitted a _ op_bind (word_bytes x ++ word_bytes y) h refl w
        (two_words-Decodes r rest _ a.bytes x y refl)
  decode-emit (patch_new_object x y) a h d w =
      emitted a _ op_new_obj (word_bytes x ++ word_bytes y) h refl w
        (two_words-Decodes r rest _ a.bytes x y refl)
  decode-emit (patch_call_virtual x y) a h d w =
      emitted a _ op_call_virtual (word_bytes x ++ word_bytes y) h refl w
        (two_words-Decodes r rest _ a.bytes x y refl)
  decode-emit (jump l) a h d w =
      let address = (get_location_for_label l (offset a + 1) a).0 in
      emitted a _ op_jump (word_bytes address) h (after_location l a (op_code op_jump ∷ _)) w
        (word-Decodes r rest _ a.bytes address refl)
  decode-emit (jump_if_true l) a h d w =
      let address = (get_location_for_label l (offset a + 1) a).0 in
      emitted a _ op_jump_if_true (word_bytes address) h
        (after_location l a (op_code op_jump_if_true ∷ _)) w
        (word-Decodes r rest _ a.bytes address refl)
  decode-emit (jump_if_false l) a h d w =
      let address = (get_location_for_label l (offset a + 1) a).0 in
      emitted a _ op_jump_if_false (word_bytes address) h
        (after_location l a (op_code op_jump_if_false ∷ _)) w
        (word-Decodes r rest _ a.bytes address refl)
  decode-emit (push_try c f) a h d w =
      let a₁ = (get_location_for_label c (offset a + 1) a).1 in
      let catch_addr = (get_location_for_label c (offset a + 1) a).0 in
      let finally_addr = (get_location_for_label f (offset a₁ + 5) a₁).0 in
      emitted a _ op_try_push (word_bytes catch_addr ++ word_bytes finally_addr) h
        (after_locations c f a (op_code op_try_push ∷ _)) w
        (unchecked-Decodes r rest _ a.bytes catch_addr finally_addr refl)
  decode-emit (is_type t) a h d w =
      emitted a _ op_is (t % 256 ∷ []) h refl w (byte-Decodes r rest _ a.bytes (t % 256) refl)
  decode-emit (debug_string m) a h d w = elim (Bool-cases (ltb (length m) 256)) [
    | inl e ↦
        emitted a _ op_debug (length m % 256 ∷ m) (rw (e, emit_debug) at h) refl w
          (text-Decodes r rest _ a.bytes m (ground arith) refl)
    | inr e ↦ cc (rw (e, emit_debug) at h)
  ]
  decode-emit (label l) a h d w = cc
  decode-emit (compare_op o) a h d w =
      emitted a _ o [] h refl w (bare-Decodes r rest _ a.bytes (comparison o d))
  decode-emit (push_bool true) a h d w =
      emitted a _ op_push_true [] h refl w (bare-Decodes r rest _ a.bytes refl)
  decode-emit (push_bool false) a h d w =
      emitted a _ op_push_false [] h refl w (bare-Decodes r rest _ a.bytes refl)
  decode-emit _ a h d w = emitted a _ _ [] h refl w (bare-Decodes r rest _ a.bytes refl)

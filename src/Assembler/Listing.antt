-- ===== src/Assembler/Listing.antt =====
-- `DumpByteCode` over the code that a chain of method calls made: it prints one line for each
-- call, at the address where the call wrote.
use Prim.Native.String.{String}
use nib_lang.Base.{
  ℕ, suc, ◌+◌, ◌%◌, ◌<◌, List, [], ◌∷◌, ◌++◌, Option, none, some, Bytes, ◌^◌, word_bytes, true,
  false, ◌≡◌, refl, sym, ap, ◌∙◌, arith, take, drop, length, leb, ltb, if◌then◌else◌, ◌⊎◌, inl, inr,
  Option-cases, Bool-cases, length-append,
}
use nib_lang.Assembler.Opcodes.{
  Op, op_push_const_ref, op_push_i32, op_push_f32, op_push_true, op_push_false, op_push_null,
  op_push_unit, op_push_local, op_store_local, op_stack_dup, op_stack_del, op_call, op_dynamic_call,
  op_return, op_bind, op_new_obj, op_call_virtual, op_add, op_sub, op_mul, op_div, op_and, op_or,
  op_not, op_inc, op_concat, op_bitwise_and, op_modulo, op_less_than, op_less_or_eq, op_equal,
  op_great_or_eq, op_greater_than, op_is, op_jump_if_true, op_jump_if_false, op_jump, op_try_push,
  op_try_pop, op_throw, op_debug, op_code,
}
use nib_lang.Assembler.{Assembler, offset, find_label}
use nib_lang.Assembler.Jumps.{bytes-get_location}
use nib_lang.Assembler.Emit.{
  Emit, push_nil, push_unit, stack_dup, stack_del, add, subtract, multiply, divide, and_op, or_op,
  not_op, concat, bitwise_and, modulo, return_op, pop_try, throw, push_const_ref, push_int32,
  call_dynamic, increment, jump_if_true_at, jump_if_false_at, jump_at, push_float, push_local,
  store_local, call, bind, new_object, call_virtual, push_try_at, patch_call, patch_bind,
  patch_new_object, patch_call_virtual, jump, jump_if_true, jump_if_false, push_bool, compare_op,
  is_type, label, push_try, debug_string, emit, get_location_for_label, jump_to, push_try_to,
  define_label, emit_debug,
}
use nib_lang.Assembler.Dump.{dump_shape, read_operands, Line}

-- The opcode that a call writes; a label writes nothing.
unfoldable pub written_op : Emit → Option Op
written_op push_nil = some op_push_null
written_op push_unit = some op_push_unit
written_op stack_dup = some op_stack_dup
written_op stack_del = some op_stack_del
written_op add = some op_add
written_op subtract = some op_sub
written_op multiply = some op_mul
written_op divide = some op_div
written_op and_op = some op_and
written_op or_op = some op_or
written_op not_op = some op_not
written_op concat = some op_concat
written_op bitwise_and = some op_bitwise_and
written_op modulo = some op_modulo
written_op return_op = some op_return
written_op pop_try = some op_try_pop
written_op throw = some op_throw
written_op (push_const_ref x) = some op_push_const_ref
written_op (push_int32 x) = some op_push_i32
written_op (call_dynamic x) = some op_dynamic_call
written_op (increment x) = some op_inc
written_op (jump_if_true_at x) = some op_jump_if_true
written_op (jump_if_false_at x) = some op_jump_if_false
written_op (jump_at x) = some op_jump
written_op (push_float x) = some op_push_f32
written_op (push_local x) = some op_push_local
written_op (store_local x) = some op_store_local
written_op (call x y) = some op_call
written_op (bind x y) = some op_bind
written_op (new_object x y) = some op_new_obj
written_op (call_virtual x y) = some op_call_virtual
written_op (push_try_at x y) = some op_try_push
written_op (patch_call x y) = some op_call
written_op (patch_bind x y) = some op_bind
written_op (patch_new_object x y) = some op_new_obj
written_op (patch_call_virtual x y) = some op_call_virtual
written_op (jump l) = some op_jump
written_op (jump_if_true l) = some op_jump_if_true
written_op (jump_if_false l) = some op_jump_if_false
written_op (push_bool b) = some (if b then op_push_true else op_push_false)
written_op (compare_op op) = some op
written_op (is_type t) = some op_is
written_op (label l) = none
written_op (push_try c f) = some op_try_push
written_op (debug_string m) = some op_debug

-- The number of bytes that a call writes.
pub width : Emit → ℕ
width (push_const_ref x) = 5
width (push_int32 x) = 5
width (call_dynamic x) = 5
width (increment x) = 5
width (jump_if_true_at x) = 5
width (jump_if_false_at x) = 5
width (jump_at x) = 5
width (push_float x) = 5
width (push_local x) = 5
width (store_local x) = 5
width (call x y) = 9
width (bind x y) = 9
width (new_object x y) = 9
width (call_virtual x y) = 9
width (push_try_at x y) = 9
width (patch_call x y) = 9
width (patch_bind x y) = 9
width (patch_new_object x y) = 9
width (patch_call_virtual x y) = 9
width (jump l) = 5
width (jump_if_true l) = 5
width (jump_if_false l) = 5
width (push_try c f) = 9
width (is_type t) = 2
width (label l) = 0
width (debug_string m) = length m + 2
width _ = 1

-- `Compare` is called with a comparison.
pub data IsComparison : Op → Type 0 where
  lt : IsComparison op_less_than
  le : IsComparison op_less_or_eq
  eq : IsComparison op_equal
  ge : IsComparison op_great_or_eq
  gt : IsComparison op_greater_than

-- Calls whose code `DumpByteCode` reads as they wrote it: all but `Increment`.
abbrev pub IsListed : Emit → Type 0
IsListed (increment x) = ⊥
IsListed (compare_op op) = IsComparison op
IsListed _ = Unit

-- Addresses and opcodes of the calls, in order.
abbrev pub listing : List Emit → ℕ → List (ℕ × Op)
listing [] pc = []
listing (e ∷ es) pc =
    let rest = listing es (pc + width e) in
    elim (written_op e) [ none ↦ rest | some op ↦ (pc, op) ∷ rest ]

abbrev pub heads : List Line → List (ℕ × Op)
heads [] = []
heads (l ∷ ls) = (l.address, l.op) ∷ heads ls

-- What call `e` did to the code of `a`.
pub record Encodes (e : Emit) (a b : Assembler) (op : Op) : Type 0 where
  pub args : Bytes
  pub written : written_op e ≡ some op
  pub bytes_eq : b.bytes ≡ a.bytes ++ op_code op ∷ args
  pub width_eq : width e ≡ suc (length args)
  pub reads :
      (ys : Bytes)
      → (vs : List ℕ) × (read_operands (dump_shape op) (args ++ ys)
          ≡ some (record { values = vs; skip = length args; rest = ys }))

-- A call writes one instruction, or nothing.
abbrev pub Outcome : Emit → Assembler → Assembler → Type 0
Outcome e a b =
    ((op : Op) × Encodes e a b op) ⊎ ((written_op e ≡ none) × (width e ≡ 0) × (b.bytes ≡ a.bytes))

abbrev pub ReadsAs : Op → Bytes → Type 0
ReadsAs op args =
    (ys : Bytes)
    → (vs : List ℕ) × (read_operands (dump_shape op) (args ++ ys)
        ≡ some (record { values = vs; skip = length args; rest = ys }))

encoded :
    (e : Emit) (a : Assembler) {x b : Assembler} (op : Op) (args : Bytes)
    → written_op e ≡ some op
    → some x ≡ some b
    → x.bytes ≡ a.bytes ++ op_code op ∷ args
    → width e ≡ suc (length args)
    → ReadsAs op args
    → Outcome e a b
encoded e a {x} {b} op args w h q n r =
    let p : x ≡ b = cc in
    inr→inl (record {
      args = args;
      written = w;
      bytes_eq = ap (λ (c : Assembler). c.bytes) (sym p) ∙ q;
      width_eq = n;
      reads = r;
    })
  where
    inr→inl : Encodes e a b op → Outcome e a b
    inr→inl t = inl (op, t)

pub after_location :
    (l : String) (a : Assembler) (bs : Bytes)
    → (get_location_for_label l (offset a + 1) a).1.bytes ++ bs ≡ a.bytes ++ bs
after_location l a bs = ap (λ (xs : Bytes). xs ++ bs) (bytes-get_location l (offset a + 1) a)

pub after_locations :
    (c f : String) (a : Assembler) (bs : Bytes)
    → let a₁ = (get_location_for_label c (offset a + 1) a).1 in
      (get_location_for_label f (offset a₁ + 5) a₁).1.bytes ++ bs ≡ a.bytes ++ bs
after_locations c f a bs =
    let a₁ = (get_location_for_label c (offset a + 1) a).1 in
    ap (λ (xs : Bytes). xs ++ bs)
      (bytes-get_location f (offset a₁ + 5) a₁ ∙ bytes-get_location c (offset a + 1) a)

bytes-define_label :
    (l : String) (a : Assembler) {b : Assembler} → define_label l a ≡ some b → b.bytes ≡ a.bytes
unfolding define_label
bytes-define_label l a {b} h = elim (Option-cases (find_label l a.label_to_location)) [
  | inl e ↦
      let known = (l, offset a % 2 ^ 32) ∷ a.label_to_location in
      let same : record a { label_to_location = known } ≡ b = cc (rw (e, define_label) at h) in
      ap (λ (c : Assembler). c.bytes) (sym same)
  | inr (v, e) ↦ cc (rw (e, define_label) at h)
]

comparison-ReadsAs : (op : Op) → IsComparison op → ReadsAs op []
unfolding read_operands dump_shape
comparison-ReadsAs _ lt ys = (_, refl)
comparison-ReadsAs _ le ys = (_, refl)
comparison-ReadsAs _ eq ys = (_, refl)
comparison-ReadsAs _ ge ys = (_, refl)
comparison-ReadsAs _ gt ys = (_, refl)

take-length : (xs ys : Bytes) → take (length xs) (xs ++ ys) ≡ xs
take-length [] ys = refl
take-length (x ∷ xs) ys = ap (◌∷◌ x) (take-length xs ys)

drop-length : (xs ys : Bytes) → drop (length xs) (xs ++ ys) ≡ ys
drop-length [] ys = refl
drop-length (x ∷ xs) ys = drop-length xs ys

text-ReadsAs : (m : Bytes) → length m < 256 → ReadsAs op_debug (length m % 256 ∷ m)
unfolding read_operands dump_shape
text-ReadsAs m h ys =
    let small : length m % 256 ≡ length m = omega arith in
    let fits : leb (length m) (length (m ++ ys)) ≡ true = ground (arith, length-append m ys) in
    (take (length m) (m ++ ys), rw (small, fits, drop-length m ys))

pub emit-Outcome :
    (e : Emit) (a : Assembler) {b : Assembler} → emit e a ≡ some b → IsListed e → Outcome e a b
unfolding emit emit_debug jump_to push_try_to written_op width read_operands dump_shape
emit-Outcome push_nil a h d = encoded _ a _ _ refl h refl refl (λ ys. (_, refl))
emit-Outcome (increment x) a h d = absurd d
emit-Outcome (push_bool true) a h d = encoded _ a _ _ refl h refl refl (λ ys. (_, refl))
emit-Outcome (push_bool false) a h d = encoded _ a _ _ refl h refl refl (λ ys. (_, refl))
emit-Outcome (compare_op op) a h d = encoded _ a op [] refl h refl refl (comparison-ReadsAs op d)
emit-Outcome (label l) a h d = inr (refl, refl, bytes-define_label l a h)
emit-Outcome (jump l) a h d =
    encoded _ a op_jump (word_bytes (get_location_for_label l (offset a + 1) a).0) refl h
      (after_location l a (op_code op_jump ∷ _)) refl (λ ys. (_, refl))
emit-Outcome (jump_if_true l) a h d =
    encoded _ a op_jump_if_true (word_bytes (get_location_for_label l (offset a + 1) a).0) refl h
      (after_location l a (op_code op_jump_if_true ∷ _)) refl (λ ys. (_, refl))
emit-Outcome (jump_if_false l) a h d =
    encoded _ a op_jump_if_false (word_bytes (get_location_for_label l (offset a + 1) a).0) refl h
      (after_location l a (op_code op_jump_if_false ∷ _)) refl (λ ys. (_, refl))
emit-Outcome (push_try c f) a h d =
    let a₁ = (get_location_for_label c (offset a + 1) a).1 in
    let catch_addr = (get_location_for_label c (offset a + 1) a).0 in
    let finally_addr = (get_location_for_label f (offset a₁ + 5) a₁).0 in
    encoded _ a op_try_push (word_bytes catch_addr ++ word_bytes finally_addr) refl h
      (after_locations c f a (op_code op_try_push ∷ _)) refl (λ ys. (_, refl))
emit-Outcome (debug_string m) a h d = elim (Bool-cases (ltb (length m) 256)) [
  | inl e ↦
      encoded _ a op_debug (length m % 256 ∷ m) refl (rw (e, emit_debug) at h) refl (omega arith)
        (text-ReadsAs m (ground arith))
  | inr e ↦ cc (rw (e, emit_debug) at h)
]
emit-Outcome _ a h d = encoded _ a _ _ refl h refl refl (λ ys. (_, refl))

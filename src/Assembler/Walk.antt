-- ===== src/Assembler/Walk.antt =====
-- The walk of `DumpByteCode` over the code of a whole chain of calls.
use mathlib.Core.List.{append_assoc, append-nil}
use mathlib.Core.Option
use nib_lang.Base.{
  ℕ, zero, suc, ◌+◌, ◌<◌, List, [], ◌∷◌, ◌++◌, Option, none, some, Bytes, ◌≡◌, refl, sym, ap, ◌∙◌,
  arith, length, All, inl, inr, Option-cases, byte, length-append,
}
use nib_lang.Assembler.Opcodes.{Op, op_add, op_inc, op_code, op_of, op_of-op_code}
use nib_lang.Assembler.{Assembler, empty, push_op_and_args}
use nib_lang.Assembler.Emit.{Emit, increment, emit, emit_all}
use nib_lang.Assembler.Dump.{dump_shape, read_operands, Line, dump, dump_byte_code}
use nib_lang.Assembler.Listing.{written_op, width, IsListed, listing, heads, Outcome, emit-Outcome}

dump-step :
    (op : Op) (args ys : Bytes) (f pc : ℕ) (vs : List ℕ)
    → read_operands (dump_shape op) (args ++ ys)
      ≡ some (record { values = vs; skip = length args; rest = ys })
    → dump (suc f) (op_code op ∷ (args ++ ys)) pc
      ≡ Option.map
          (◌∷◌ (record { address = pc; op = op; values = vs }))
          (dump f ys (pc + 1 + length args))
unfolding dump
dump-step op args ys f pc vs r = rw (op_of-op_code op, dump) (rw (r, dump))

map-heads :
    (pc : ℕ) (op : Op) (vs : List ℕ) (o : Option (List Line)) {ls : List (ℕ × Op)}
    → Option.map heads o ≡ some ls
    → Option.map heads (Option.map (◌∷◌ (record { address = pc; op = op; values = vs })) o)
      ≡ some ((pc, op) ∷ ls)
map-heads pc op vs none h = cc
map-heads pc op vs (some l) h = ap (λ x. Option.map (◌∷◌ (pc, op)) x) h

-- The code that a chain writes behind buffer `a`, and its listing.
record Lists (es : List Emit) (a b : Assembler) : Type 0 where
  code : Bytes
  bytes_eq : b.bytes ≡ a.bytes ++ code
  dumps : (f pc : ℕ) → length code < f → Option.map heads (dump f code pc) ≡ some (listing es pc)

Lists-nil : {a b : Assembler} → a ≡ b → Lists [] a b
Lists-nil {a} {b} same = record {
  code = [];
  bytes_eq = ap (λ (c : Assembler). c.bytes) (sym same) ∙ sym (append-nil a.bytes);
  dumps = go;
}
  where
    go : (f pc : ℕ) → 0 < f → Option.map heads (dump f [] pc) ≡ some []
    go zero pc h = elim h [ ]
    go (suc f) pc h = unfold dump in refl

listing-cons :
    (e : Emit) (es : List Emit) (pc : ℕ) {op : Op}
    → written_op e ≡ some op
    → listing (e ∷ es) pc ≡ (pc, op) ∷ listing es (pc + width e)
listing-cons e es pc w = rw (w, listing)

listing-skip :
    (e : Emit) (es : List Emit) (pc : ℕ)
    → written_op e ≡ none
    → width e ≡ 0
    → listing (e ∷ es) pc ≡ listing es pc
listing-skip e es pc w n = let same : pc + width e ≡ pc = omega arith in rw (w, listing) (rw same)

Lists-cons :
    (e : Emit) (es : List Emit) (a b c : Assembler)
    → Lists es c b
    → Outcome e a c
    → Lists (e ∷ es) a b
Lists-cons e es a b c t (inl (op, u)) = record {
  code = op_code op ∷ (u.args ++ t.code);
  bytes_eq =
      t.bytes_eq ∙ ap (λ (xs : Bytes). xs ++ t.code) u.bytes_eq ∙ append_assoc a.bytes _ t.code;
  dumps = go;
}
  where
    go :
        (f pc : ℕ)
        → suc (length (u.args ++ t.code)) < f
        → Option.map heads (dump f (op_code op ∷ (u.args ++ t.code)) pc)
          ≡ some (listing (e ∷ es) pc)
    go zero pc h = elim h [ ]
    go (suc f) pc h =
        let next : pc + 1 + length u.args ≡ pc + width e = omega (arith, u.width_eq) in
        let (vs, r) = u.reads t.code in
        ap (Option.map heads) (dump-step op u.args t.code f pc vs r)
        ∙ map-heads pc op vs (dump f t.code (pc + 1 + length u.args))
            (rw next (t.dumps f (pc + width e) (omega (arith, length-append u.args t.code))))
        ∙ ap some (sym (listing-cons e es pc u.written))
Lists-cons e es a b c t (inr (w, n, q)) = record {
  code = t.code;
  bytes_eq = t.bytes_eq ∙ ap (λ (xs : Bytes). xs ++ t.code) q;
  dumps = λ f pc k. t.dumps f pc k ∙ ap some (sym (listing-skip e es pc w n));
}

emit_all-Lists :
    (es : List Emit) (a : Assembler) {b : Assembler}
    → emit_all es a ≡ some b
    → All IsListed es
    → Lists es a b
unfolding emit_all
emit_all-Lists [] a {b} h d = Lists-nil (cc h)
emit_all-Lists (e ∷ es) a {b} h d = elim (Option-cases (emit e a)) [
  | inl q ↦ cc (rw (q, emit_all) at h)
  | inr (c, q) ↦
      Lists-cons e es a b c (emit_all-Lists es c (rw (q, emit_all) at h) d.1)
        (emit-Outcome e a q d.0)
]

-- For every chain of calls without `Increment`, with a comparison wherever `Compare` is called,
-- that does not abort, `DumpByteCode` reads nothing behind the end of its code and prints one line
-- for each call but `Label`, in order, with the call's opcode and the address where it wrote.
pub dump_byte_code-emit_all :
    (es : List Emit) (b : Assembler)
    → emit_all es empty ≡ some b
    → All IsListed es
    → Option.map heads (dump_byte_code b.bytes) ≡ some (listing es 0)
unfolding dump_byte_code
dump_byte_code-emit_all es b h d =
    let t = emit_all-Lists es empty h d in
    rw t.bytes_eq (t.dumps (suc (length t.code)) 0 (omega arith))

after_increment :
    (o : Option Op) (f pc : ℕ) (x : ℕ)
    → op_of x ≡ o
    → dump (suc (suc (suc (suc f)))) (x ∷ 0 ∷ 0 ∷ 0 ∷ []) pc ≡ none
unfolding dump dump_shape read_operands op_of
after_increment none f pc x e = rw (e, dump)
after_increment (some op_add) f pc x e = rw (e, dump)
after_increment (some _) f pc x e = rw (e, dump)

-- In the code of a lone `Increment(idx)`, for an index below 256, `DumpByteCode` takes the argument
-- for instructions and reads behind the end of the code.
pub dump_byte_code-increment :
    (idx : ℕ) (b : Assembler)
    → idx < 256
    → emit_all (increment idx ∷ []) empty ≡ some b
    → dump_byte_code b.bytes ≡ none
unfolding dump_byte_code emit_all emit op_code dump op_of dump_shape read_operands
dump_byte_code-increment idx b h e =
    let same : push_op_and_args empty op_inc (idx ∷ []) ≡ b = cc e in
    let b0 : byte idx 0 ≡ idx = omega arith in
    let b1 : byte idx 1 ≡ 0 = omega arith in
    let b2 : byte idx 2 ≡ 0 = omega arith in
    let b3 : byte idx 3 ≡ 0 = omega arith in
    let code : b.bytes ≡ 24 ∷ idx ∷ 0 ∷ 0 ∷ 0 ∷ [] =
      ap (λ (c : Assembler). c.bytes) (sym same) ∙ rw (b0, b1, b2, b3) in
    rw code (
      ap
        (λ o. elim o [
          | none ↦ none
          | some ls ↦ some (record { address = 0; op = op_inc; values = [] } ∷ ls)
        ])
        (after_increment (op_of idx) 1 1 idx refl))

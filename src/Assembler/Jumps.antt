-- ===== src/Assembler/Jumps.antt =====
-- Jumps and their labels through a whole chain of method calls and `Build`.
use Prim.Native.String.{String}
use text.Mathlib.TextEquality.{eq_iff}
use mathlib.Core.List.{append_assoc, append-nil}
use mathlib.Core.Path.{subst}
use nib_lang.Base.{
  ℕ, ◌+◌, ◌%◌, ◌^◌, ◌≤◌, ◌<◌, List, [], ◌∷◌, ◌++◌, Option, some, ◌≡◌, refl, ◌≢◌, ◌⊎◌, sym, ap, inl,
  inr, ◌∙◌, arith, length, Bytes, read_word, Option-cases, Bool-cases, ltb, length-append,
}
use nib_lang.Assembler.Opcodes.{Op, op_jump, op_jump_if_true, op_jump_if_false}
use nib_lang.Assembler.{Assembler, offset, find_label, put_patch, push_bytes}
use nib_lang.Assembler.Emit.{
  Emit, label, jump, jump_if_true, jump_if_false, push_try, debug_string, push_nil, emit, emit_all,
  get_location_for_label, jump_to, push_try_to, define_label, emit_debug,
}
use nib_lang.Assembler.Build.{by_label, Reads}

-- What later calls keep: the bytes written so far are a prefix, and known labels stay.
pub record Extends (a b : Assembler) : Type 0 where
  pub tail : Bytes
  pub bytes_eq : b.bytes ≡ a.bytes ++ tail
  pub labels :
      (l : String) (v : ℕ)
      → find_label l a.label_to_location ≡ some v
      → find_label l b.label_to_location ≡ some v

-- The word at `p` waits for label `l`.
abbrev pub Waits : ℕ → String → List (ℕ × String) → Type 0
Waits p l [] = ⊥
Waits p l ((q, k) ∷ es) = ((q ≡ p) × (k ≡ l)) ⊎ Waits p l es

Extends-refl : (a : Assembler) → Extends a a
Extends-refl a = record { tail = []; bytes_eq = sym (append-nil a.bytes); labels = λ l v h. h }

Extends-trans : {a b c : Assembler} → Extends a b → Extends b c → Extends a c
Extends-trans {a} {b} {c} s t = record {
  tail = s.tail ++ t.tail;
  bytes_eq = t.bytes_eq ∙ ap (λ x. x ++ t.tail) s.bytes_eq ∙ append_assoc a.bytes s.tail t.tail;
  labels = λ l v h. t.labels l v (s.labels l v h);
}

module _ (a : Assembler) where
  emitted : {b c : Assembler} → some b ≡ some c → Extends a b → Extends a c
  emitted {b} {c} e t = let p : b ≡ c = cc in subst (Extends a) p t

  push-Extends : (bs : Bytes) → Extends a (push_bytes a bs)
  push-Extends bs = record { tail = bs; bytes_eq = refl; labels = λ l v h. h }

  get_location-Extends : (l : String) (p : ℕ) → Extends a (get_location_for_label l p a).1
  unfolding get_location_for_label
  get_location-Extends l p = elim (Option-cases (find_label l a.label_to_location)) [
    | inl e ↦
        rw (e, get_location_for_label)
          (record { tail = []; bytes_eq = sym (append-nil a.bytes); labels = λ l v h. h })
    | inr (v, e) ↦ rw (e, get_location_for_label) (Extends-refl a)
  ]

  define_label-Extends : (l : String) {b : Assembler} → define_label l a ≡ some b → Extends a b
  unfolding define_label
  define_label-Extends l h = elim (Option-cases (find_label l a.label_to_location)) [
    | inl e ↦ emitted (rw (e, define_label) at h) (record {
      tail = [];
      bytes_eq = sym (append-nil a.bytes);
      labels = λ k v f. ground (arith, eq_iff l k);
    })
    | inr (v, e) ↦ cc (rw (e, define_label) at h)
  ]

jump_to-Extends : (op : Op) (l : String) (a : Assembler) → Extends a (jump_to op l a)
unfolding jump_to
jump_to-Extends op l a = Extends-trans (get_location-Extends a l (offset a + 1)) (push-Extends _ _)

push_try_to-Extends : (c f : String) (a : Assembler) → Extends a (push_try_to c f a)
unfolding push_try_to
push_try_to-Extends c f a =
    let a₁ = (get_location_for_label c (offset a + 1) a).1 in
    Extends-trans (get_location-Extends a c (offset a + 1))
      (Extends-trans (get_location-Extends a₁ f (offset a₁ + 5)) (push-Extends _ _))

pub emit-Extends : (e : Emit) (a : Assembler) {b : Assembler} → emit e a ≡ some b → Extends a b
unfolding emit emit_debug
emit-Extends push_nil a h = emitted a h (push-Extends a _)
emit-Extends (label l) a h = define_label-Extends a l h
emit-Extends (jump l) a h = emitted a h (jump_to-Extends _ l a)
emit-Extends (jump_if_true l) a h = emitted a h (jump_to-Extends _ l a)
emit-Extends (jump_if_false l) a h = emitted a h (jump_to-Extends _ l a)
emit-Extends (push_try c f) a h = emitted a h (push_try_to-Extends c f a)
emit-Extends (debug_string m) a h = elim (Bool-cases (ltb (length m) 256)) [
  | inl e ↦ emitted a (rw (e, emit_debug) at h) (push-Extends a _)
  | inr e ↦ cc (rw (e, emit_debug) at h)
]
emit-Extends _ a h = emitted a h (record { tail = _; bytes_eq = refl; labels = λ l v f. f })

pub emit_all-Extends :
    (es : List Emit) (a : Assembler) {b : Assembler} → emit_all es a ≡ some b → Extends a b
unfolding emit_all
emit_all-Extends [] a h = emitted a h (Extends-refl a)
emit_all-Extends (e ∷ es) a h = elim (Option-cases (emit e a)) [
  | inl q ↦ cc (rw (q, emit_all) at h)
  | inr (c, q) ↦ Extends-trans (emit-Extends e a q) (emit_all-Extends es c (rw (q, emit_all) at h))
]

pub offset-le : {a b : Assembler} → Extends a b → offset a ≤ offset b
offset-le {a} {b} s = omega (arith, ap length s.bytes_eq, length-append a.bytes s.tail)

pub within : {a b : Assembler} → some a ≡ some b → offset b < 2 ^ 32 → offset a < 2 ^ 32
within {a} {b} e small = let p : a ≡ b = cc in let same = ap offset p in omega arith

pub bytes-get_location :
    (l : String) (p : ℕ) (a : Assembler) → (get_location_for_label l p a).1.bytes ≡ a.bytes
unfolding get_location_for_label
bytes-get_location l p a = elim (Option-cases (find_label l a.label_to_location)) [
  | inl e ↦ rw (e, get_location_for_label)
  | inr (v, e) ↦ rw (e, get_location_for_label)
]

pub offset-jump_to : (op : Op) (l : String) (a : Assembler) → offset (jump_to op l a) ≡ offset a + 5
unfolding jump_to
offset-jump_to op l a =
    let b = (get_location_for_label l (offset a + 1) a).1 in
    let same : length b.bytes ≡ offset a = ap length (bytes-get_location l (offset a + 1) a) in
    length-append b.bytes _ ∙ rw same refl

pub offset-push_try_to : (c f : String) (a : Assembler) → offset (push_try_to c f a) ≡ offset a + 9
unfolding push_try_to
offset-push_try_to c f a =
    let a₁ = (get_location_for_label c (offset a + 1) a).1 in
    let same₁ : length a₁.bytes ≡ offset a = ap length (bytes-get_location c (offset a + 1) a) in
    let a₂ = (get_location_for_label f (offset a₁ + 5) a₁).1 in
    let same₂ : length a₂.bytes ≡ offset a₁ = ap length (bytes-get_location f (offset a₁ + 5) a₁) in
    length-append a₂.bytes _ ∙ rw (same₂ ∙ same₁) refl

module _ (p : ℕ) (l : String) where
  Waits-put_patch :
      (q : ℕ) (k : String) (es : List (ℕ × String))
      → q ≢ p
      → Waits p l es
      → Waits p l (put_patch q k es)
  Waits-put_patch q k [] n w = absurd w
  Waits-put_patch q k ((j, i) ∷ es) n w = ground (arith, Waits-put_patch q k es n)

  pub Waits-put_patch_self : (es : List (ℕ × String)) → Waits p l (put_patch p l es)
  Waits-put_patch_self [] = inl (refl, refl)
  Waits-put_patch_self ((j, i) ∷ es) = ground (arith, Waits-put_patch_self es)

  abbrev pub WaitsIn : Assembler → Type 0
  WaitsIn a = Waits p l a.patch_locations

  get_location-Waits :
      (k : String) (q : ℕ) (a : Assembler)
      → q < 2 ^ 32
      → q ≢ p
      → WaitsIn a
      → WaitsIn (get_location_for_label k q a).1
  unfolding get_location_for_label
  get_location-Waits k q a small n w =
      let same : q % 2 ^ 32 ≡ q = omega arith in
      elim (Option-cases (find_label k a.label_to_location)) [
        | inl e ↦
            rw (e, get_location_for_label) (rw same (Waits-put_patch q k a.patch_locations n w))
        | inr (v, e) ↦ rw (e, get_location_for_label) w
      ]

  waiting : {a b : Assembler} → some a ≡ some b → WaitsIn a → WaitsIn b
  waiting {a} {b} e t = let q : a ≡ b = cc in subst WaitsIn q t

  jump_to-Waits :
      (op : Op) (k : String) (a : Assembler)
      → offset (jump_to op k a) < 2 ^ 32
      → p + 4 ≤ offset a
      → WaitsIn a
      → WaitsIn (jump_to op k a)
  unfolding jump_to
  jump_to-Waits op k a small n w =
      let room : offset a + 5 < 2 ^ 32 = omega (arith, offset-jump_to op k a) in
      get_location-Waits k (offset a + 1) a (omega arith) (omega arith) w

  push_try_to-Waits :
      (c f : String) (a : Assembler)
      → offset (push_try_to c f a) < 2 ^ 32
      → p + 4 ≤ offset a
      → WaitsIn a
      → WaitsIn (push_try_to c f a)
  unfolding push_try_to
  push_try_to-Waits c f a small n w =
      let a₁ = (get_location_for_label c (offset a + 1) a).1 in
      let same₁ : offset a₁ ≡ offset a = ap length (bytes-get_location c (offset a + 1) a) in
      let room : offset a + 9 < 2 ^ 32 = omega (arith, offset-push_try_to c f a) in
      get_location-Waits f (offset a₁ + 5) a₁ (omega arith) (omega arith)
        (get_location-Waits c (offset a + 1) a (omega arith) (omega arith) w)

  emit-Waits :
      (e : Emit) (a : Assembler) {b : Assembler}
      → emit e a ≡ some b
      → offset b < 2 ^ 32
      → p + 4 ≤ offset a
      → WaitsIn a
      → WaitsIn b
  unfolding emit emit_debug define_label
  emit-Waits push_nil a h small n w = waiting h w
  emit-Waits (label k) a h small n w = elim (Option-cases (find_label k a.label_to_location)) [
    | inl e ↦ waiting (rw (e, define_label) at h) w
    | inr (v, e) ↦ cc (rw (e, define_label) at h)
  ]
  emit-Waits (jump k) a h small n w = waiting h (jump_to-Waits op_jump k a (within h small) n w)
  emit-Waits (jump_if_true k) a h small n w =
      waiting h (jump_to-Waits op_jump_if_true k a (within h small) n w)
  emit-Waits (jump_if_false k) a h small n w =
      waiting h (jump_to-Waits op_jump_if_false k a (within h small) n w)
  emit-Waits (push_try c f) a h small n w = waiting h (push_try_to-Waits c f a (within h small) n w)
  emit-Waits (debug_string m) a h small n w = elim (Bool-cases (ltb (length m) 256)) [
    | inl e ↦ waiting (rw (e, emit_debug) at h) w
    | inr e ↦ cc (rw (e, emit_debug) at h)
  ]
  emit-Waits _ a h small n w = waiting h w

  pub emit_all-Waits :
      (es : List Emit) (a : Assembler) {b : Assembler}
      → emit_all es a ≡ some b
      → offset b < 2 ^ 32
      → p + 4 ≤ offset a
      → WaitsIn a
      → WaitsIn b
  unfolding emit_all
  emit_all-Waits [] a h small n w = waiting h w
  emit_all-Waits (e ∷ es) a h small n w = elim (Option-cases (emit e a)) [
    | inl q ↦ cc (rw (q, emit_all) at h)
    | inr (c, q) ↦
        let rest = rw (q, emit_all) at h in
        let room = offset-le (emit_all-Extends es c rest) in
        emit_all-Waits es c rest small (omega (arith, offset-le (emit-Extends e a q)))
          (emit-Waits e a q (omega arith) n w)
  ]

  -- What waits for a label is read back as the label's value.
  pub Waits-Reads :
      (find : String → Option ℕ) (r : Bytes) (es : List (ℕ × String))
      → Waits p l es
      → Reads find r (by_label es)
      → (v : ℕ) × (find l ≡ some v) × (read_word r p ≡ v % 2 ^ 32)
  Waits-Reads find r [] w t = absurd w
  Waits-Reads find r ((q, k) ∷ es) (inl (e, f)) t =
      (t.0.0, ap find (sym f) ∙ t.0.1, ap (read_word r) (sym e) ∙ t.0.2)
  Waits-Reads find r ((q, k) ∷ es) (inr w) t = Waits-Reads find r es w t.1

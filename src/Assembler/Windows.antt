-- ===== src/Assembler/Windows.antt =====
-- Every method of `class Assembler` keeps the patch windows inside the buffer and apart, keeps the
-- labels and the bytes that are there, and keeps what waits for a label.
use Prim.Native.String.{String}
use mathlib.Core.List.{append_assoc, append-nil}
use mathlib.Core.Path.{subst}
use nib_lang.Base.{
  ℕ, ◌+◌, ◌%◌, ◌^◌, ◌<◌, ◌≤◌, List, [], ◌∷◌, ◌++◌, some, ◌≡◌, refl, ap, inl, inr, arith, length,
  All, All-append, All-map_of, Bytes, Option-cases, Bool-cases, ltb, length-append,
}
use nib_lang.Assembler.Opcodes.{Op}
use nib_lang.Assembler.{Assembler, offset, find_label, put_patch, push_bytes}
use nib_lang.Assembler.Emit.{
  Emit, patch_call, patch_bind, patch_new_object, patch_call_virtual, label, jump, jump_if_true,
  jump_if_false, push_try, debug_string, push_nil, emit, emit_all, get_location_for_label, jump_to,
  push_try_to, define_label, emit_debug, note_call, note_object,
}
use nib_lang.Assembler.Patch.{Apart, Spread}
use nib_lang.Assembler.Build.{by_label, addresses_of}
use nib_lang.Assembler.Jumps.{
  bytes-get_location, offset-jump_to, offset-push_try_to, offset-le, emit_all-Extends, within,
}
use nib_lang.Assembler.Layout.{addresses, Laid, All-split}

Laid-weaken : {n m : ℕ} (ps : List ℕ) → n ≤ m → Laid n ps → Laid m ps
Laid-weaken {n} {m} ps h t = record {
  fits = All-map_of _ _ ps (λ p k. omega arith) t.fits;
  spread = t.spread;
}

Spread-insert :
    (n p : ℕ) (xs ys : List ℕ)
    → n ≤ p
    → All (λ q. q + 4 ≤ n) (xs ++ ys)
    → Spread (xs ++ ys)
    → Spread (xs ++ p ∷ ys)
Spread-insert n p [] ys h f s = (All-map_of _ _ ys (λ q k. inr (omega arith)) f, s)
Spread-insert n p (x ∷ xs) ys h f s =
    let (l, r) = All-split (Apart x) xs ys s.0 in
    let at_p : Apart x p = inl (omega arith) in
    (All-append (Apart x) xs (p ∷ ys) l (at_p, r), Spread-insert n p xs ys h f.1 s.1)

-- A window at or behind position `n` goes anywhere among windows that end by `n`.
Laid-insert : (n p : ℕ) (xs ys : List ℕ) → n ≤ p → Laid n (xs ++ ys) → Laid (p + 4) (xs ++ p ∷ ys)
Laid-insert n p xs ys h t =
    let (l, r) = All-split _ xs ys (Laid-weaken {m = p + 4} (xs ++ ys) (omega arith) t).fits in
    record {
      fits = All-append _ xs (p ∷ ys) l (omega arith, r);
      spread = Spread-insert n p xs ys h t.fits t.spread;
    }

addresses_of-append {ℓ} :
    {K : Type ℓ} (xs ys : List (K × ℕ))
    → addresses_of (xs ++ ys) ≡ addresses_of xs ++ addresses_of ys
addresses_of-append [] ys = refl
addresses_of-append ((k, p) ∷ xs) ys = ap (◌∷◌ p) (addresses_of-append xs ys)

by_label-append : (xs ys : List (ℕ × String)) → by_label (xs ++ ys) ≡ by_label xs ++ by_label ys
by_label-append [] ys = refl
by_label-append ((p, l) ∷ xs) ys = ap (◌∷◌ (l, p)) (by_label-append xs ys)

-- A key behind all others goes to the end.
put_patch-append :
    (n p : ℕ) (l : String) (es : List (ℕ × String))
    → n ≤ p
    → All (λ q. q + 4 ≤ n) (addresses_of (by_label es))
    → put_patch p l es ≡ es ++ (p, l) ∷ []
put_patch-append n p l [] h f = refl
put_patch-append n p l ((q, k) ∷ es) h f = ground (arith, put_patch-append n p l es h f.1)

-- The windows `ws` and those of the buffer.
abbrev pub all_windows : List ℕ → Assembler → List ℕ
all_windows ws a = ws ++ addresses a

module _ (ws : List ℕ) where
  put_jump : ℕ → String → Assembler → Assembler
  put_jump p l a = record a { patch_locations = put_patch p l a.patch_locations }

  put_jump-Laid :
      (n p : ℕ) (l : String) (a : Assembler)
      → n ≤ p
      → Laid n (all_windows ws a)
      → Laid (p + 4) (all_windows ws (put_jump p l a))
  unfolding put_jump
  put_jump-Laid n p l a h t =
      let J = addresses_of (by_label a.patch_locations) in
      let rest = addresses_of a.call_patch_locations ++ addresses_of a.virtual_patch_locations in
      let fit_j = (All-split _ J rest (All-split _ ws (J ++ rest) t.fits).1).0 in
      let split : Laid n ((ws ++ J) ++ rest) = rw append_assoc t in
      rw (put_patch-append n p l a.patch_locations h fit_j) (
        simp (by_label-append, addresses_of-append, append_assoc)
          (simp append_assoc at (Laid-insert n p (ws ++ J) rest h split)))

  note_call-Laid :
      (n idx : ℕ) (a : Assembler)
      → offset a + 5 < 2 ^ 32
      → n ≤ offset a + 1
      → Laid n (all_windows ws a)
      → Laid (offset a + 5) (all_windows ws (note_call idx a))
  note_call-Laid n idx a room h t =
      let same : (offset a + 1) % 2 ^ 32 ≡ offset a + 1 = omega arith in
      let J = addresses_of (by_label a.patch_locations) in
      let C = addresses_of a.call_patch_locations in
      let V = addresses_of a.virtual_patch_locations in
      let split : Laid n ((ws ++ (J ++ C)) ++ V) = simp append_assoc t in
      Laid-weaken {n = offset a + 1 + 4} _ (omega arith) (
        rw same (
          simp (addresses_of-append, append_assoc)
            (simp append_assoc at (Laid-insert n (offset a + 1) (ws ++ (J ++ C)) V h split))))

  note_object-Laid :
      (n id : ℕ) (a : Assembler)
      → offset a + 5 < 2 ^ 32
      → n ≤ offset a + 1
      → Laid n (all_windows ws a)
      → Laid (offset a + 5) (all_windows ws (note_object id a))
  note_object-Laid n id a room h t =
      let same : (offset a + 1) % 2 ^ 32 ≡ offset a + 1 = omega arith in
      let J = addresses_of (by_label a.patch_locations) in
      let C = addresses_of a.call_patch_locations in
      let V = addresses_of a.virtual_patch_locations in
      let split : Laid n ((ws ++ (J ++ (C ++ V))) ++ []) = rw append-nil t in
      Laid-weaken {n = offset a + 1 + 4} _ (omega arith) (
        rw same (
          simp addresses_of-append (
            simp append_assoc at
              (Laid-insert n (offset a + 1) (ws ++ (J ++ (C ++ V))) [] h split))))

  put_location-Laid :
      (l : String) (n p : ℕ) (a : Assembler)
      → p < 2 ^ 32
      → n ≤ p
      → Laid n (all_windows ws a)
      → Laid (p + 4) (all_windows ws (get_location_for_label l p a).1)
  unfolding get_location_for_label put_jump
  put_location-Laid l n p a small h t =
      let same : p % 2 ^ 32 ≡ p = omega arith in
      elim (Option-cases (find_label l a.label_to_location)) [
        | inl e ↦ rw (e, get_location_for_label) (rw same (put_jump-Laid n p l a h t))
        | inr (v, e) ↦ rw (e, get_location_for_label) (Laid-weaken {n = n} _ (omega arith) t)
      ]

  push-Laid :
      (bs : Bytes) (n : ℕ) (a : Assembler)
      → n ≤ length a.bytes + length bs
      → Laid n (all_windows ws a)
      → Laid (length (push_bytes a bs).bytes) (all_windows ws (push_bytes a bs))
  push-Laid bs n a h t = rw length-append (Laid-weaken {n = n} _ h t)

  jump_to-Laid :
      (op : Op) (l : String) (a : Assembler)
      → offset (jump_to op l a) < 2 ^ 32
      → Laid (offset a) (all_windows ws a)
      → Laid (offset (jump_to op l a)) (all_windows ws (jump_to op l a))
  unfolding jump_to
  jump_to-Laid op l a small t =
      let room : offset a + 5 < 2 ^ 32 = omega (arith, offset-jump_to op l a) in
      let b = (get_location_for_label l (offset a + 1) a).1 in
      let same : length b.bytes ≡ offset a = ap length (bytes-get_location l (offset a + 1) a) in
      push-Laid _ (offset a + 1 + 4) b (omega arith)
        (put_location-Laid l (offset a) (offset a + 1) a (omega arith) (omega arith) t)

  push_try_to-Laid :
      (c f : String) (a : Assembler)
      → offset (push_try_to c f a) < 2 ^ 32
      → Laid (offset a) (all_windows ws a)
      → Laid (offset (push_try_to c f a)) (all_windows ws (push_try_to c f a))
  unfolding push_try_to
  push_try_to-Laid c f a small t =
      let room : offset a + 9 < 2 ^ 32 = omega (arith, offset-push_try_to c f a) in
      let a₁ = (get_location_for_label c (offset a + 1) a).1 in
      let same₁ : length a₁.bytes ≡ offset a = ap length (bytes-get_location c (offset a + 1) a) in
      let a₂ = (get_location_for_label f (offset a₁ + 5) a₁).1 in
      let same₂ : length a₂.bytes ≡ offset a₁ =
        ap length (bytes-get_location f (offset a₁ + 5) a₁) in
      push-Laid _ (offset a₁ + 5 + 4) a₂ (omega arith) (
        put_location-Laid f (offset a + 1 + 4) (offset a₁ + 5) a₁ (omega arith) (omega arith)
          (put_location-Laid c (offset a) (offset a + 1) a (omega arith) (omega arith) t))

  -- Nine bytes appended.
  noted :
      (a : Assembler) (bs : Bytes)
      → length (a.bytes ++ bs) < 2 ^ 32
      → 5 ≤ length bs
      → offset a + 5 < 2 ^ 32
  noted a bs h k = omega (arith, length-append a.bytes bs)

  abbrev Good : Assembler → Type 0
  Good a = Laid (offset a) (all_windows ws a)

  emitted : {a b : Assembler} → some a ≡ some b → Good a → Good b
  emitted {a} {b} e t = let p : a ≡ b = cc in subst Good p t

  -- Every method keeps the windows inside the buffer and apart, while addresses fit 32 bits.
  pub emit-Laid :
      (e : Emit) (a : Assembler) {b : Assembler}
      → emit e a ≡ some b
      → offset b < 2 ^ 32
      → Good a
      → Good b
  unfolding emit define_label emit_debug
  emit-Laid push_nil a h small t = emitted h (push-Laid _ (offset a) a (omega arith) t)
  emit-Laid (patch_call i n) a h small t = emitted h (
      push-Laid _ (offset a + 5) (note_call i a) (omega arith)
        (note_call-Laid (offset a) i a (noted a _ (within h small) (omega arith)) (omega arith) t))
  emit-Laid (patch_bind i n) a h small t = emitted h (
      push-Laid _ (offset a + 5) (note_call i a) (omega arith)
        (note_call-Laid (offset a) i a (noted a _ (within h small) (omega arith)) (omega arith) t))
  emit-Laid (patch_call_virtual i n) a h small t = emitted h (
      push-Laid _ (offset a + 5) (note_call i a) (omega arith)
        (note_call-Laid (offset a) i a (noted a _ (within h small) (omega arith)) (omega arith) t))
  emit-Laid (patch_new_object i n) a h small t = emitted h (
      push-Laid _ (offset a + 5) (note_object i a) (omega arith) (
        note_object-Laid (offset a) i a (noted a _ (within h small) (omega arith)) (omega arith) t))
  emit-Laid (label l) a h small t = elim (Option-cases (find_label l a.label_to_location)) [
    | inl e ↦ emitted (rw (e, define_label) at h) t
    | inr (v, e) ↦ cc (rw (e, define_label) at h)
  ]
  emit-Laid (jump l) a h small t = emitted h (jump_to-Laid _ l a (within h small) t)
  emit-Laid (jump_if_true l) a h small t = emitted h (jump_to-Laid _ l a (within h small) t)
  emit-Laid (jump_if_false l) a h small t = emitted h (jump_to-Laid _ l a (within h small) t)
  emit-Laid (push_try c f) a h small t = emitted h (push_try_to-Laid c f a (within h small) t)
  emit-Laid (debug_string m) a h small t = elim (Bool-cases (ltb (length m) 256)) [
    | inl e ↦ emitted (rw (e, emit_debug) at h) (push-Laid _ (offset a) a (omega arith) t)
    | inr e ↦ cc (rw (e, emit_debug) at h)
  ]
  emit-Laid e a h small t = emitted h (push-Laid _ (offset a) a (omega arith) t)

  pub emit_all-Laid :
      (es : List Emit) (a : Assembler) {b : Assembler}
      → emit_all es a ≡ some b
      → offset b < 2 ^ 32
      → Good a
      → Good b
  unfolding emit_all
  emit_all-Laid [] a h small t = emitted h t
  emit_all-Laid (e ∷ es) a h small t = elim (Option-cases (emit e a)) [
    | inl q ↦ cc (rw (q, emit_all) at h)
    | inr (c, q) ↦
        let rest = rw (q, emit_all) at h in
        let room = offset-le (emit_all-Extends es c rest) in
        emit_all-Laid es c rest small (emit-Laid e a q (omega arith) t)
  ]

-- ===== src/Assembler/Targets.antt =====
-- Where a jump by label lands in the code that `Build` returns.
use Prim.Native.String.{String}
use text.Mathlib.TextPositions.{eq_refl}
use nib_lang.Base.{
  ℕ, suc, ◌+◌, ◌%◌, ◌^◌, ◌<◌, List, [], ◌∷◌, ◌++◌, none, some, ◌≡◌, refl, ap, inl, inr, ◌∙◌, arith,
  length, All, All-map_of, Bytes, word_bytes, read_word, Option-cases, length-append,
  get_or-append_left, get_or-append_right,
}
use nib_lang.Assembler.Opcodes.{Op, op_code, op_jump, op_jump_if_true, op_jump_if_false}
use nib_lang.Assembler.{Assembler, empty, offset, find_label, put_patch, push_op_and_args}
use nib_lang.Assembler.Emit.{
  Emit, label, jump, jump_if_true, jump_if_false, emit, emit_all, get_location_for_label, jump_to,
  define_label,
}
use nib_lang.Assembler.Patch.{Apart, Outside}
use nib_lang.Assembler.Build.{build}
use nib_lang.Assembler.Layout.{addresses, Laid, IsLaidOut, Linked, build-Linked}
use nib_lang.Assembler.Windows.{emit-Laid, emit_all-Laid}
use nib_lang.Assembler.Jumps.{
  Waits-put_patch_self, emit_all-Waits, Waits-Reads, emit_all-Extends, offset-le, offset-jump_to,
}

-- The three jump instructions that take a label.
pub data IsJump : Emit → Op → String → Type 0 where
  always : (l : String) → IsJump (jump l) op_jump l
  when_true : (l : String) → IsJump (jump_if_true l) op_jump_if_true l
  when_false : (l : String) → IsJump (jump_if_false l) op_jump_if_false l

emit-IsJump :
    {e : Emit} {op : Op} {l : String} (a : Assembler)
    → IsJump e op l
    → emit e a ≡ some (jump_to op l a)
unfolding emit
emit-IsJump a (always l) = refl
emit-IsJump a (when_true l) = refl
emit-IsJump a (when_false l) = refl

-- Every buffer of less than 2^32 bytes that a chain of calls makes has its windows inside it and
-- apart.
pub emit_all-IsLaidOut :
    (es : List Emit) {a : Assembler} → emit_all es empty ≡ some a → offset a < 2 ^ 32 → IsLaidOut a
emit_all-IsLaidOut es h small =
    emit_all-Laid [] es empty h small (record { fits = tt; spread = tt })

emit_all-inv :
    (e : Emit) (es : List Emit) (a : Assembler) {b : Assembler}
    → emit_all (e ∷ es) a ≡ some b
    → (c : Assembler) × (emit e a ≡ some c) × (emit_all es c ≡ some b)
unfolding emit_all
emit_all-inv e es a h = elim (Option-cases (emit e a)) [
  | inl q ↦ cc (rw (q, emit_all) at h)
  | inr (c, q) ↦ (c, q, rw (q, emit_all) at h)
]

read_word-append :
    (xs : Bytes) (op x : ℕ) (ys : Bytes)
    → read_word ((xs ++ op ∷ word_bytes x) ++ ys) (length xs + 1) ≡ x % 2 ^ 32
read_word-append xs op x ys =
    let n = length xs in
    let long : length (xs ++ op ∷ word_bytes x) ≡ n + 5 =
      omega (arith, length-append xs (op ∷ word_bytes x)) in
    let at = λ (k : ℕ) (h : k < 4).
      get_or-append_left (xs ++ op ∷ word_bytes x) ys (n + 1 + k) 0 (omega arith)
      ∙ get_or-append_right xs (op ∷ word_bytes x) (n + 1 + k) (suc k) 0 (omega arith) in
    let b0 =
      get_or-append_left (xs ++ op ∷ word_bytes x) ys (n + 1) 0 (omega arith)
      ∙ get_or-append_right xs (op ∷ word_bytes x) (n + 1) 1 0 (omega arith) in
    let b1 = at 1 (omega arith) in
    let b2 = at 2 (omega arith) in let b3 = at 3 (omega arith) in omega (arith, b0, b1, b2, b3)

-- A word outside every window is the buffer's.
read_word-Linked :
    (a : Assembler) {calls objects : List (ℕ × ℕ)} {r : Bytes} (w : ℕ)
    → Linked a calls objects r
    → All (Apart w) (addresses a)
    → read_word r w ≡ read_word a.bytes w
read_word-Linked a w t o =
    let out =
      λ (k : ℕ) (h : k < 4). All-map_of _ (Outside (w + k)) (addresses a) (λ p q. omega arith) o in
    let out0 = All-map_of _ (Outside w) (addresses a) (λ p q. omega arith) o in
    rw (
      t.untouched w out0,
      t.untouched (w + 1) (out 1 (omega arith)),
      t.untouched (w + 2) (out 2 (omega arith)),
      t.untouched (w + 3) (out 3 (omega arith)),
    )

jump_to-known :
    (op : Op) (l : String) (a : Assembler) {loc : ℕ}
    → find_label l a.label_to_location ≡ some loc
    → jump_to op l a ≡ push_op_and_args a op (loc ∷ [])
unfolding jump_to get_location_for_label
jump_to-known op l a e = rw (e, get_location_for_label)

jump_to-unknown :
    (op : Op) (l : String) (a : Assembler)
    → find_label l a.label_to_location ≡ none
    → jump_to op l a
      ≡ push_op_and_args
          (record a { patch_locations = put_patch ((offset a + 1) % 2 ^ 32) l a.patch_locations })
          op
          (0 ∷ [])
unfolding jump_to get_location_for_label
jump_to-unknown op l a e = rw (e, get_location_for_label)

module _ (a b : Assembler) (op : Op) (l : String) (post : List Emit) (calls objects : List (ℕ × ℕ))
    (r : Bytes) (laid : IsLaidOut a) (run : emit_all post (jump_to op l a) ≡ some b)
    (small : offset b < 2 ^ 32) (linked : Linked b calls objects r) where
  -- The label was defined above: the jump carries its location from the start.
  known_lands :
      (loc : ℕ)
      → find_label l a.label_to_location ≡ some loc
      → (find_label l b.label_to_location ≡ some loc) × (read_word r (offset a + 1) ≡ loc % 2 ^ 32)
  known_lands loc e =
      let c = push_op_and_args a op (loc ∷ []) in
      let run' : emit_all post c ≡ some b = rw (jump_to-known op l a e) at run in
      let ext = emit_all-Extends post c run' in
      let start : Laid (offset c) ((offset a + 1) ∷ addresses c) = record {
        fits = (
          omega (arith, length-append a.bytes (op_code op ∷ word_bytes loc)),
          All-map_of _ _ (addresses a)
              (λ p h. omega (arith, length-append a.bytes (op_code op ∷ word_bytes loc))) laid.fits,
        );
        spread = (All-map_of _ _ (addresses a) (λ p h. inr (omega arith)) laid.fits, laid.spread);
      } in
      let done = emit_all-Laid ((offset a + 1) ∷ []) post c run' small start in
      (
        ext.labels l loc e,
        read_word-Linked b (offset a + 1) linked done.spread.0
            ∙ ap (λ bs. read_word bs (offset a + 1)) ext.bytes_eq
            ∙ read_word-append a.bytes (op_code op) loc ext.tail,
      )

  -- The label is defined below: the jump is patched.
  unknown_lands :
      find_label l a.label_to_location ≡ none
      → (v : ℕ) × (find_label l b.label_to_location ≡ some v)
        × (read_word r (offset a + 1) ≡ v % 2 ^ 32)
  unknown_lands e =
      let c =
        push_op_and_args
          (record a { patch_locations = put_patch (offset a + 1) l a.patch_locations }) op
          (0 ∷ []) in
      let longer = offset-le (emit_all-Extends post (jump_to op l a) run) in
      let address : (offset a + 1) % 2 ^ 32 ≡ offset a + 1 = omega (arith, offset-jump_to op l a) in
      let run' : emit_all post c ≡ some b = rw address at (rw (jump_to-unknown op l a e) at run) in
      let waits =
        emit_all-Waits (offset a + 1) l post c run' small
          (omega (arith, length-append a.bytes (op_code op ∷ word_bytes 0)))
          (Waits-put_patch_self (offset a + 1) l a.patch_locations) in
      Waits-Reads (offset a + 1) l _ r b.patch_locations waits linked.jump_words

  lands :
      (v : ℕ) × (find_label l b.label_to_location ≡ some v)
      × (read_word r (offset a + 1) ≡ v % 2 ^ 32)
  lands = elim (Option-cases (find_label l a.label_to_location)) [
    | inl e ↦ unknown_lands e
    | inr (loc, e) ↦ let (x, y) = known_lands loc e in (loc, x, y)
  ]

find-define_label :
    (l : String) (a : Assembler) {b : Assembler}
    → define_label l a ≡ some b
    → find_label l b.label_to_location ≡ some (offset a % 2 ^ 32)
unfolding define_label
find-define_label l a {b} h = elim (Option-cases (find_label l a.label_to_location)) [
  | inl e ↦
      let known = (l, offset a % 2 ^ 32) ∷ a.label_to_location in
      let same : record a { label_to_location = known } ≡ b = cc (rw (e, define_label) at h) in
      let here : find_label l known ≡ some (offset a % 2 ^ 32) = rw (eq_refl l) in rw (← same) here
  | inr (v, e) ↦ cc (rw (e, define_label) at h)
]

-- If two chains of calls from the empty buffer end in buffer `b`, where one has a jump to label `l`
-- and the other defines `l`, before or after the jump, and `Build` returns code for `b`, then the
-- argument of the jump in the code is the offset at which `l` was defined. The buffer has less than
-- 2^32 bytes.
pub jump-label :
    (pre post above below : List Emit) (e : Emit) (op : Op) (l : String) (a b c : Assembler)
    (calls objects : List (ℕ × ℕ)) (r : Bytes) (m : ℕ)
    → IsJump e op l
    → emit_all pre empty ≡ some a
    → emit_all (e ∷ post) a ≡ some b
    → emit_all above empty ≡ some c
    → emit_all (label l ∷ below) c ≡ some b
    → build b calls objects ≡ some (r, m)
    → offset b < 2 ^ 32
    → read_word r (offset a + 1) ≡ offset c
unfolding emit
jump-label pre post above below e op l a b c calls objects r m j h₁ h₂ h₃ h₄ h₅ small =
    let (a', q₁, run) = emit_all-inv e post a h₂ in
    let (c', q₂, rest) = emit_all-inv (label l) below c h₄ in
    let same : a' ≡ jump_to op l a = cc (q₁, emit-IsJump a j) in
    let run' = rw same at run in
    let longer = offset-le (emit_all-Extends post (jump_to op l a) run') in
    let before : offset a < 2 ^ 32 = omega (arith, offset-jump_to op l a) in
    let laid = emit_all-IsLaidOut pre h₁ before in
    let built =
      build-Linked b calls objects
        (emit_all-Laid [] post (jump_to op l a) run' small
          (emit-Laid [] e a (emit-IsJump a j) (omega arith) laid))
        h₅ in
    let (v, known, word) = lands a b op l post calls objects r laid run' small built.0 in
    let above_b = offset-le (emit_all-Extends (label l ∷ below) c h₄) in
    let here = (emit_all-Extends below c' rest).labels l _ (find-define_label l c q₂) in
    let value : v ≡ offset c % 2 ^ 32 = cc (known, here) in omega arith

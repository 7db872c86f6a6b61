-- ===== src/Parser/Synchronize.antt =====
-- `SynchronizeOnError` ends, and what its result says.
use nib_lang.Base.{
  ℕ, zero, suc, ◌+◌, ◌≤◌, Bool, true, false, Option, some, ◌≡◌, refl, ◌⊎◌, inl, inr, arith,
  Bool-cases,
}
use nib_lang.Tokenizer.Kinds.{TokenKind, end_of_file}
use nib_lang.Parser.{
  Parser, is_start_of_statement, is_end_of_file, synchronize_loop, synchronize_on_error,
}
use nib_lang.Parser.Advance.{left, Advanced, advance_token-Advanced}

-- Where the search for a target may stop with the result `b`.
abbrev pub Found : (TokenKind → Bool) → Bool → Parser → Type 0
Found is_target true q = is_target q.current_token.kind ≡ true
Found is_target false q =
    (q.current_token.kind ≡ end_of_file) ⊎ (is_start_of_statement q.current_token.kind ≡ true)

Enough : ℕ → Parser → Type 0
Enough f p = (left p + 2 ≤ f) ⊎ ((p.current_token.kind ≡ end_of_file) × (1 ≤ f))

is_end_of_file-eq : (k : TokenKind) → is_end_of_file k ≡ true → k ≡ end_of_file
unfolding is_end_of_file
is_end_of_file-eq end_of_file h = refl
is_end_of_file-eq k h = cc

not_end : {k : TokenKind} → k ≡ end_of_file → is_end_of_file k ≡ false → ⊥
unfolding is_end_of_file
not_end e h = cc

Enough-advance :
    (f : ℕ) (p q : Parser)
    → is_end_of_file p.current_token.kind ≡ false
    → Enough (suc f) p
    → Advanced p q
    → Enough f q
unfolding Enough is_end_of_file
Enough-advance f p q k (inr (e, h)) a = absurd (not_end e k)
Enough-advance f p q k (inl h) a = elim a.nearer [
  | inl n ↦ inl (omega arith)
  | inr e ↦ inr (e, omega arith)
]

-- The loop of `SynchronizeOnError` ends with a result that its token justifies.
abbrev pub Ends : (TokenKind → Bool) → Parser → Option (Bool × Parser) → Type 0
Ends is_target p r =
    (b : Bool) × (q : Parser) × (r ≡ some (b, q)) × Found is_target b q × (left q ≤ left p)

synchronize_loop-Ends :
    (is_target : TokenKind → Bool) (f : ℕ) (p : Parser)
    → Enough f p
    → Ends is_target p (synchronize_loop is_target f p)
unfolding Enough synchronize_loop
synchronize_loop-Ends is_target zero p (inl h) = absurd (omega arith)
synchronize_loop-Ends is_target zero p (inr (e, h)) = absurd (omega arith)
synchronize_loop-Ends is_target (suc f) p h =
    elim (Bool-cases (is_end_of_file p.current_token.kind)) [
      | inl e ↦ (false, p, rw (e, synchronize_loop) refl, inl (is_end_of_file-eq _ e), omega arith)
      | inr e ↦ elim (Bool-cases (is_target p.current_token.kind)) [
        | inl t ↦ (true, p, rw (e, t, synchronize_loop) refl, t, omega arith)
        | inr t ↦ elim (Bool-cases (is_start_of_statement p.current_token.kind)) [
          | inl s ↦ (false, p, rw (e, t, s, synchronize_loop) refl, inr s, omega arith)
          | inr s ↦
              let (q, eq, a) = advance_token-Advanced p in
              let le = a.shorter in
              let (b, r, found, why, shorter) =
                synchronize_loop-Ends is_target f q (Enough-advance f p q e h a) in
              (b, r, rw (e, t, s, eq, synchronize_loop) found, why, omega arith)
        ]
      ]
    ]

-- `SynchronizeOnError` ends on every source. It answers true only at a token that the caller looks
-- for, false only at the end of the file or at the start of a statement, and never goes back.
pub synchronize_on_error-Ends :
    (is_target : TokenKind → Bool) (p : Parser)
    → Ends is_target p (synchronize_on_error is_target p)
unfolding Enough synchronize_on_error
synchronize_on_error-Ends is_target p = elim (Bool-cases (is_target p.current_token.kind)) [
  | inl t ↦ (true, p, rw (t, synchronize_on_error) refl, t, omega arith)
  | inr t ↦
      let (q, eq, a) = advance_token-Advanced p in
      let le = a.shorter in
      let (b, r, found, why, shorter) =
        synchronize_loop-Ends is_target (left q + 2) q (inl (omega arith)) in
      (b, r, rw (t, eq, synchronize_on_error) found, why, omega arith)
]

-- ===== src/Parser/Advance.antt =====
-- `AdvanceToken` ends, on a token that is neither an error, nor unknown, nor a comment.
use mathlib.Core.List.{append_assoc, append-nil}
use nib_lang.Base.{
  ℕ, zero, suc, ◌+◌, ◌≤◌, ◌<◌, List, [], ◌∷◌, ◌++◌, some, ◌≡◌, ◌≢◌, refl, ap, sym, ◌∙◌, ◌⊎◌, inl,
  inr, arith, length, Bytes, length-append,
}
use nib_lang.Tokenizer.Kinds.{end_of_file}
use nib_lang.Tokenizer.Scan.{next}
use nib_lang.Tokenizer.Lines.{Splits, next-Splits}
use nib_lang.Tokenizer.{Metadata}
use nib_lang.Parser.{
  Parser, Handling, report_value, report_unknown, skip, keep, handling, fetch, unknown_text,
  advance_loop, advance_token,
}

abbrev pub left : Parser → ℕ
left p = length p.tokenizer.rest

-- The parser is at the end of the file, or nearer to it than with `n` bytes left.
abbrev pub Nearer : ℕ → Parser → Type 0
Nearer n p = (left p < n) ⊎ (p.current_token.kind ≡ end_of_file)

pub fetch-Nearer : (p : Parser) → Nearer (left p) (fetch p)
unfolding fetch
fetch-Nearer p = go (next-Splits p.tokenizer)
  where
    go : Splits p.tokenizer (next p.tokenizer).0 (next p.tokenizer).1 → Nearer (left p) (fetch p)
    go s = elim s.progress [
      | inl h ↦ inl (
          omega (
            arith,
            ap length s.split,
            length-append s.blank (s.text ++ (next p.tokenizer).1.rest),
            length-append s.text (next p.tokenizer).1.rest,
          ))
      | inr (e, _, _) ↦ inr e
    ]

-- What `AdvanceToken` may stop at.
abbrev pub IsUsable : Parser → Type 0
IsUsable p = handling p.current_token.kind ≡ keep

-- `AdvanceToken` stops at `q`, having reported as errors what it reports.
pub record Stops (p q : Parser) : Type 0 where
  pub usable : IsUsable q
  pub shorter : left q ≤ left p
  pub nearer : {n : ℕ} → Nearer n p → Nearer n q
  pub reported : List (Bytes × Metadata)
  pub errors_eq : q.errors ≡ p.errors ++ reported

-- Rounds enough for the loop.
abbrev Enough : ℕ → Parser → Type 0
Enough f p = (left p + 2 ≤ f) ⊎ ((p.current_token.kind ≡ end_of_file) × (1 ≤ f))

Handling-cases :
    (h : Handling) → (h ≡ report_value) ⊎ (h ≡ report_unknown) ⊎ (h ≡ skip) ⊎ (h ≡ keep)
Handling-cases report_value = inl refl
Handling-cases report_unknown = inr (inl refl)
Handling-cases skip = inr (inr (inl refl))
Handling-cases keep = inr (inr (inr refl))

at_end : (p : Parser) → p.current_token.kind ≡ end_of_file → handling p.current_token.kind ≡ keep
unfolding handling
at_end p e = rw e

-- A token that is not kept is not the end of the file, so a round brings the parser nearer.
Enough-fetch :
    (f : ℕ) (p : Parser) (es : List (Bytes × Metadata))
    → handling p.current_token.kind ≢ keep
    → Enough (suc f) p
    → Enough f (fetch (record p { errors = es }))
Enough-fetch f p es k (inr (e, h)) = absurd (k (at_end p e))
Enough-fetch f p es k (inl h) = elim (fetch-Nearer (record p { errors = es })) [
  | inl n ↦ inl (omega arith)
  | inr e ↦ inr (e, omega arith)
]

fetch-left : (p : Parser) → left (fetch p) ≤ left p
unfolding fetch
fetch-left p = go (next-Splits p.tokenizer)
  where
    go : Splits p.tokenizer (next p.tokenizer).0 (next p.tokenizer).1 → left (fetch p) ≤ left p
    go s = omega (
      arith,
      ap length s.split,
      length-append s.blank (s.text ++ (next p.tokenizer).1.rest),
      length-append s.text (next p.tokenizer).1.rest,
    )

fetched-Nearer :
    (p : Parser) (es : List (Bytes × Metadata)) {n : ℕ}
    → handling p.current_token.kind ≢ keep
    → Nearer n p
    → Nearer n (fetch (record p { errors = es }))
fetched-Nearer p es k (inr e) = absurd (k (at_end p e))
fetched-Nearer p es k (inl h) = let le = fetch-left (record p { errors = es }) in inl (omega arith)

fetched-Stops :
    (p q : Parser) (es : List (Bytes × Metadata))
    → handling p.current_token.kind ≢ keep
    → Stops (fetch (record p { errors = p.errors ++ es })) q
    → Stops p q
unfolding fetch
fetched-Stops p q es k s =
    let near = fetch-left (record p { errors = p.errors ++ es }) in
    record {
      usable = s.usable;
      shorter = omega arith;
      nearer = λ h. s.nearer (fetched-Nearer p (p.errors ++ es) k h);
      reported = es ++ s.reported;
      errors_eq = s.errors_eq ∙ append_assoc p.errors es s.reported;
    }

skipped-Stops :
    (p q : Parser) → handling p.current_token.kind ≢ keep → Stops (fetch p) q → Stops p q
unfolding fetch
skipped-Stops p q k s =
    let near = fetch-left p in
    record {
      usable = s.usable;
      shorter = omega arith;
      nearer = λ h. s.nearer (fetched-Nearer p p.errors k h);
      reported = s.reported;
      errors_eq = s.errors_eq;
    }

advance_loop-Stops :
    (f : ℕ) (p : Parser) → Enough f p → (q : Parser) × (advance_loop f p ≡ some q) × Stops p q
unfolding advance_loop
advance_loop-Stops zero p (inl h) = absurd (omega arith)
advance_loop-Stops zero p (inr (e, h)) = absurd (omega arith)
advance_loop-Stops (suc f) p h = elim (Handling-cases (handling p.current_token.kind)) [
  | inl e ↦
      let k : handling p.current_token.kind ≢ keep = λ c. cc in
      let es = (p.current_token.value, p.current_token.meta) ∷ [] in
      let (q, eq, s) = advance_loop-Stops f _ (Enough-fetch f p (p.errors ++ es) k h) in
      (q, rw (e, advance_loop) eq, fetched-Stops p q es k s)
  | inr (inl e) ↦
      let k : handling p.current_token.kind ≢ keep = λ c. cc in
      let es = (unknown_text p.current_token.value, p.current_token.meta) ∷ [] in
      let (q, eq, s) = advance_loop-Stops f _ (Enough-fetch f p (p.errors ++ es) k h) in
      (q, rw (e, advance_loop) eq, fetched-Stops p q es k s)
  | inr (inr (inl e)) ↦
      let k : handling p.current_token.kind ≢ keep = λ c. cc in
      let (q, eq, s) = advance_loop-Stops f (fetch p) (Enough-fetch f p p.errors k h) in
      (q, rw (e, advance_loop) eq, skipped-Stops p q k s)
  | inr (inr (inr e)) ↦ (
    p,
    rw (e, advance_loop) refl,
    record {
      usable = e;
      shorter = omega arith;
      nearer = λ n. n;
      reported = [];
      errors_eq = sym (append-nil p.errors);
    },
  )
]

-- What a call of `AdvanceToken` from `p` leaves.
pub record Advanced (p q : Parser) : Type 0 where
  pub usable : IsUsable q
  pub shorter : left q ≤ left p
  pub nearer : Nearer (left p) q
  pub reported : List (Bytes × Metadata)
  pub errors_eq : q.errors ≡ p.errors ++ reported

fetched-Advanced : (p q : Parser) → Stops (fetch p) q → Advanced p q
unfolding fetch
fetched-Advanced p q s =
    let le = fetch-left p in
    record {
      usable = s.usable;
      shorter = omega arith;
      nearer = s.nearer (fetch-Nearer p);
      reported = s.reported;
      errors_eq = s.errors_eq;
    }

-- `AdvanceToken` ends on every source: it stops at a token that is no error, no unknown token and
-- no comment, which is the end of the file or leaves fewer bytes than before, and it only adds
-- messages behind those there were.
pub advance_token-Advanced : (p : Parser) → (q : Parser) × (advance_token p ≡ some q) × Advanced p q
unfolding advance_token
advance_token-Advanced p =
    let le = fetch-left p in
    let (q, e, s) = advance_loop-Stops (left p + 2) (fetch p) (inl (omega arith)) in
    (q, e, fetched-Advanced p q s)

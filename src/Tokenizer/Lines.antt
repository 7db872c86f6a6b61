-- ===== src/Tokenizer/Lines.antt =====
-- One call of `Tokenizer::next` as a split of the source: white space, the token's text, the rest;
-- with the offsets and the line counter that go with it.
use nib_lang.Base.{
  ℕ, ◌+◌, ◌≤◌, true, false, [], ◌∷◌, ◌++◌, ◌≡◌, refl, ap, sym, ◌∙◌, ◌⊎◌, inl, inr, arith, ◌==◌,
  if◌then◌else◌, length, take, All, Bytes, take-append-drop, length-take, Bool-cases,
}
use nib_lang.Tokenizer.Chars.{is_space}
use nib_lang.Tokenizer.Kinds.{end_of_file}
use nib_lang.Tokenizer.Scan.{skip_spaces, read_lexeme, next_at, next}
use nib_lang.Tokenizer.Spans.{read_lexeme-Fits}
use nib_lang.Tokenizer.{Token, Tokenizer}

abbrev pub newlines : Bytes → ℕ
newlines [] = 0
newlines (c ∷ cs) = (if c == b'\n' then 1 else 0) + newlines cs

pub newlines-append : (xs ys : Bytes) → newlines (xs ++ ys) ≡ newlines xs + newlines ys
newlines-append [] ys = omega arith
newlines-append (x ∷ xs) ys = omega (arith, newlines-append xs ys)

-- The first byte, if there is one, is no white space.
abbrev pub StartsDark : Bytes → Type 0
StartsDark [] = Unit
StartsDark (c ∷ cs) = is_space c ≡ false

-- What the loop over white space did.
record Skips (cs : Bytes) (offset line : ℕ) (r : Bytes × ℕ × ℕ) : Type 0 where
  blank : Bytes
  split : cs ≡ blank ++ r.0
  white : All (λ c. is_space c ≡ true) blank
  dark : StartsDark r.0
  moved : r.1 ≡ offset + length blank
  counted : r.2 ≡ line + newlines blank

skip_spaces-Skips : (cs : Bytes) (o l : ℕ) → Skips cs o l (skip_spaces cs o l)
unfolding skip_spaces
skip_spaces-Skips [] o l = record {
  blank = [];
  split = refl;
  white = tt;
  dark = tt;
  moved = omega arith;
  counted = omega arith;
}
skip_spaces-Skips (c ∷ cs) o l = elim (Bool-cases (is_space c)) [
  | inr e ↦
      rw (e, skip_spaces)
        (record {
          blank = [];
          split = refl;
          white = tt;
          dark = e;
          moved = omega arith;
          counted = omega arith;
        })
  | inl e ↦
      let line = if c == b'\n' then l + 1 else l in
      let t = skip_spaces-Skips cs (o + 1) line in
      let counts : line ≡ l + (if c == b'\n' then 1 else 0) = ground arith in
      rw (e, skip_spaces)
        (record {
          blank = c ∷ t.blank;
          split = ap (◌∷◌ c) t.split;
          white = (e, t.white);
          dark = t.dark;
          moved = omega (arith, t.moved);
          counted = omega (arith, t.counted);
        })
]

-- Call `next` of `t` returned token `k` and left state `u`.
pub record Splits (t : Tokenizer) (k : Token) (u : Tokenizer) : Type 0 where
  pub blank : Bytes
  pub text : Bytes
  pub split : t.rest ≡ blank ++ (text ++ u.rest)
  pub white : All (λ c. is_space c ≡ true) blank
  pub dark : StartsDark (text ++ u.rest)
  pub starts : k.meta.column_range.start ≡ t.offset + length blank
  pub ends : k.meta.column_range.end ≡ k.meta.column_range.start + length text
  pub moved : u.offset ≡ k.meta.column_range.end
  pub on_line : k.meta.line_range.start ≡ t.line + newlines blank
  pub counted : u.line ≡ t.line + newlines blank
  pub same_file : (k.meta.file_id ≡ t.file_id) × (u.file_id ≡ t.file_id)
  pub progress : (1 ≤ length text) ⊎ ((k.kind ≡ end_of_file) × (text ≡ []) × (u.rest ≡ []))

length-take_size : (n : ℕ) (cs : Bytes) → n ≤ length cs → length (take n cs) ≡ n
length-take_size n cs h = omega (arith, length-take n cs)

next_at-Splits :
    (t : Tokenizer) (r : Bytes × ℕ × ℕ)
    → Skips t.rest t.offset t.line r
    → Splits t (next_at t.file_id r).0 (next_at t.file_id r).1
unfolding next_at
next_at-Splits t ([], start, line) s = record {
  blank = s.blank;
  text = [];
  split = s.split;
  white = s.white;
  dark = s.dark;
  starts = s.moved;
  ends = omega arith;
  moved = refl;
  on_line = s.counted;
  counted = s.counted;
  same_file = (refl, refl);
  progress = inr (refl, refl, refl);
}
next_at-Splits t (c ∷ cs, start, line) s =
    let x = read_lexeme c cs in
    let fits = read_lexeme-Fits c cs in
    let size = length-take_size x.size (c ∷ cs) fits.1 in
    let whole = take-append-drop x.size (c ∷ cs) in
    record {
      blank = s.blank;
      text = take x.size (c ∷ cs);
      split = s.split ∙ ap (λ (r : Bytes). s.blank ++ r) (sym whole);
      white = s.white;
      dark = rw whole s.dark;
      starts = s.moved;
      ends = omega arith;
      moved = refl;
      on_line = s.counted;
      counted = s.counted;
      same_file = (refl, refl);
      progress = inl (omega arith);
    }

-- Every call of `next` splits what is left of the source into white space, the token's text and the
-- rest, and the text starts with no white space; the token's column range is the place of the text,
-- its line is the counter moved by the line feeds in the white space, and the offset moves to the
-- end of the text. A token that is not the end of the file has at least one byte; the end of the
-- file is returned only where nothing is left.
pub next-Splits : (t : Tokenizer) → Splits t (next t).0 (next t).1
unfolding next
next-Splits t =
    next_at-Splits t (skip_spaces t.rest t.offset t.line) (skip_spaces-Skips t.rest t.offset t.line)

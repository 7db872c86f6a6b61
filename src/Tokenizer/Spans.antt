-- ===== src/Tokenizer/Spans.antt =====
-- What one call of `Tokenizer::next` reads, and the span of its token.
use nib_lang.Base.{
  ℕ, suc, ◌+◌, ◌≤◌, Bool, true, false, ◌&&◌, [], ◌∷◌, none, some, ◌≡◌, refl, ap, inl, inr, arith,
  ◌==◌, length, take, drop, Bytes, codes, eq_text, count_while, length-take, Bool-cases,
  Option-cases, eq_text→eq,
}
use nib_lang.Tokenizer.Chars.{is_digit, is_xdigit, is_number}
use nib_lang.Tokenizer.Kinds.{
  TokenKind, number, string, template_string, char, comment, get_single_char_token,
  get_double_char_token,
}
use nib_lang.Tokenizer.Scan.{
  Lexeme, read_ident, Literal, closed, unterminated, unterminated_escape, further, scan_literal,
  make_string_token, read_symbol, read_lexeme, second_byte, lexeme, is_binary, not_newline,
  is_ident_part, is_ident_start, read_operator,
}

-- At least one byte is read, and none behind the end.
abbrev pub Fits : Lexeme → Bytes → Type 0
Fits x cs = (1 ≤ x.size) × (x.size ≤ suc (length cs))

pub count_while-le : (p : ℕ → Bool) (cs : Bytes) → count_while p cs ≤ length cs
unfolding count_while
count_while-le p [] = omega arith
count_while-le p (c ∷ cs) = ground (arith, count_while-le p cs)

abbrev reach : Literal → ℕ
reach (closed n) = n
reach (unterminated n) = n
reach (unterminated_escape n) = n

further-reach : (k : ℕ) (l : Literal) → reach (further k l) ≡ k + reach l
further-reach k (closed n) = refl
further-reach k (unterminated n) = refl
further-reach k (unterminated_escape n) = refl

scan_literal-le : (q : ℕ) (cs : Bytes) → reach (scan_literal q cs) ≤ length cs
unfolding scan_literal
scan_literal-le q [] = omega arith
scan_literal-le q (c ∷ []) = ground arith
scan_literal-le q (c ∷ d ∷ ds) = elim (Bool-cases (c == b'\n')) [
  | inl e ↦ rw (e, scan_literal) (omega arith)
  | inr e ↦ elim (Bool-cases (c == b'\\')) [
    | inl b ↦
        rw (e, b, scan_literal)
          (omega (arith, further-reach 2 (scan_literal q ds), scan_literal-le q ds))
    | inr b ↦ elim (Bool-cases (c == q)) [
      | inl k ↦ rw (e, b, k, scan_literal) (omega arith)
      | inr k ↦
          rw (e, b, k, scan_literal)
            (omega (arith, further-reach 1 (scan_literal q (d ∷ ds)), scan_literal-le q (d ∷ ds)))
    ]
  ]
]

make_string_token-Fits :
    (kind : TokenKind) (l : Literal) (cs : Bytes)
    → reach l ≤ length cs
    → Fits (make_string_token kind l cs) cs
unfolding make_string_token
make_string_token-Fits kind (closed n) cs h = omega arith
make_string_token-Fits kind (unterminated n) cs h = omega arith
make_string_token-Fits kind (unterminated_escape n) cs h = omega arith

and-false : (b : Bool) → (b && false) ≡ false
and-false true = refl
and-false false = refl

double-zero : (c : ℕ) → get_double_char_token c 0 ≡ none
unfolding get_double_char_token
double-zero c = simp and-false

second-ne :
    (c : ℕ) (cs : Bytes) {k : TokenKind}
    → get_double_char_token c (second_byte cs) ≡ some k
    → 1 ≤ length cs
second-ne c [] h = cc (double-zero c)
second-ne c (d ∷ cs) h = omega arith

take_text-le :
    (n c : ℕ) (cs text : Bytes)
    → length text ≡ n
    → eq_text (take n (c ∷ cs)) text ≡ true
    → n ≤ suc (length cs)
take_text-le n c cs text h e = omega (arith, ap length (eq_text→eq _ _ e), length-take n (c ∷ cs))

drop_one-le : (cs : Bytes) → 1 ≤ length cs → suc (length (drop 1 cs)) ≡ length cs
drop_one-le [] h = absurd (omega arith)
drop_one-le (c ∷ cs) h = refl

-- A two-byte head, then a run of bytes.
prefixed-Fits :
    (kind : TokenKind) (p : ℕ → Bool) (cs : Bytes)
    → 1 ≤ length cs
    → Fits (lexeme kind (2 + count_while p (drop 1 cs))) cs
prefixed-Fits kind p cs h =
    let le = count_while-le p (drop 1 cs) in
    let len = drop_one-le cs h in (omega arith, omega arith)

read_operator-Fits : (c : ℕ) (cs : Bytes) → Fits (read_operator c cs) cs
unfolding read_operator
read_operator-Fits c cs = elim (Option-cases (get_double_char_token c (second_byte cs))) [
  | inr (k, e) ↦ let le = second-ne c cs e in rw (e, read_operator) (omega arith, omega arith)
  | inl e ↦ elim (Option-cases (get_single_char_token c)) [
    | inr (k, f) ↦ rw (e, f, read_operator) (omega arith, omega arith)
    | inl f ↦ rw (e, f, read_operator) (omega arith, omega arith)
  ]
]

read_symbol-Fits : (c : ℕ) (cs : Bytes) → Fits (read_symbol c cs) cs
unfolding read_symbol
read_symbol-Fits c cs = elim (Bool-cases (eq_text (take 3 (c ∷ cs)) (codes "..."))) [
  | inl e ↦
      let le = take_text-le 3 c cs (codes "...") refl e in
      rw (e, read_symbol) (omega arith, omega arith)
  | inr e ↦ elim (Bool-cases (eq_text (take 2 (c ∷ cs)) (codes "//"))) [
    | inl f ↦
        let le = take_text-le 2 c cs (codes "//") refl f in
        rw (e, f, read_symbol) (prefixed-Fits comment not_newline cs (omega arith))
    | inr f ↦ rw (e, f, read_symbol) (read_operator-Fits c cs)
  ]
]

digit-number : (c : ℕ) → is_digit c ≡ true → is_number c ≡ true
unfolding is_number
digit-number c h = rw h

digits-Fits :
    (c : ℕ) (cs : Bytes)
    → is_digit c ≡ true
    → Fits (lexeme number (count_while is_number (c ∷ cs))) cs
unfolding count_while
digits-Fits c cs h =
    let le = count_while-le is_number cs in
    let num = digit-number c h in rw (num, count_while) (omega arith, omega arith)

literal-Fits :
    (kind : TokenKind) (q : ℕ) (cs : Bytes)
    → Fits (make_string_token kind (scan_literal q cs) cs) cs
literal-Fits kind q cs = make_string_token-Fits kind (scan_literal q cs) cs (scan_literal-le q cs)

-- Every branch of `next` reads at least one byte and stays inside the source.
pub read_lexeme-Fits : (c : ℕ) (cs : Bytes) → Fits (read_lexeme c cs) cs
unfolding read_lexeme read_ident
read_lexeme-Fits c cs = elim (Bool-cases (is_ident_start c)) [
  | inl e ↦
      let le = count_while-le is_ident_part cs in rw (e, read_lexeme) (omega arith, omega arith)
  | inr e₁ ↦ elim (Bool-cases (eq_text (take 2 (c ∷ cs)) (codes "0x"))) [
    | inl e ↦
        let le = take_text-le 2 c cs (codes "0x") refl e in
        rw (e₁, e, read_lexeme) (prefixed-Fits number is_xdigit cs (omega arith))
    | inr e₂ ↦ elim (Bool-cases (eq_text (take 2 (c ∷ cs)) (codes "0b"))) [
      | inl e ↦
          let le = take_text-le 2 c cs (codes "0b") refl e in
          rw (e₁, e₂, e, read_lexeme) (prefixed-Fits number is_binary cs (omega arith))
      | inr e₃ ↦ elim (Bool-cases (is_digit c)) [
        | inl e ↦ rw (e₁, e₂, e₃, e, read_lexeme) (digits-Fits c cs e)
        | inr e₄ ↦ elim (Bool-cases (c == b'"')) [
          | inl e ↦ rw (e₁, e₂, e₃, e₄, e, read_lexeme) (literal-Fits string b'"' cs)
          | inr e₅ ↦ elim (Bool-cases (c == b'`')) [
            | inl e ↦ rw (e₁, e₂, e₃, e₄, e₅, e, read_lexeme) (literal-Fits template_string b'`' cs)
            | inr e₆ ↦ elim (Bool-cases (c == b'\'')) [
              | inl e ↦ rw (e₁, e₂, e₃, e₄, e₅, e₆, e, read_lexeme) (literal-Fits char b'\'' cs)
              | inr e₇ ↦ rw (e₁, e₂, e₃, e₄, e₅, e₆, e₇, read_lexeme) (read_symbol-Fits c cs)
            ]
          ]
        ]
      ]
    ]
  ]
]

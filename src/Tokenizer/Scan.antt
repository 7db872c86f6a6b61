-- ===== src/Tokenizer/Scan.antt =====
-- `Tokenizer::next`.
use nib_lang.Base.{
  ℕ, suc, ◌+◌, ◌-◌, Bool, true, false, ◌||◌, List, [], ◌∷◌, Option, none, some, ◌==◌, if◌then◌else◌,
  take, drop, Bytes, codes, eq_text, count_while,
}
use nib_lang.Tokenizer.Chars.{is_space, is_digit, is_alpha, is_alnum, is_xdigit, is_number}
use nib_lang.Tokenizer.Kinds.{
  TokenKind, unknown, ident, number, string, template_string, char, variadic, comment, token_error,
  end_of_file, keyword_to_token, get_single_char_token, get_double_char_token,
}
use nib_lang.Tokenizer.{Token, Tokenizer}

-- The loop over white space; `\n` counts a line.
unfoldable pub skip_spaces : Bytes → ℕ → ℕ → Bytes × ℕ × ℕ
skip_spaces [] offset line = ([], offset, line)
skip_spaces (c ∷ cs) offset line = elim (is_space c) [
  | true ↦ skip_spaces cs (offset + 1) (if c == b'\n' then line + 1 else line)
  | false ↦ (c ∷ cs, offset, line)
]

-- What is read at a position: the kind, the number of bytes, and the value where it is not the
-- text itself.
pub record Lexeme : Type 0 where
  pub kind : TokenKind
  pub size : ℕ
  pub value : Option Bytes

-- The loop over the keyword table.
unfoldable pub find_keyword : Bytes → List (Bytes × TokenKind) → TokenKind
find_keyword text [] = ident
find_keyword text ((keyword, kind) ∷ table) =
    if eq_text text keyword then kind else find_keyword text table

unfoldable pub is_ident_start : ℕ → Bool
unfolding is_alpha
is_ident_start c = c == b'$' || c == b'@' || c == b'_' || is_alpha c

unfoldable pub is_ident_part : ℕ → Bool
unfolding is_alnum
is_ident_part c = is_alnum c || c == b'_'

unfoldable pub read_ident : ℕ → Bytes → Lexeme
read_ident c cs =
    let n = count_while is_ident_part cs in
    record { kind = find_keyword (c ∷ take n cs) keyword_to_token; size = suc n; value = none }

-- How the loop over a literal ends, with the number of bytes read behind the opening quote.
pub data Literal : Type 0 where
  closed unterminated unterminated_escape : ℕ → Literal

abbrev pub further : ℕ → Literal → Literal
further k (closed n) = closed (k + n)
further k (unterminated n) = unterminated (k + n)
further k (unterminated_escape n) = unterminated_escape (k + n)

unfoldable pub scan_literal : ℕ → Bytes → Literal
scan_literal quote [] = unterminated 0
scan_literal quote (c ∷ []) =
    if c == b'\n'
    then unterminated 1
    else if c == b'\\'
    then unterminated_escape 1
    else if c == quote
    then closed 1
    else unterminated 1
scan_literal quote (c ∷ d ∷ ds) = elim (c == b'\n') [
  | true ↦ unterminated 1
  | false ↦ elim (c == b'\\') [
    | true ↦ further 2 (scan_literal quote ds)
    | false ↦ elim (c == quote) [
      | true ↦ closed 1
      | false ↦ further 1 (scan_literal quote (d ∷ ds))
    ]
  ]
]

-- `make_string_token`, behind the opening quote.
unfoldable pub make_string_token : TokenKind → Literal → Bytes → Lexeme
make_string_token kind (closed n) cs = record {
  kind = kind;
  size = suc n;
  value = some (take (n - 1) cs);
}
make_string_token kind (unterminated_escape n) cs = record {
  kind = token_error;
  size = suc n;
  value = some (codes "unterminated escape");
}
make_string_token kind (unterminated n) cs = record {
  kind = token_error;
  size = suc n;
  value = some (codes "unterminated literal");
}

abbrev pub lexeme : TokenKind → ℕ → Lexeme
lexeme kind size = record { kind = kind; size = size; value = none }

abbrev pub not_newline : ℕ → Bool
not_newline c = if c == b'\n' then false else true

abbrev pub is_binary : ℕ → Bool
is_binary c = c == b'0' || c == b'1'

-- The byte behind the first; the buffer of a `std::string` ends in a zero byte.
abbrev pub second_byte : Bytes → ℕ
second_byte [] = 0
second_byte (d ∷ ds) = d

-- Operators of two bytes, then of one.
unfoldable pub read_operator : ℕ → Bytes → Lexeme
read_operator c cs = elim (get_double_char_token c (second_byte cs)) [
  | some kind ↦ lexeme kind 2
  | none ↦ elim (get_single_char_token c) [ some kind ↦ lexeme kind 1 | none ↦ lexeme unknown 1 ]
]

-- The tests behind the literals: variadic dots, comments, operators.
unfoldable pub read_symbol : ℕ → Bytes → Lexeme
read_symbol c cs =
    if eq_text (take 3 (c ∷ cs)) (codes "...")
    then lexeme variadic 3
    else if eq_text (take 2 (c ∷ cs)) (codes "//")
    then lexeme comment (2 + count_while not_newline (drop 1 cs))
    else read_operator c cs

unfoldable pub read_lexeme : ℕ → Bytes → Lexeme
read_lexeme c cs =
    if is_ident_start c
    then read_ident c cs
    else if eq_text (take 2 (c ∷ cs)) (codes "0x")
    then lexeme number (2 + count_while is_xdigit (drop 1 cs))
    else if eq_text (take 2 (c ∷ cs)) (codes "0b")
    then lexeme number (2 + count_while is_binary (drop 1 cs))
    else if is_digit c
    then lexeme number (count_while is_number (c ∷ cs))
    else if c == b'"'
    then make_string_token string (scan_literal b'"' cs) cs
    else if c == b'`'
    then make_string_token template_string (scan_literal b'`' cs) cs
    else if c == b'\''
    then make_string_token char (scan_literal b'\'' cs) cs
    else read_symbol c cs

-- `make_token`
abbrev pub make_token : TokenKind → Bytes → ℕ → ℕ → ℕ → ℕ → Token
make_token kind value start end line file = record {
  kind = kind;
  value = value;
  meta = record {
    column_range = record { start = start; end = end };
    line_range = record { start = line; end = line + 1 };
    file_id = file;
  };
}

abbrev pub lexeme_value : Lexeme → Bytes → Bytes
lexeme_value x cs = elim x.value [ some v ↦ v | none ↦ take x.size cs ]

-- What follows the white space, which starts at `start`.
unfoldable pub next_at : ℕ → Bytes × ℕ × ℕ → Token × Tokenizer
next_at file ([], start, line) = (
  make_token end_of_file [] start start line file,
  record { rest = []; file_id = file; offset = start; line = line },
)
next_at file (c ∷ cs, start, line) =
    let x = read_lexeme c cs in
    (
      make_token x.kind (lexeme_value x (c ∷ cs)) start (start + x.size) line file,
      record { rest = drop x.size (c ∷ cs); file_id = file; offset = start + x.size; line = line },
    )

unfoldable pub next : Tokenizer → Token × Tokenizer
next t = next_at t.file_id (skip_spaces t.rest t.offset t.line)

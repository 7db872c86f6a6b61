-- ===== src/Tokenizer/Tests.antt =====
-- Runs of the tokenizer, and its theorems at concrete sources.
use nib_lang.Base.{ℕ, List, [], ◌∷◌, ◌≡◌, refl, codes, count_while, eq_text}
use nib_lang.Tokenizer.Chars.{is_space, is_digit, is_alnum, is_xdigit, is_number}
use nib_lang.Tokenizer.Kinds.{
  TokenKind, kw_let, ident, number, end_expr, comment, end_of_file, compare_ge, variadic,
  token_error, string, keyword_to_token, get_double_char_token, get_single_char_token,
}
use nib_lang.Tokenizer.Scan.{
  skip_spaces, find_keyword, is_ident_start, is_ident_part, read_ident, scan_literal,
  make_string_token, read_operator, read_symbol, read_lexeme, next_at, next,
}
use nib_lang.Tokenizer.Lines.{Splits, next-Splits}
use nib_lang.Tokenizer.{Tokenizer, new_tokenizer}

unfoldable pub lexer : Unit {0}
unfolding count_while eq_text is_space is_digit is_alnum is_xdigit is_number keyword_to_token
    get_double_char_token get_single_char_token skip_spaces find_keyword is_ident_start
    is_ident_part read_ident scan_literal make_string_token read_operator read_symbol read_lexeme
    next_at next
lexer = tt

-- The kinds of the first `n` tokens.
kinds : ℕ → Tokenizer → List TokenKind
kinds ℕ.zero t = []
kinds (ℕ.suc n) t = let (k, u) = next t in k.kind ∷ kinds n u

statement :
    kinds 7 (new_tokenizer (codes "let x1 >= 0x1F; // end\n") 0)
    ≡ kw_let ∷ ident ∷ compare_ge ∷ number ∷ end_expr ∷ comment ∷ end_of_file ∷ []
unfolding kinds lexer
statement = refl

literals :
    kinds 4 (new_tokenizer (codes "\"a\\\"b\" ... 'x\n") 0)
    ≡ string ∷ variadic ∷ token_error ∷ end_of_file ∷ []
unfolding kinds lexer
literals = refl

next-Splits_example :
    Splits
      (new_tokenizer (codes " \n let x") 0)
      (next (new_tokenizer (codes " \n let x") 0)).0
      (next (new_tokenizer (codes " \n let x") 0)).1
next-Splits_example = next-Splits (new_tokenizer (codes " \n let x") 0)

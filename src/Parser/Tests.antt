-- ===== src/Parser/Tests.antt =====
-- The recovery of the parser at a concrete source.
use nib_lang.Base.{ℕ, [], Bool, true, false, Option, none, some, ◌≡◌, refl, Bytes, codes, length}
use nib_lang.Tokenizer.Kinds.{TokenKind, end_of_file, end_expr, kw_let}
use nib_lang.Tokenizer.Tests.{lexer}
use nib_lang.Tokenizer.{new_tokenizer}
use nib_lang.Parser.{
  consume_token, Parser, handling, fetch, advance_loop, advance_token, synchronize_on_error,
}
use nib_lang.Parser.Advance.{Advanced, advance_token-Advanced}
use nib_lang.Parser.Consume.{Consumed, consume_token-Consumed}
use nib_lang.Parser.Synchronize.{Ends, synchronize_on_error-Ends}

abbrev start : Bytes → Parser
start source = record {
  tokenizer = new_tokenizer source 0;
  current_token = record {
    kind = end_of_file;
    value = [];
    meta = record {
      column_range = record { start = 0; end = 0 };
      line_range = record { start = 0; end = 0 };
      file_id = 0;
    };
  };
  errors = [];
}

abbrev kind_of : Option Parser → Option (TokenKind × ℕ)
kind_of none = none
kind_of (some p) = some (p.current_token.kind, length p.errors)

-- Past a comment and an unknown byte.
advanced : kind_of (advance_token (start (codes "// c\n # let"))) ≡ some (kw_let, 1)
unfolding advance_token advance_loop fetch handling lexer
advanced = refl

abbrev is_end_expr : TokenKind → Bool
is_end_expr end_expr = true
is_end_expr _ = false

advance_token-Advanced_example :
    (q : Parser) × (advance_token (start (codes "# let")) ≡ some q)
    × Advanced (start (codes "# let")) q
advance_token-Advanced_example = advance_token-Advanced (start (codes "# let"))

synchronize_on_error-Ends_example :
    Ends is_end_expr
      (start (codes "1 + ; let"))
      (synchronize_on_error is_end_expr (start (codes "1 + ; let")))
synchronize_on_error-Ends_example =
    synchronize_on_error-Ends is_end_expr (start (codes "1 + ; let"))

consume_token-Consumed_example :
    (b : Bool) × (q : Parser) × (consume_token end_expr (codes "expected ;") (start (codes "let x"))
      ≡ some (b, q))
    × Consumed end_expr (codes "expected ;") (start (codes "let x")) b q
consume_token-Consumed_example =
    consume_token-Consumed end_expr (codes "expected ;") (start (codes "let x"))

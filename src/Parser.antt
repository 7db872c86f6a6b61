-- ===== src/Parser.antt =====
-- compiler/parser/parser.h and compiler/parser/parser.cc: the token stream of the parser, its
-- recovery from errors. The grammar itself is not modelled.
pub mod Advance
pub mod Synchronize
pub mod Consume
mod Tests
use nib_lang.Base.{
  ℕ, zero, suc, ◌+◌, Bool, true, false, List, [], ◌∷◌, ◌++◌, Option, none, some, Bytes, codes,
  length, ◌>>=◌,
}
use nib_lang.Tokenizer.Kinds.{
  same_kind, TokenKind, unknown, comment, token_error, end_of_file, kw_let, kw_struct, kw_extern,
  kw_while, kw_return, kw_break, kw_fn, kw_continue, kw_throw, kw_import, kw_alias,
}
use nib_lang.Tokenizer.Scan.{next}
use nib_lang.Tokenizer.{Token, Tokenizer, Metadata}

-- `error_collector_` holds the messages with their spans, in order.
pub record Parser : Type 0 where
  pub tokenizer : Tokenizer
  pub current_token : Token
  pub errors : List (Bytes × Metadata)

-- The tests of `AdvanceToken` on the kind at hand.
pub data Handling : Type 0 where
  report_value report_unknown skip keep : Handling

unfoldable pub handling : TokenKind → Handling
handling token_error = report_value
handling unknown = report_unknown
handling comment = skip
handling _ = keep

-- `current_token_ = tokenizer_.next()`
unfoldable pub fetch : Parser → Parser
fetch p =
    let (token, tokenizer) = next p.tokenizer in
    record p { tokenizer = tokenizer; current_token = token }

abbrev pub add_error : Bytes → Parser → Parser
add_error text p = record p { errors = p.errors ++ (text, p.current_token.meta) ∷ [] }

abbrev pub unknown_text : Bytes → Bytes
unknown_text value = codes "unknown token: \"" ++ (value ++ codes "\"")

-- The loop of `AdvanceToken`, on fuel.
unfoldable pub advance_loop : ℕ → Parser → Option Parser
advance_loop zero p = none
advance_loop (suc f) p = elim (handling p.current_token.kind) [
  | report_value ↦ advance_loop f (fetch (add_error p.current_token.value p))
  | report_unknown ↦ advance_loop f (fetch (add_error (unknown_text p.current_token.value) p))
  | skip ↦ advance_loop f (fetch p)
  | keep ↦ some p
]

-- Two rounds more than there are bytes left.
unfoldable pub advance_token : Parser → Option Parser
advance_token p = advance_loop (length p.tokenizer.rest + 2) (fetch p)

-- The result, and the parser behind it.
unfoldable pub consume_token : TokenKind → Bytes → Parser → Option (Bool × Parser)
consume_token expected_kind error_message p = elim (same_kind p.current_token.kind expected_kind) [
  | false ↦ some (false, add_error error_message p)
  | true ↦ do q ← advance_token p; some (true, q)
]

unfoldable pub is_start_of_statement : TokenKind → Bool
is_start_of_statement kw_let = true
is_start_of_statement kw_struct = true
is_start_of_statement kw_extern = true
is_start_of_statement kw_while = true
is_start_of_statement kw_return = true
is_start_of_statement kw_break = true
is_start_of_statement kw_fn = true
is_start_of_statement kw_continue = true
is_start_of_statement kw_throw = true
is_start_of_statement kw_import = true
is_start_of_statement kw_alias = true
is_start_of_statement _ = false

unfoldable pub is_end_of_file : TokenKind → Bool
is_end_of_file end_of_file = true
is_end_of_file _ = false

-- The loop of `SynchronizeOnError`, on fuel.
unfoldable pub synchronize_loop : (TokenKind → Bool) → ℕ → Parser → Option (Bool × Parser)
synchronize_loop is_target zero p = none
synchronize_loop is_target (suc f) p = elim (is_end_of_file p.current_token.kind) [
  | true ↦ some (false, p)
  | false ↦ elim (is_target p.current_token.kind) [
    | true ↦ some (true, p)
    | false ↦ elim (is_start_of_statement p.current_token.kind) [
      | true ↦ some (false, p)
      | false ↦ do q ← advance_token p; synchronize_loop is_target f q
    ]
  ]
]

unfoldable pub synchronize_on_error : (TokenKind → Bool) → Parser → Option (Bool × Parser)
synchronize_on_error is_target p = elim (is_target p.current_token.kind) [
  | true ↦ some (true, p)
  | false ↦ do q ← advance_token p; synchronize_loop is_target (length q.tokenizer.rest + 2) q
]

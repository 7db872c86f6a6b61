-- ===== src/Tokenizer.antt =====
-- compiler/parser/tokenizer.h and compiler/parser/tokenizer.cc: tokens with their spans.
pub mod Chars
pub mod Kinds
pub mod Scan
pub mod Spans
pub mod Lines
pub mod Tests
use nib_lang.Base.{ℕ, ◌+◌, Bytes, Option, none, some}
use Kinds.{TokenKind}

-- `start` is inclusive, `end` is not.
pub record TextRange : Type 0 where
  pub start : ℕ
  pub end : ℕ

pub record Metadata : Type 0 where
  pub column_range : TextRange
  pub line_range : TextRange
  pub file_id : ℕ

pub record Token : Type 0 where
  pub kind : TokenKind
  pub value : Bytes
  pub meta : Metadata

-- `rest` is the part of `data_` from `offset_` on.
pub record Tokenizer : Type 0 where
  pub rest : Bytes
  pub file_id : ℕ
  pub offset : ℕ
  pub line : ℕ

-- `Tokenizer(data, file_id)`
abbrev pub new_tokenizer : Bytes → ℕ → Tokenizer
new_tokenizer source id = record { rest = source; file_id = id; offset = 0; line = 1 }

-- `Metadata::fromTokens`
pub from_tokens : Token → Token → Metadata
from_tokens start end = record {
  column_range = record {
    start = start.meta.column_range.start;
    end = end.meta.column_range.start;
  };
  line_range = record { start = start.meta.line_range.start; end = end.meta.line_range.start };
  file_id = start.meta.file_id;
}

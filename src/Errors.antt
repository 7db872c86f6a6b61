-- ===== src/Errors.antt =====
-- compiler/error_collector.h: the messages a compilation collects, each with its notes. The
-- printing of them is not modelled.
use nib_lang.Base.{List, [], ◌∷◌, ◌++◌, Bytes}
use nib_lang.Tokenizer.{Metadata}

pub record Message : Type 0 where
  pub text : Bytes
  pub span : Metadata

pub record Error : Type 0 where
  pub message : Message
  pub notes : List Message

-- `ErrorCollector::Add`, an `ErrorBuilder` before its notes.
abbrev pub new_error : Bytes → Metadata → Error
new_error text span = record { message = record { text = text; span = span }; notes = [] }

-- `ErrorBuilder::WithNote`
abbrev pub with_note : Bytes → Metadata → Error → Error
with_note text span e = record e { notes = e.notes ++ record { text = text; span = span } ∷ [] }

-- `ErrorCollector::Commit`, which the builder's destructor calls.
abbrev pub commit : Error → List Error → List Error
commit e errors = errors ++ e ∷ []

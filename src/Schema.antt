-- ===== src/Schema.antt =====
-- src/error.rs: the error of every textual option, with the key and the text that was refused.
use slurm_async_runner.Prelude.{Result}
use slurm_async_runner.Prelude.Text.{Text}

pub data SchemaParseError : Type 0 where
  unknown_key : Text → SchemaParseError
  missing_required_key : Text → SchemaParseError
  parse_error : (key value : Text) → SchemaParseError

abbrev pub Parsed : Type 0 → Type 0
Parsed A = Result SchemaParseError A

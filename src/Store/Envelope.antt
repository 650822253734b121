-- ===== src/Store/Envelope.antt =====
-- src/store.rs: the JSON envelope of a snapshot on disk (`decode_with_kind_check`, and the value that
-- `write_atomic_json` writes). `serde_json` is a parameter.
pub mod Laws
use slurm_async_runner.Prelude.{
  ℕ, ◌++◌, ◌∷◌, [], Option, none, some, Bool, true, false, not, if◌then◌else◌, ◌==◌, Result, ok,
  err, ◌>>=◌, ◌>>◌, refuse_if, ◌≡◌,
}
use slurm_async_runner.Prelude.Text.{Text, codes, text_eq}
use slurm_async_runner.Store.{JobSnapshot}

-- What the code uses of `serde_json` and of the derived impls of a snapshot type.
pub record Json (Value : Type 0) : Type 0 where
  pub from_slice : Text → Result Text Value
  pub to_pretty : Value → Text
  pub get : Text → Value → Option Value
  pub insert : Text → Value → Value → Value
  pub is_object : Value → Bool
  pub string : Text → Value
  pub number : ℕ → Value
  pub as_str : Value → Option Text
  pub as_u64 : Value → Option ℕ

pub record Serde (Value S : Type 0) : Type 0 where
  pub to_value : S → Result Text Value
  pub from_value : Value → Result Text S

abbrev pub schema_version : ℕ
schema_version = 1

abbrev pub version_key : Text
version_key = codes "schema_version"

abbrev pub kind_key : Text
kind_key = codes "kind"

-- The messages name the version and the path too, which are left out here.
abbrev unsupported : Text
unsupported = codes "unsupported schema_version"

module _ {Value S : Type 0} (json : Json Value) (serde : Serde Value S)
    (shape : JobSnapshot S) where
  -- The version field: a missing one is version 1.
  abbrev pub version_ok : Option Value → Bool
  version_ok none = true
  version_ok (some v) = elim (json.as_u64 v) [ none ↦ false | some n ↦ n == schema_version ]

  abbrev pub as_text : Option Value → Option Text
  as_text none = none
  as_text (some v) = json.as_str v

  -- The kind field: a missing one, or one that is no string, is taken for the right kind.
  abbrev pub kind_ok : Option Text → Bool
  kind_ok none = true
  kind_ok (some k) = text_eq k shape.kind

  decode_body : Value → Result Text (Option S)
  decode_body value = serde.from_value value >>= λ snap. ok (some snap)

  decode_value : Value → Result Text (Option S)
  unfolding decode_body
  decode_value value = do
    refuse_if (not (version_ok (json.get version_key value))) unsupported
    if kind_ok (as_text (json.get kind_key value)) then decode_body value else ok none

  unfoldable pub decode_with_kind_check : Text → Result Text (Option S)
  unfolding decode_value
  decode_with_kind_check bytes = do value ← json.from_slice bytes; decode_value value

  -- `obj.insert("kind", …)`, then `obj.insert("schema_version", …)`.
  abbrev pub enveloped : Value → Value
  enveloped value =
      json.insert version_key (json.number schema_version)
        (json.insert kind_key (json.string shape.kind) value)

  -- The bytes that `write_atomic_json` writes.
  unfoldable pub encode : S → Result Text Text
  encode snap = do
    value ← serde.to_value snap
    refuse_if (not (json.is_object value)) (codes "snapshot did not serialize to a JSON object")
    ok (json.to_pretty (enveloped value))

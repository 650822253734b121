-- ===== src/Store/Envelope/Laws.antt =====
-- A snapshot is read back from its envelope, by its own kind only.
use slurm_async_runner.Prelude.{
  ℕ, Option, none, some, true, false, not, if◌then◌else◌, ok, ◌>>◌, refuse_if, >>=-eq-ok, ◌≡◌, ◌≢◌,
  refl, ap, ◌∙◌, arith,
}
use slurm_async_runner.Prelude.Text.{Text, codes, text_eq, text_eq_refl}
use slurm_async_runner.Store.{JobSnapshot}
use slurm_async_runner.Store.Envelope.{
  Json, Serde, schema_version, version_key, kind_key, decode_value, decode_body,
  decode_with_kind_check, enveloped, encode,
}

-- What the code relies on: documents are read back, an object holds what was inserted last under a
-- key, and numbers and strings are read back.
pub record JsonIsLawful {Value : Type 0} (json : Json Value) : Type 0 where
  pub from_slice-to_pretty : (v : Value) → json.from_slice (json.to_pretty v) ≡ ok v
  pub get-insert :
      (k j : Text) (x v : Value)
      → json.is_object v ≡ true
      → json.get k (json.insert j x v) ≡ (if text_eq k j then some x else json.get k v)
  pub is_object-insert :
      (j : Text) (x v : Value) → json.is_object v ≡ true → json.is_object (json.insert j x v) ≡ true
  pub as_str-string : (t : Text) → json.as_str (json.string t) ≡ some t
  pub as_u64-number : (n : ℕ) → json.as_u64 (json.number n) ≡ some n

-- `read` of a snapshot is what its type's serde impls read from the fields that they wrote, whatever
-- stands under the two keys of the envelope, which are no fields of it. It is the same snapshot, but
-- for values that are written alike: `JobReason::Other("Priority")` is read as `Priority`.
pub record SerdeIsLawful {Value S : Type 0} (json : Json Value) (serde : Serde Value S)
    (read : S → S) : Type 0 where
  pub from_value-insert :
      (s : S) (v x y : Value)
      → serde.to_value s ≡ ok v
      → serde.from_value (json.insert version_key x (json.insert kind_key y v)) ≡ ok (read s)

module _ {Value S T : Type 0} (json : Json Value) (law : JsonIsLawful json) (serde : Serde Value S)
    (serde' : Serde Value T) (shape : JobSnapshot S) (shape' : JobSnapshot T) where
  -- The two fields of an envelope.
  version-enveloped :
      (v : Value)
      → json.is_object v ≡ true
      → json.get version_key (enveloped json serde shape v) ≡ some (json.number schema_version)
  unfolding text_eq
  version-enveloped v o =
      law.get-insert version_key version_key _ _ (law.is_object-insert kind_key _ v o)

  kind-enveloped :
      (v : Value)
      → json.is_object v ≡ true
      → json.get kind_key (enveloped json serde shape v) ≡ some (json.string shape.kind)
  unfolding text_eq
  kind-enveloped v o =
      law.get-insert kind_key version_key _ _ (law.is_object-insert kind_key _ v o)
      ∙ law.get-insert kind_key kind_key _ v o

  decode-fields :
      (value x y : Value) (k : Text)
      → json.get version_key value ≡ some x
      → json.as_u64 x ≡ some schema_version
      → json.get kind_key value ≡ some y
      → json.as_str y ≡ some k
      → decode_value json serde' shape' value
        ≡ (if text_eq k shape'.kind then decode_body json serde' shape' value else ok none)
  unfolding decode_value
  decode-fields value x y k a b c d = ground arith

  -- What a reader of another type does with an envelope.
  decode-enveloped :
      (v : Value)
      → json.is_object v ≡ true
      → decode_value json serde' shape' (enveloped json serde shape v) ≡ (
          if text_eq shape.kind shape'.kind
          then decode_body json serde' shape' (enveloped json serde shape v)
          else ok none)
  decode-enveloped v o =
      decode-fields (enveloped json serde shape v) (json.number schema_version)
        (json.string shape.kind) shape.kind (version-enveloped v o)
        (law.as_u64-number schema_version) (kind-enveloped v o) (law.as_str-string shape.kind)

  object_of :
      (v : Value) (bytes : Text)
      → (refuse_if (not (json.is_object v)) (codes "snapshot did not serialize to a JSON object")
          >> ok (json.to_pretty (enveloped json serde shape v)))
        ≡ ok bytes
      → (json.is_object v ≡ true) × (bytes ≡ json.to_pretty (enveloped json serde shape v))
  object_of v bytes h = (ground arith, ground arith)

  encode-inv :
      (s : S) (bytes : Text)
      → encode json serde shape s ≡ ok bytes
      → (v : Value) × (serde.to_value s ≡ ok v)
        × (json.is_object v ≡ true)
        × (bytes ≡ json.to_pretty (enveloped json serde shape v))
  unfolding encode
  encode-inv s bytes h =
      let step =
        >>=-eq-ok (serde.to_value s)
          (λ v.
            refuse_if (not (json.is_object v)) (codes "snapshot did not serialize to a JSON object")
            >> ok (json.to_pretty (enveloped json serde shape v)))
          h in
      let (o, p) = object_of step.0 bytes step.2 in (step.0, step.1, o, p)

  -- The document behind what was written.
  pub encode-document :
      (s : S) (bytes : Text)
      → encode json serde shape s ≡ ok bytes
      → (v : Value) × (serde.to_value s ≡ ok v)
        × (json.from_slice bytes ≡ ok (enveloped json serde shape v))
        × (json.get kind_key (enveloped json serde shape v) ≡ some (json.string shape.kind))
  encode-document s bytes h =
      let (v, p, o, q) = encode-inv s bytes h in
      (
        v,
        p,
        ap json.from_slice q ∙ law.from_slice-to_pretty (enveloped json serde shape v),
        kind-enveloped v o,
      )

  -- What one type writes, a type of another kind skips: decoding gives no snapshot and no error.
  pub decode-other_kind :
      (s : S) (bytes : Text)
      → encode json serde shape s ≡ ok bytes
      → text_eq shape.kind shape'.kind ≡ false
      → decode_with_kind_check json serde' shape' bytes ≡ ok none
  unfolding decode_with_kind_check
  decode-other_kind s bytes h other =
      let (v, p, o, q) = encode-inv s bytes h in
      rw (q, law.from_slice-to_pretty (enveloped json serde shape v), decode-enveloped v o, other)
        refl

module _ {Value S : Type 0} (json : Json Value) (law : JsonIsLawful json) (serde : Serde Value S)
    (read : S → S) (serde_law : SerdeIsLawful json serde read) (shape : JobSnapshot S) where
  -- What a type writes it reads back, as its serde impls do.
  pub decode-encode :
      (s : S) (bytes : Text)
      → encode json serde shape s ≡ ok bytes
      → decode_with_kind_check json serde shape bytes ≡ ok (some (read s))
  unfolding decode_with_kind_check decode_body
  decode-encode s bytes h =
      let (v, p, o, q) = encode-inv json law serde serde shape shape s bytes h in
      rw
        (
          q,
          law.from_slice-to_pretty (enveloped json serde shape v),
          decode-enveloped json law serde serde shape shape v o,
          text_eq_refl shape.kind,
          serde_law.from_value-insert s v (json.number schema_version) (json.string shape.kind) p,
        )
        refl

  -- A document with another version is refused, whatever else it holds.
  pub decode-version :
      (bytes : Text) (value v : Value)
      → json.from_slice bytes ≡ ok value
      → json.get version_key value ≡ some v
      → json.as_u64 v ≢ some schema_version
      → (r : Option S) → decode_with_kind_check json serde shape bytes ≢ ok r
  unfolding decode_with_kind_check decode_value
  decode-version bytes value v p q n r e = ground arith

-- ===== src/Options/ArraySpec/Sound.antt =====
-- What the `--array` parser accepts.
use slurm_async_runner.Prelude.{
  ℕ, Option, none, some, ok, collect, ◌≡◌, arith, collect-All, is_empty-collect,
}
use slurm_async_runner.Prelude.Text.{Text, split, is_empty-split}
use slurm_async_runner.Prelude.Number.{max_u32, parse_uint-le}
use slurm_async_runner.Options.ArraySpec.{
  ArrayIndex, SlurmArraySpec, single, range, stepped, parse_spec, parse_index, IndexIsValid,
  CapIsValid, SpecIsValid, split_cap,
}

parse_index-IsValid : (s : Text) (i : ArrayIndex) → parse_index s ≡ ok i → IndexIsValid i
unfolding parse_index
parse_index-IsValid s (single i) h = grind (arith, parse_uint-le max_u32)
parse_index-IsValid s (range a b) h = grind (arith, parse_uint-le max_u32)
parse_index-IsValid s (stepped a b c) h = grind (arith, parse_uint-le max_u32)

split_cap-CapIsValid :
    (s part : Text) (cap : Option ℕ) → split_cap s ≡ ok (part, cap) → CapIsValid cap
unfolding split_cap
split_cap-CapIsValid s part none h = tt
split_cap-CapIsValid s part (some n) h = grind (arith, parse_uint-le max_u32)

-- The steps of a successful parse.
parse_spec_inv :
    (s : Text) (spec : SlurmArraySpec)
    → parse_spec s ≡ ok spec
    → (part : Text) × (split_cap s ≡ ok (part, spec.max_concurrent))
      × (collect parse_index (split b',' part) ≡ ok spec.indices)
unfolding parse_spec
parse_spec_inv s spec h = grind arith

-- The parser of `--array` accepts only valid options: the list of entries is not empty, each range
-- has `start <= end`, each step and the cap are positive, and all numbers are in the range of `u32`.
pub parse_spec-SpecIsValid :
    (s : Text) (spec : SlurmArraySpec) → parse_spec s ≡ ok spec → SpecIsValid spec
parse_spec-SpecIsValid s spec h =
    let (part, p, q) = parse_spec_inv s spec h in
    record {
      listed =
          is_empty-collect parse_index (split b',' part) spec.indices (is_empty-split b',' part) q;
      entries =
          collect-All IndexIsValid parse_index (split b',' part) spec.indices parse_index-IsValid q;
      cap = split_cap-CapIsValid s part spec.max_concurrent p;
    }

-- ===== src/Options/ArraySpec.antt =====
-- src/entities/slurm/sbatch_options/array_spec.rs: the `--array` option, printed and parsed.
pub mod RoundTrip
pub mod Sound
use slurm_async_runner.Prelude.{
  ℕ, ◌≤◌, ◌<◌, ◌≡◌, false, List, [], ◌∷◌, ◌++◌, map, Option, none, some, All, is_empty, Result, ok,
  err, ok_or, refuse_if, collect, ◌>>=◌, ◌>>◌, ltb, ◌==◌, if◌then◌else◌,
}
use slurm_async_runner.Prelude.Text.{Text, codes, split_once, split, join}
use slurm_async_runner.Prelude.Number.{max_u32, parse_uint, show}
use slurm_async_runner.Schema.{Parsed, parse_error, SchemaParseError}

pub data ArrayIndex : Type 0 where
  single : (i : ℕ) → ArrayIndex
  range : (start end : ℕ) → ArrayIndex
  stepped : (start end step : ℕ) → ArrayIndex

pub record SlurmArraySpec : Type 0 where
  pub indices : List ArrayIndex
  pub max_concurrent : Option ℕ

unfoldable pub show_index : ArrayIndex → Text
show_index (single i) = show i
show_index (range start end) = show start ++ b'-' ∷ show end
show_index (stepped start end step) = (show start ++ b'-' ∷ show end) ++ b':' ∷ show step

show_cap : Option ℕ → Text
show_cap none = []
show_cap (some n) = b'%' ∷ show n

unfoldable pub show_spec : SlurmArraySpec → Text
unfolding show_cap
show_spec spec = join b',' (map show_index spec.indices) ++ show_cap spec.max_concurrent

entry_error : Text → SchemaParseError
entry_error s = parse_error (codes "array_spec/entry") s

-- The suffix `:<step>`, if there is one.
split_step : Text → Parsed (Text × Option ℕ)
split_step s = elim (split_once b':' s) [
  | none ↦ ok (s, none)
  | some (r, st) ↦ do
    step ← ok_or (parse_uint max_u32 st) (entry_error s)
    refuse_if (step == 0) (entry_error s)
    ok (r, some step)
]

range_entry : ℕ → ℕ → Option ℕ → ArrayIndex
range_entry start end none = range start end
range_entry start end (some step) = stepped start end step

single_entry : Text → Text → Option ℕ → Parsed ArrayIndex
single_entry s part (some step) = err (entry_error s)
single_entry s part none = do i ← ok_or (parse_uint max_u32 part) (entry_error s); ok (single i)

unfoldable pub parse_index : Text → Parsed ArrayIndex
unfolding split_step range_entry single_entry entry_error
parse_index s = do
  refuse_if (is_empty s) (entry_error s)
  (part, step) ← split_step s
  elim (split_once b'-' part) [
    | some (a, b) ↦ do
      start ← ok_or (parse_uint max_u32 a) (entry_error s)
      end ← ok_or (parse_uint max_u32 b) (entry_error s)
      refuse_if (ltb end start) (entry_error s)
      ok (range_entry start end step)
    | none ↦ single_entry s part step
  ]

spec_error : Text → SchemaParseError
spec_error s = parse_error (codes "array_spec") s

-- The suffix `%<max_concurrent>`, if there is one.
split_cap : Text → Parsed (Text × Option ℕ)
split_cap s = elim (split_once b'%' s) [
  | none ↦ ok (s, none)
  | some (idx, cap) ↦ do
    n ← ok_or (parse_uint max_u32 cap) (spec_error s)
    refuse_if (n == 0) (spec_error s)
    ok (idx, some n)
]

unfoldable pub parse_spec : Text → Parsed SlurmArraySpec
unfolding split_cap spec_error
parse_spec s = do
  refuse_if (is_empty s) (spec_error s)
  (part, cap) ← split_cap s
  refuse_if (is_empty part) (spec_error s)
  entries ← collect parse_index (split b',' part)
  ok (record { indices = entries; max_concurrent = cap })

-- The constraints that the parser enforces.
abbrev pub IndexIsValid : ArrayIndex → Type 0
IndexIsValid (single i) = i ≤ max_u32
IndexIsValid (range start end) = (start ≤ end) × (end ≤ max_u32)
IndexIsValid (stepped start end step) =
    (start ≤ end) × (end ≤ max_u32) × (0 < step) × (step ≤ max_u32)

abbrev pub CapIsValid : Option ℕ → Type 0
CapIsValid none = Unit
CapIsValid (some n) = (0 < n) × (n ≤ max_u32)

pub record SpecIsValid (spec : SlurmArraySpec) : Type 0 where
  pub listed : is_empty spec.indices ≡ false
  pub entries : All IndexIsValid spec.indices
  pub cap : CapIsValid spec.max_concurrent

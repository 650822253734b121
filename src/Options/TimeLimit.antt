-- ===== src/Options/TimeLimit.antt =====
-- src/entities/slurm/sbatch_options/time_limit.rs: the `--time` option, printed and parsed.
pub mod Forms
pub mod Delta
use slurm_async_runner.Prelude.{
  ℕ, ◌+◌, ◌-◌, ◌*◌, ◌/◌, ◌%◌, ◌≤◌, ◌<◌, List, [], ◌∷◌, ◌++◌, none, some, is_empty, ok, err, ok_or,
  refuse_if, ◌>>=◌, ◌>>◌, ltb, ◌==◌,
}
use slurm_async_runner.Prelude.Text.{Text, codes, split_once, split}
use slurm_async_runner.Prelude.Number.{max_u32, parse_uint, show_2}
use slurm_async_runner.Schema.{Parsed, parse_error, SchemaParseError}

pub record JobTimeLimit : Type 0 where
  pub seconds : ℕ

-- `NonZeroU32`.
pub record LimitIsValid (t : JobTimeLimit) : Type 0 where
  pub positive : 0 < t.seconds
  pub fits : t.seconds ≤ max_u32

unfoldable pub hours : JobTimeLimit → ℕ
hours t = t.seconds / 3600

unfoldable pub minutes : JobTimeLimit → ℕ
minutes t = t.seconds % 3600 / 60

unfoldable pub seconds_part : JobTimeLimit → ℕ
seconds_part t = t.seconds % 60

unfoldable pub show_limit : JobTimeLimit → Text
unfolding hours minutes seconds_part
show_limit t = show_2 (hours t) ++ b':' ∷ (show_2 (minutes t) ++ b':' ∷ show_2 (seconds_part t))

abbrev pub limit_error : Text → SchemaParseError
limit_error s = parse_error (codes "time_limit") s

parse_component : Text → Text → Parsed ℕ
parse_component raw original = ok_or (parse_uint max_u32 raw) (limit_error original)

-- `<hours>`, `<hours>:<minutes>` or `<hours>:<minutes>:<seconds>` behind the days.
after_days : Text → ℕ → List Text → Parsed ℕ
unfolding parse_component
after_days s days (h ∷ []) = do h ← parse_component h s; ok (days * 86_400 + h * 3_600)
after_days s days (h ∷ m ∷ []) = do
  h ← parse_component h s
  m ← parse_component m s
  ok (days * 86_400 + h * 3_600 + m * 60)
after_days s days (h ∷ m ∷ sec ∷ []) = do
  h ← parse_component h s
  m ← parse_component m s
  sec ← parse_component sec s
  ok (days * 86_400 + h * 3_600 + m * 60 + sec)
after_days s days _ = err (limit_error s)

-- `<minutes>`, `<minutes>:<seconds>` or `<hours>:<minutes>:<seconds>`.
without_days : Text → List Text → Parsed ℕ
unfolding parse_component
without_days s (m ∷ []) = do m ← parse_component m s; ok (m * 60)
without_days s (m ∷ sec ∷ []) = do
  m ← parse_component m s
  sec ← parse_component sec s
  ok (m * 60 + sec)
without_days s (h ∷ m ∷ sec ∷ []) = do
  h ← parse_component h s
  m ← parse_component m s
  sec ← parse_component sec s
  ok (h * 3_600 + m * 60 + sec)
without_days s _ = err (limit_error s)

-- The sum is taken in `u64`, where it cannot wrap around.
total_seconds : Text → Parsed ℕ
unfolding after_days without_days
total_seconds s = elim (split_once b'-' s) [
  | some (days_s, rest) ↦ do
    refuse_if (is_empty days_s) (limit_error s)
    refuse_if (is_empty rest) (limit_error s)
    days ← parse_component days_s s
    after_days s days (split b':' rest)
  | none ↦ without_days s (split b':' s)
]

-- `total.try_into::<u32>()`, then `NonZeroU32::new`.
to_limit : Text → ℕ → Parsed JobTimeLimit
to_limit s total = do
  refuse_if (ltb max_u32 total) (limit_error s)
  refuse_if (total == 0) (limit_error s)
  ok (record { seconds = total })

unfoldable pub parse_limit : Text → Parsed JobTimeLimit
unfolding total_seconds to_limit
parse_limit s = do refuse_if (is_empty s) (limit_error s); total ← total_seconds s; to_limit s total

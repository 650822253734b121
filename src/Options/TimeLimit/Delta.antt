-- ===== src/Options/TimeLimit/Delta.antt =====
-- `JobTimeLimit` from and to `chrono::TimeDelta`. The delta, its whole seconds (an `i64`, rounded
-- towards zero), its text and its constructor from seconds are those of `chrono`.
use slurm_async_runner.Prelude.{ℕ, ◌≤◌, ◌<◌, ok, err, refuse_if, ◌>>◌, ltb, ◌==◌, ◌≡◌, arith, ◌↔◌}
use slurm_async_runner.Prelude.Text.{Text}
use slurm_async_runner.Prelude.Number.{max_u32}
use slurm_async_runner.Prelude.Int.{ℤ, pos, negsuc}
use slurm_async_runner.Schema.{Parsed}
use slurm_async_runner.Options.TimeLimit.{JobTimeLimit, LimitIsValid, limit_error}

from_total : Text → ℤ → Parsed JobTimeLimit
from_total s (negsuc n) = err (limit_error s)
from_total s (pos n) = do
  refuse_if (n == 0) (limit_error s)
  refuse_if (ltb max_u32 n) (limit_error s)
  ok (record { seconds = n })

from_total-ok_iff :
    (s : Text) (z : ℤ) (t : JobTimeLimit)
    → (from_total s z ≡ ok t) ↔ ((z ≡ pos t.seconds) × (0 < t.seconds) × (t.seconds ≤ max_u32))
unfolding from_total
from_total-ok_iff s (negsuc n) t = (λ h. cc, λ h. ground arith)
from_total-ok_iff s (pos n) t = (λ h. ground arith, λ h. ground arith)

module _ {Delta : Type 0} (num_seconds : Delta → ℤ) (show_delta : Delta → Text) where
  pub from_delta : Delta → Parsed JobTimeLimit
  unfolding from_total
  from_delta d = from_total (show_delta d) (num_seconds d)

  -- A delta converts to a limit exactly if its whole seconds are positive and fit `u32`, and then
  -- the limit has those seconds.
  pub from_delta-ok_iff :
      (d : Delta) (t : JobTimeLimit)
      → (from_delta d ≡ ok t)
        ↔ ((num_seconds d ≡ pos t.seconds) × (0 < t.seconds) × (t.seconds ≤ max_u32))
  unfolding from_delta
  from_delta-ok_iff d t = from_total-ok_iff (show_delta d) (num_seconds d) t

pub to_delta : {Delta : Type 0} (of_seconds : ℤ → Delta) → JobTimeLimit → Delta
to_delta of_seconds t = of_seconds (pos t.seconds)

-- With a `chrono` whose `num_seconds` reads back what `TimeDelta::seconds` made from a `u32`, a
-- valid limit survives the way to a delta and back.
pub from_delta-to_delta :
    {Delta : Type 0} (num_seconds : Delta → ℤ) (show_delta : Delta → Text) (of_seconds : ℤ → Delta)
    → ((n : ℕ) → n ≤ max_u32 → num_seconds (of_seconds (pos n)) ≡ pos n)
    → (t : JobTimeLimit) → LimitIsValid t
    → from_delta num_seconds show_delta (to_delta of_seconds t) ≡ ok t
unfolding to_delta
from_delta-to_delta num_seconds show_delta of_seconds law t v =
    (from_delta-ok_iff num_seconds show_delta (of_seconds (pos t.seconds)) t).1
      (law t.seconds v.fits, v.positive, v.fits)

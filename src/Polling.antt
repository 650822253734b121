-- ===== src/Polling.antt =====
-- The polling loop of the handles' `wait_terminal` (src/sbatch/handle.rs), over the refresh that it calls.
pub mod Laws
use slurm_async_runner.Prelude.{
  ℕ, zero, suc, ◌+◌, Option, none, some, Bool, true, false, if◌then◌else◌, Result, ok, err, leb,
}
use slurm_async_runner.Prelude.Text.{Text}
use slurm_async_runner.Dispatcher.{M}

abbrev pub max_consecutive_refresh_failures : ℕ
max_consecutive_refresh_failures = 5

-- `H` is the state of the handle with the world around it. During `tokio::time::sleep` time passes
-- and other tasks run: `sleep` is any change of that state.
module _ {H S : Type 0} (refresh : M H S) (done : S → Bool) (sleep : H → H) where
  -- The loop for a number of rounds at most, with the failures so far; `none` means that it still runs.
  unfoldable pub wait_loop : ℕ → ℕ → H → Option (Result Text S) × H
  wait_loop zero failures h = (none, h)
  wait_loop (suc rounds) failures h = elim (refresh h).0 [
    | ok snap ↦
        let rest = wait_loop rounds 0 (sleep (refresh h).1) in
        if done snap then (some (ok snap), (refresh h).1) else rest
    | err e ↦
        let rest = wait_loop rounds (failures + 1) (sleep (refresh h).1) in
        if leb max_consecutive_refresh_failures (failures + 1)
        then (some (err e), (refresh h).1)
        else rest
  ]

-- ===== src/SlurmManager.antt =====
-- src/manager.rs and `DryRunDispatcher` of src/dispatcher.rs: running one batch file through a launcher.
use slurm_async_runner.Prelude.{
  ℕ, List, [], ◌∷◌, none, some, Bool, true, false, Result, ok, err, ◌≡◌, refl, ap,
}
use slurm_async_runner.Prelude.Text.{Text, join}
use slurm_async_runner.Prelude.Int.{ℤ, pos}
use slurm_async_runner.Dispatcher.{Capture, M, ◌>>=◌, pure, lift, >>=-of_ok}
use slurm_async_runner.Status.{JobStatus, default_status}
use slurm_async_runner.Runner.{get}
use slurm_async_runner.Runner.Query.{query_job_states_batch_with}

pub record SlurmCmd : Type 0 where
  pub srun_cmd : Text

-- `JobDispatcher::run`, which gives the exit code.
abbrev pub Run : Type 0 → Type 0
Run W = List Text → M W ℤ

-- `absolutize` resolves a path against the working directory, which may fail.
unfoldable pub build_argv : (Text → Result Text Text) → SlurmCmd → Text → Result Text (List Text)
build_argv absolutize cmd batch_file = elim (absolutize batch_file) [
  | ok path ↦ ok (cmd.srun_cmd ∷ path ∷ [])
  | err e ↦ err e
]

module _ {W : Type 0} where
  unfoldable pub run_job_with : (Text → Result Text Text) → SlurmCmd → Run W → Text → M W ℤ
  run_job_with absolutize cmd run batch_file = do
    argv ← lift (build_argv absolutize cmd batch_file)
    run argv

  unfoldable pub query_job_state : Capture W → ℕ → M W JobStatus
  query_job_state capture jobid = do
    states ← query_job_states_batch_with capture (jobid ∷ [])
    pure (elim (get jobid states) [ none ↦ default_status | some s ↦ s ])

-- `DryRunDispatcher`: what is printed is the world, the last line first.
unfoldable pub dry_run : Run (List Text)
dry_run argv printed = (ok (pos 0), join b' ' argv ∷ printed)

unfoldable pub dry_capture : Capture (List Text)
dry_capture argv printed =
    (ok (record { exit_code = pos 0; stdout = []; stderr = [] }), join b' ' argv ∷ printed)

unfoldable pub run_job :
    {W : Type 0}
    → (Text → Result Text Text)
    → SlurmCmd
    → Run W
    → Text
    → Bool
    → W × List Text
    → Result Text ℤ × (W × List Text)
unfolding run_job_with
run_job absolutize cmd run batch_file true (w, printed) = (
  (run_job_with absolutize cmd dry_run batch_file printed).0,
  (w, (run_job_with absolutize cmd dry_run batch_file printed).1),
)
run_job absolutize cmd run batch_file false (w, printed) = (
  (run_job_with absolutize cmd run batch_file w).0,
  ((run_job_with absolutize cmd run batch_file w).1, printed),
)

run_job_with-ok :
    {V : Type 0} (absolutize : Text → Result Text Text) (cmd : SlurmCmd) (run : Run V)
    (batch_file path : Text) (v : V)
    → absolutize batch_file ≡ ok path
    → run_job_with absolutize cmd run batch_file v ≡ run (cmd.srun_cmd ∷ path ∷ []) v
unfolding run_job_with build_argv
run_job_with-ok absolutize cmd run batch_file path v h =
    let built : build_argv absolutize cmd batch_file ≡ ok (cmd.srun_cmd ∷ path ∷ []) =
      rw (build_argv, h) refl in
    >>=-of_ok (lift (build_argv absolutize cmd batch_file)) run v v (cmd.srun_cmd ∷ path ∷ [])
      (ap (λ r. (r, v)) built)

-- A dry run starts nothing: the world of the dispatcher stays as it is. Where the path of the file can
-- be resolved it gives code zero and prints the command that a run without `dry_run` runs.
pub run_job-dry :
    {W : Type 0} (absolutize : Text → Result Text Text) (cmd : SlurmCmd) (run : Run W)
    (batch_file path : Text) (w : W) (printed : List Text)
    → absolutize batch_file ≡ ok path
    → (run_job absolutize cmd run batch_file true (w, printed)
        ≡ (ok (pos 0), (w, join b' ' (cmd.srun_cmd ∷ path ∷ []) ∷ printed)))
      × (run_job absolutize cmd run batch_file false (w, printed)
          ≡ ((run (cmd.srun_cmd ∷ path ∷ []) w).0, ((run (cmd.srun_cmd ∷ path ∷ []) w).1, printed)))
unfolding run_job dry_run
run_job-dry absolutize cmd run batch_file path w printed h = (
  ap (λ q. (q.0, (w, q.1))) (run_job_with-ok absolutize cmd dry_run batch_file path printed h),
  ap (λ q. (q.0, (q.1, printed))) (run_job_with-ok absolutize cmd run batch_file path w h),
)

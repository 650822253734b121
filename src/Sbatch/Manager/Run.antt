-- ===== src/Sbatch/Manager/Run.antt =====
-- src/sbatch/manager.rs (`run_with`, `cancel`): a job from its submission to its end.
use slurm_async_runner.Prelude.{
  ℕ, [], ◌∷◌, Option, none, some, if◌then◌else◌, Result, ok, err, ok_or, is_some,
}
use slurm_async_runner.Prelude.Text.{Text}
use slurm_async_runner.Prelude.Number.{show}
use slurm_async_runner.Dispatcher.{CaptureOutput, success, diagnostic, Effect, ◌>>=◌, lift, map_err}
use slurm_async_runner.Status.State.{JobState, completed}
use slurm_async_runner.Sbatch.Handle.{
  SbatchJobSnapshot, FinishedInfo, Services, Handle, refresh_with_sacct, wait_terminal,
}
use slurm_async_runner.Sbatch.Manager.{
  Environment, SbatchManager, SbatchRunError, spawn_error, wait_error, sacct_error,
  missing_finished, job_failed, array_not_supported, SbatchCancelError, scancel_failed,
  cancel_other, spawn,
}

abbrev pub verdict_of : JobState → FinishedInfo → Result SbatchRunError FinishedInfo
verdict_of completed f = ok f
verdict_of state f = err (job_failed state f.exit_code)

module _ {W : Type 0} (env : Environment W) where
  -- What a handle of this manager calls.
  abbrev pub handle_services : Services W
  handle_services = record { capture = env.handle_capture; save = env.store.save; now = env.now }

  -- From the last poll on.
  unfoldable pub conclude_run : ℕ → Effect SbatchRunError (Handle W) FinishedInfo
  conclude_run jobid = do
    snap ← map_err sacct_error (refresh_with_sacct handle_services)
    finished ← lift (ok_or snap.lifecycle.finished (missing_finished jobid))
    lift (verdict_of finished.final_state finished)

  unfoldable pub after_wait :
      ℕ
      → Option (Result Text SbatchJobSnapshot) × Handle W
      → Option (Result SbatchRunError FinishedInfo) × W
  after_wait jobid (none, h) = (none, h.world)
  after_wait jobid (some (err e), h) = (some (err (wait_error e)), h.world)
  after_wait jobid (some (ok snap), h) =
      (some (conclude_run jobid h).0, (conclude_run jobid h).1.world)

  -- From the submission on: `on_spawn` gets the job's number before the first poll.
  unfoldable pub after_spawn :
      (Handle W → Handle W)
      → ℕ
      → (ℕ → W → W)
      → Result SbatchRunError SbatchJobSnapshot × W
      → Option (Result SbatchRunError FinishedInfo) × W
  unfolding after_wait
  after_spawn sleep rounds on_spawn (err e, w) = (some (err e), w)
  after_spawn sleep rounds on_spawn (ok snap, w) = after_wait snap.jobid (
      wait_terminal handle_services sleep rounds
        (record { snapshot = snap; world = on_spawn snap.jobid w }))

  -- For a number of polls at most; `none` means that the job is still waited for.
  unfoldable pub run_with :
      SbatchManager
      → (Handle W → Handle W)
      → ℕ
      → (ℕ → W → W)
      → W
      → Option (Result SbatchRunError FinishedInfo) × W
  unfolding after_spawn
  run_with manager sleep rounds on_spawn w =
      if is_some manager.cmd.array_spec
      then (some (err array_not_supported), w)
      else after_spawn sleep rounds on_spawn (map_err spawn_error (spawn env manager.cmd) w)

  unfoldable pub cancel_result : CaptureOutput → Result SbatchCancelError (Unit {0})
  cancel_result out =
      if success out then ok tt else err (scancel_failed out.exit_code (diagnostic out))

  unfoldable pub cancel : SbatchManager → ℕ → Effect SbatchCancelError W (Unit {0})
  unfolding cancel_result
  cancel manager jobid = do
    out ← map_err cancel_other (env.capture (manager.scancel_bin ∷ show jobid ∷ []))
    lift (cancel_result out)

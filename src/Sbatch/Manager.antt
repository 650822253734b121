-- ===== src/Sbatch/Manager.antt =====
-- src/sbatch/manager.rs, src/sbatch/store.rs and src/sbatch/error.rs: submitting, attaching to and
-- cancelling jobs. A handle is its snapshot with the world around it.
pub mod Attach
pub mod Attached
pub mod Outcome
pub mod OnDisk
pub mod Spawn
pub mod Arrays
pub mod Run
use slurm_async_runner.Prelude.{
  ℕ, zero, suc, ◌+◌, List, [], ◌∷◌, ◌++◌, Option, none, some, Bool, true, false, not, ◌&&◌, ◌||◌,
  if◌then◌else◌, is_empty, is_some, Result, ok, err, ok_or, ltb, leb, length, keep,
}
use slurm_async_runner.Prelude.Text.{Text, codes, text_eq}
use slurm_async_runner.Prelude.Number.{show}
use slurm_async_runner.Prelude.Int.{ℤ}
use slurm_async_runner.Dispatcher.{
  CaptureOutput, success, diagnostic, Capture, Effect, M, ◌>>=◌, ◌>>◌, pure, lift, map_err,
}
use slurm_async_runner.Status.State.{JobState, completed}
use slurm_async_runner.Store.{JobSnapshot, JobStateStore, find_all_by_jobid}
use slurm_async_runner.Store.Envelope.{Json, Serde, kind_key}
use slurm_async_runner.Options.ArraySpec.{SlurmArraySpec}
use slurm_async_runner.Sbatch.Parse.{expand_array_indices}
use slurm_async_runner.Sbatch.Parse.Submitted.{parse_submitted_jobid}
use slurm_async_runner.Sbatch.Cmd.{
  SbatchCmd, SbatchSpawnError, other, submit_failed, jobid_parse_error, submitted_but_unpersisted,
  build_argv,
}
use slurm_async_runner.Sbatch.Handle.{
  SbatchJobSnapshot, SbatchLifecycle, LogPathSpec, FinishedInfo, Services, Handle,
  refresh_with_sacct, wait_terminal,
}

-- `impl JobSnapshot for SbatchJobSnapshot`.
abbrev pub sbatch_snapshot : JobSnapshot SbatchJobSnapshot
sbatch_snapshot = record { uuid = λ s. s.uuid; jobid = λ s. some s.jobid; kind = codes "sbatch" }

pub data SbatchAttachKey : Type 0 where
  by_uuid : (uuid : ℕ) → SbatchAttachKey
  by_job_id : (jobid : ℕ) → SbatchAttachKey
  by_file : (path : Text) → SbatchAttachKey

-- `NotFound` carries the key, which the source prints; the kind that is expected is always `sbatch`.
pub data SbatchAttachError : Type 0 where
  not_found : (key : SbatchAttachKey) → SbatchAttachError
  kind_mismatch : (got : Text) → SbatchAttachError
  multiple_match : (jobid count : ℕ) → SbatchAttachError
  attach_io : (message : Text) → SbatchAttachError

pub data SbatchRunError : Type 0 where
  spawn_error : SbatchSpawnError → SbatchRunError
  wait_error : (message : Text) → SbatchRunError
  sacct_error : (message : Text) → SbatchRunError
  missing_finished : (jobid : ℕ) → SbatchRunError
  job_failed : (state : JobState) (exit_code : Option ℤ) → SbatchRunError
  array_not_supported : SbatchRunError

pub data SbatchCancelError : Type 0 where
  scancel_failed : (exit_code : ℤ) (output : Text) → SbatchCancelError
  cancel_other : (message : Text) → SbatchCancelError

-- What the manager uses: its dispatcher, the cached one that its handles get, the store, the clock, the
-- generator of uuids, the file system for a snapshot's file, and `std::path::absolute`, which may ask
-- for the working directory of the process, so that the same path can fail at another time.
pub record Environment (W : Type 0) : Type 0 where
  pub capture : Capture W
  pub handle_capture : Capture W
  pub store : JobStateStore SbatchJobSnapshot W
  pub now : W → ℕ
  pub new_uuid : W → ℕ × W
  pub absolute : W → Text → Result Text Text
  pub read : Text → M W Text

pub record SbatchManager : Type 0 where
  pub cmd : SbatchCmd
  pub scancel_bin : Text

abbrev pub default_lifecycle : SbatchLifecycle
default_lifecycle = record {
  last_observed_state = none;
  last_observed_at = none;
  left_active_listing = false;
  finished = none;
}

abbrev pub new_snapshot : SbatchCmd → List Text → ℕ → Option ℕ → ℕ → Text → ℕ → SbatchJobSnapshot
new_snapshot cmd argv jobid task uuid script t = record {
  uuid = uuid;
  jobid = jobid;
  array_task_id = task;
  argv = argv;
  sent_env = cmd.env;
  script_path = script;
  chdir = cmd.chdir;
  partition = cmd.partition;
  job_name = cmd.job_name;
  submitted_at = t;
  log = record { output_template = cmd.output; error_template = cmd.error };
  lifecycle = default_lifecycle;
}

abbrev pub resolved : Result Text Text → Result SbatchSpawnError Text
resolved (ok path) = ok path
resolved (err e) = err (other e)

module _ {W : Type 0} (env : Environment W) where
  abbrev pub absolutize : W → Text → Result SbatchSpawnError Text
  absolutize w path = resolved (env.absolute w path)

  abbrev pub absolutize_step : Text → Effect SbatchSpawnError W Text
  absolutize_step path w = (absolutize w path, w)

  abbrev pub argv_step : SbatchCmd → Effect SbatchSpawnError W (List Text)
  argv_step cmd w = (build_argv (absolutize w) cmd, w)

  abbrev pub uuid_step : Effect SbatchSpawnError W ℕ
  uuid_step w = (ok (env.new_uuid w).0, (env.new_uuid w).1)

  abbrev clock : Effect SbatchSpawnError W ℕ
  clock w = (ok (env.now w), w)

  -- The number in the output of a submission that succeeded.
  unfoldable pub submitted_jobid : CaptureOutput → Result SbatchSpawnError ℕ
  submitted_jobid out =
      if success out
      then ok_or (parse_submitted_jobid out.stdout) (jobid_parse_error out.stdout)
      else err (submit_failed out.exit_code (diagnostic out))

  -- `sbatch`, and the number of the job.
  unfoldable pub submit : List Text → Effect SbatchSpawnError W ℕ
  submit argv = do out ← map_err other (env.capture argv); lift (submitted_jobid out)

  -- A snapshot for one job or one task, saved.
  unfoldable pub register :
      SbatchCmd → List Text → ℕ → Option ℕ → ℕ → Text → Effect SbatchSpawnError W SbatchJobSnapshot
  register cmd argv jobid task uuid script = do
    t ← clock
    map_err (submitted_but_unpersisted jobid)
        (env.store.save (new_snapshot cmd argv jobid task uuid script t))
    pure (new_snapshot cmd argv jobid task uuid script t)

  unfoldable pub spawn : SbatchCmd → Effect SbatchSpawnError W SbatchJobSnapshot
  spawn cmd = do
    argv ← argv_step cmd
    jobid ← submit argv
    uuid ← uuid_step
    script ← absolutize_step cmd.script
    register cmd argv jobid none uuid script

  -- The loop over the tasks.
  unfoldable pub register_tasks :
      SbatchCmd → List Text → ℕ → Text → List ℕ → Effect SbatchSpawnError W (List SbatchJobSnapshot)
  register_tasks cmd argv jobid script [] = pure []
  register_tasks cmd argv jobid script (index ∷ indices) =
      let rest = register_tasks cmd argv jobid script indices in
      do
        uuid ← uuid_step
        snap ← register cmd argv jobid (some index) uuid script
        snaps ← rest
        pure (snap ∷ snaps)

  unfoldable pub spawn_tasks :
      SbatchCmd → List ℕ → Effect SbatchSpawnError W (List SbatchJobSnapshot)
  spawn_tasks cmd indices =
      if is_empty indices
      then lift (err (other (codes "spawn_array: SlurmArraySpec yielded zero task indices")))
      else (do
        argv ← argv_step cmd
        jobid ← submit argv
        script ← absolutize_step cmd.script
        register_tasks cmd argv jobid script indices)

  abbrev map_option : {A B : Type 0} → (A → B) → Option A → Option B
  map_option f none = none
  map_option f (some a) = some (f a)

  -- `none` where the expansion of the array does not end.
  unfoldable pub spawn_array :
      SbatchCmd → SlurmArraySpec → Option (Effect SbatchSpawnError W (List SbatchJobSnapshot))
  spawn_array cmd spec =
      map_option (spawn_tasks (record cmd { array_spec = some spec })) (expand_array_indices spec)

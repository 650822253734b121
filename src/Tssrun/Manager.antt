-- ===== src/Tssrun/Manager.antt =====
-- src/tssrun/manager.rs and src/tssrun/error.rs: starting a job, attaching to one, asking for its state.
pub mod Attach
use slurm_async_runner.Prelude.{
  ℕ, List, [], ◌∷◌, Option, none, some, Bool, true, false, Result, ok, err, ok_or,
}
use slurm_async_runner.Prelude.Text.{Text}
use slurm_async_runner.Prelude.Int.{ℤ}
use slurm_async_runner.Dispatcher.{Capture, Effect, M, ◌>>=◌, pure, lift, map_err}
use slurm_async_runner.Status.{JobStatus, default_status}
use slurm_async_runner.Runner.{get}
use slurm_async_runner.Runner.Query.{query_job_states_batch_with}
use slurm_async_runner.Store.{JobStateStore, find_by_jobid}
use slurm_async_runner.Store.Envelope.{Json, Serde}
use slurm_async_runner.Tssrun.{TssrunCmd, build_argv}
use slurm_async_runner.Tssrun.Handle.{
  TssrunJobSnapshot, unlocated, tssrun_snapshot, find_by_pid, System, from_spawn,
}

pub data AttachKey : Type 0 where
  by_uuid : (uuid : ℕ) → AttachKey
  by_pid : (pid : ℕ) → AttachKey
  by_job_id : (jobid : ℕ) → AttachKey
  by_file : (path : Text) → AttachKey

-- The last is for a child without its pipes; the dispatcher starts none.
pub data TssrunSpawnError : Type 0 where
  argv_build : (message : Text) → TssrunSpawnError
  spawn_failed : (source : Text) → TssrunSpawnError
  spawn_other : (message : Text) → TssrunSpawnError

-- `NotFound` carries the key, which the source prints.
pub data TssrunAttachError : Type 0 where
  not_found : (key : AttachKey) → TssrunAttachError
  attach_io : (message : Text) → TssrunAttachError

-- What the manager uses: the dispatcher that starts a child and gives its pid, the one that answers
-- queries, the store, the clock, the generator of uuids, and the file system.
pub record Environment (W : Type 0) : Type 0 where
  pub start : List Text → List (Text × Text) → Option Text → M W ℕ
  pub capture : Capture W
  pub store : JobStateStore TssrunJobSnapshot W
  pub now_unix : W → ℤ
  pub new_uuid : W → ℕ × W
  pub absolutize : Text → Result Text Text
  pub read : Text → M W Text

abbrev pub first_snapshot : TssrunCmd → List Text → ℕ → ℕ → ℤ → TssrunJobSnapshot
first_snapshot cmd argv pid uuid t = record {
  uuid = uuid;
  pid = pid;
  argv = argv;
  sent_env = cmd.env;
  cwd = cmd.cwd;
  started_at_unix = t;
  log_locations = unlocated;
  jobid = none;
  node = none;
  finished = none;
}

module _ {W : Type 0} (env : Environment W) where
  abbrev pub saved : {A : Type 0} → Result Text A → Bool
  saved (ok a) = true
  saved (err e) = false

  -- `from_spawn`: the first save, whose error is a warning, and then the tasks.
  unfoldable pub start_tasks : TssrunJobSnapshot → Effect TssrunSpawnError W System
  start_tasks init w =
      (ok (from_spawn init (saved (env.store.save init w).0)), (env.store.save init w).1)

  abbrev uuid_step : Effect TssrunSpawnError W ℕ
  uuid_step w = (ok (env.new_uuid w).0, (env.new_uuid w).1)

  abbrev clock : Effect TssrunSpawnError W ℤ
  clock w = (ok (env.now_unix w), w)

  unfoldable pub spawn_with : TssrunCmd → Effect TssrunSpawnError W System
  spawn_with cmd = do
    argv ← map_err argv_build (lift (build_argv env.absolutize cmd))
    pid ← map_err spawn_failed (env.start argv cmd.env cmd.cwd)
    uuid ← uuid_step
    t ← clock
    start_tasks (first_snapshot cmd argv pid uuid t)

  -- A handle without a job's number has the default status.
  unfoldable pub query_state : TssrunJobSnapshot → M W JobStatus
  query_state snap = elim snap.jobid [
    | none ↦ pure default_status
    | some jid ↦ query_job_states_batch_with env.capture (jid ∷ []) >>= λ states.
        pure (elim (get jid states) [ none ↦ default_status | some s ↦ s ])
  ]

-- `serde_json::from_slice` is parsing and decoding; the kind of the envelope is not looked at.
module _ {W Value : Type 0} (json : Json Value) (serde : Serde Value TssrunJobSnapshot)
    (env : Environment W) where
  unfoldable pub attach : AttachKey → Effect TssrunAttachError W TssrunJobSnapshot
  attach (by_file path) = do
    bytes ← map_err attach_io (env.read path)
    value ← map_err attach_io (lift (json.from_slice bytes))
    map_err attach_io (lift (serde.from_value value))
  attach (by_uuid uuid) = do
    found ← map_err attach_io (env.store.load uuid)
    lift (ok_or found (not_found (by_uuid uuid)))
  attach (by_pid pid) = do
    found ← map_err attach_io (find_by_pid env.store pid)
    lift (ok_or found (not_found (by_pid pid)))
  attach (by_job_id jobid) = do
    found ← map_err attach_io (find_by_jobid tssrun_snapshot env.store jobid)
    lift (ok_or found (not_found (by_job_id jobid)))

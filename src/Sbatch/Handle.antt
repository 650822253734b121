-- ===== src/Sbatch/Handle.antt =====
-- src/sbatch/handle.rs: the snapshot of a job, and the operations of its handle. A handle's state is
-- the snapshot that its watch channel holds; the scheduler, the store and the clock are the world
-- around it. Each operation takes the handle's lock for its whole body, so it is one step here, and
-- `refresh_with_sacct`, which takes it twice, is two.
pub mod Effects
pub mod Refresh
pub mod Finalize
pub mod Wait
pub mod Amid
pub mod Log
use slurm_async_runner.Prelude.{
  ℕ, zero, suc, ◌+◌, List, [], ◌∷◌, Option, none, some, Bool, true, false, not, ◌&&◌, ◌||◌,
  if◌then◌else◌, Result, ok, err, leb, is_some,
}
use slurm_async_runner.Prelude.Text.{Text, codes}
use slurm_async_runner.Prelude.Int.{ℤ}
use slurm_async_runner.Dispatcher.{Capture, M, ◌>>=◌, ◌>>◌, pure}
use slurm_async_runner.Polling.{wait_loop}
use slurm_async_runner.Status.{JobStatus, default_status}
use slurm_async_runner.Status.State.{JobState, unknown}
use slurm_async_runner.Status.State
use slurm_async_runner.Status.Reason.{JobReason}
use slurm_async_runner.Runner.{Jobs, get, JobOutcome, no_outcome}
use slurm_async_runner.Runner.Query.{
  query_job_states_with_exit_code_with, query_job_states_via_qgroup_with,
  query_job_states_squeue_only_with, query_array_task_state_with, query_array_task_outcome_with,
}

pub record LogPathSpec : Type 0 where
  pub output_template : Option Text
  pub error_template : Option Text

-- A time is the clock's count.
pub record FinishedInfo : Type 0 where
  pub final_state : JobState
  pub final_reason : JobReason
  pub exit_code : Option ℤ
  pub finished_at : ℕ

pub record SbatchLifecycle : Type 0 where
  pub last_observed_state : Option JobStatus
  pub last_observed_at : Option ℕ
  pub left_active_listing : Bool
  pub finished : Option FinishedInfo

pub record SbatchJobSnapshot : Type 0 where
  pub uuid : ℕ
  pub jobid : ℕ
  pub array_task_id : Option ℕ
  pub argv : List Text
  pub sent_env : List (Text × Text)
  pub script_path : Text
  pub chdir : Option Text
  pub partition : Option Text
  pub job_name : Option Text
  pub submitted_at : ℕ
  pub log : LogPathSpec
  pub lifecycle : SbatchLifecycle

abbrev pub state_holds : (JobState → Bool) → Option JobStatus → Bool
state_holds p none = false
state_holds p (some s) = p s.state

-- `SbatchLifecycle::is_running`.
abbrev pub is_running : SbatchLifecycle → Bool
is_running l =
    if l.left_active_listing then false else state_holds State.is_running l.last_observed_state

abbrev pub is_finished : SbatchLifecycle → Bool
is_finished l = is_some l.finished

abbrev finished_code : Option FinishedInfo → Option ℤ
finished_code none = none
finished_code (some f) = f.exit_code

-- `SbatchLifecycle::exit_code`.
abbrev pub exit_code : SbatchLifecycle → Option ℤ
exit_code l = finished_code l.finished

-- What the handle calls: the dispatcher, `JobStateStore::save` and `Utc::now`.
pub record Services (W : Type 0) : Type 0 where
  pub capture : Capture W
  pub save : SbatchJobSnapshot → M W (Unit {0})
  pub now : W → ℕ

pub record Handle (W : Type 0) : Type 0 where
  pub snapshot : SbatchJobSnapshot
  pub world : W

-- The three ways in which a snapshot changes.
abbrev pub observed : JobStatus → ℕ → SbatchJobSnapshot → SbatchJobSnapshot
observed s t snap = record snap {
  lifecycle = record snap.lifecycle { last_observed_state = some s; last_observed_at = some t };
}

abbrev pub vanished : ℕ → SbatchJobSnapshot → SbatchJobSnapshot
vanished t snap = record snap {
  lifecycle = record snap.lifecycle { left_active_listing = true; last_observed_at = some t };
}

abbrev pub reappeared : JobStatus → ℕ → SbatchJobSnapshot → SbatchJobSnapshot
reappeared s t snap = record snap {
  lifecycle = record snap.lifecycle {
    left_active_listing = false;
    last_observed_state = some s;
    last_observed_at = some t;
  };
}

abbrev pub finished_with : JobOutcome → ℕ → SbatchJobSnapshot → SbatchJobSnapshot
finished_with o t snap = record snap {
  lifecycle = record snap.lifecycle {
    finished = some (record {
      final_state = o.status.state;
      final_reason = o.status.reason;
      exit_code = o.exit_code;
      finished_at = t;
    });
  };
}

-- What a lookup found, or that the job has left the listings.
abbrev pub seen : Option JobStatus → ℕ → SbatchJobSnapshot → SbatchJobSnapshot
seen none t snap = vanished t snap
seen (some s) t snap = observed s t snap

abbrev pub is_unknown : JobState → Bool
is_unknown unknown = true
is_unknown _ = false

-- A terminal state was observed, or the job has left the listings.
abbrev pub settled : SbatchLifecycle → Bool
settled l = state_holds State.is_terminal l.last_observed_state || l.left_active_listing

module _ {W : Type 0} where
  -- A call to the world around the handle.
  abbrev pub outside : {A : Type 0} → M W A → M (Handle W) A
  outside m h = ((m h.world).0, record h { world = (m h.world).1 })

  -- An error counts as the value given.
  abbrev pub or_else : {A : Type 0} → M W A → A → M W A
  or_else m d w = elim (m w).0 [ ok a ↦ (ok a, (m w).1) | err e ↦ (ok d, (m w).1) ]

  abbrev pub borrow : M (Handle W) SbatchJobSnapshot
  borrow h = (ok h.snapshot, h)

  abbrev pub send_replace : SbatchJobSnapshot → M (Handle W) (Unit {0})
  send_replace snap h = (ok tt, record h { snapshot = snap })

module _ {W : Type 0} (services : Services W) where
  abbrev pub clock : M (Handle W) ℕ
  clock h = (ok (services.now h.world), h)

  -- `store.save(&snap).await?; snapshot_tx.send_replace(snap.clone()); Ok(snap)`
  pub publish : SbatchJobSnapshot → M (Handle W) SbatchJobSnapshot
  publish snap = do outside (services.save snap); send_replace snap; pure snap

  refresh_task : SbatchJobSnapshot → ℕ → ℕ → M (Handle W) SbatchJobSnapshot
  unfolding publish
  refresh_task snap t index = do
    task ← outside (query_array_task_state_with services.capture snap.jobid index)
    publish (seen task t snap)

  -- `squeue`, where `qgroup` has no row for the job.
  refresh_squeue : SbatchJobSnapshot → ℕ → Option JobStatus → M (Handle W) SbatchJobSnapshot
  unfolding publish
  refresh_squeue snap t (some s) = publish (observed s t snap)
  refresh_squeue snap t none = do
    squeue ← outside (query_job_states_squeue_only_with services.capture (snap.jobid ∷ []))
    publish (seen (get snap.jobid squeue) t snap)

  refresh_job : SbatchJobSnapshot → ℕ → M (Handle W) SbatchJobSnapshot
  unfolding refresh_squeue
  refresh_job snap t = do
    qgroup ←
        outside (or_else (query_job_states_via_qgroup_with services.capture (snap.jobid ∷ [])) [])
    refresh_squeue snap t (get snap.jobid qgroup)

  -- The choice between a task of an array and a job.
  refresh_from : SbatchJobSnapshot → ℕ → Option ℕ → M (Handle W) SbatchJobSnapshot
  unfolding refresh_task refresh_job
  refresh_from snap t none = refresh_job snap t
  refresh_from snap t (some index) = refresh_task snap t index

  unfoldable pub refresh : M (Handle W) SbatchJobSnapshot
  unfolding refresh_from
  refresh = do snap ← borrow; t ← clock; refresh_from snap t snap.array_task_id

  abbrev or_no_outcome : Option JobOutcome → JobOutcome
  or_no_outcome none = no_outcome
  or_no_outcome (some o) = o

  sacct_outcome : SbatchJobSnapshot → Option ℕ → M W JobOutcome
  sacct_outcome snap none = do
    map ← query_job_states_with_exit_code_with services.capture (snap.jobid ∷ [])
    pure (or_no_outcome (get snap.jobid map))
  sacct_outcome snap (some index) = do
    found ← query_array_task_outcome_with services.capture snap.jobid index
    pure (or_no_outcome found)

  -- What is recorded of an outcome.
  pub record_outcome : SbatchJobSnapshot → JobOutcome → M (Handle W) SbatchJobSnapshot
  unfolding publish
  record_outcome snap o =
      if is_unknown o.status.state && not (is_some o.exit_code)
      then pure snap
      else if not (is_unknown o.status.state) && not (State.is_terminal o.status.state)
      then (do t ← clock; publish (reappeared o.status t snap))
      else (do t ← clock; publish (finished_with o t snap))

  -- The part of `refresh_with_sacct` behind the second acquisition of the lock; `snap` is what
  -- `refresh` returned.
  unfoldable pub finalize : SbatchJobSnapshot → M (Handle W) SbatchJobSnapshot
  unfolding sacct_outcome record_outcome
  finalize snap =
      if is_finished snap.lifecycle
      then pure snap
      else if not (settled snap.lifecycle)
      then pure snap
      else (do o ← outside (sacct_outcome snap snap.array_task_id); record_outcome snap o)

  -- The lock is released between the two parts: another clone of the handle may come in, and do
  -- whatever it does to the channel and the world.
  unfoldable pub refresh_with_sacct_amid : (Handle W → Handle W) → M (Handle W) SbatchJobSnapshot
  unfolding refresh finalize
  refresh_with_sacct_amid others = do snap ← refresh; (λ h. (ok tt, others h)); finalize snap

  -- The same, where no other clone comes in.
  unfoldable pub refresh_with_sacct : M (Handle W) SbatchJobSnapshot
  unfolding refresh_with_sacct_amid
  refresh_with_sacct = refresh_with_sacct_amid (λ h. h)

  -- `wait_terminal`, for a number of polls at most.
  abbrev pub wait_terminal :
      (Handle W → Handle W) → ℕ → Handle W → Option (Result Text SbatchJobSnapshot) × Handle W
  wait_terminal sleep rounds h = wait_loop refresh (λ snap. settled snap.lifecycle) sleep rounds 0 h

-- ===== src/Status.antt =====
-- src/entities/slurm/status.rs: the state and the reason that the scheduler reports.
pub mod State
pub mod Reason
use slurm_async_runner.Status.State.{JobState}
use slurm_async_runner.Status.Reason.{JobReason}

pub record JobStatus : Type 0 where
  pub state : JobState
  pub reason : JobReason

-- `JobStatus::default()`.
abbrev pub default_status : JobStatus
default_status = record { state = JobState.unknown; reason = JobReason.none }

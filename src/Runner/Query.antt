-- ===== src/Runner/Query.antt =====
-- src/runner.rs: the queries that run the scheduler's commands, over any dispatcher.
pub mod Merge
use slurm_async_runner.Prelude.{
  ℕ, List, [], ◌∷◌, ◌++◌, Option, none, some, Bool, true, false, not, if◌then◌else◌, is_empty, keep,
  is_some, ok,
}
use slurm_async_runner.Prelude.Text.{Text, codes}
use slurm_async_runner.Prelude.Number.{show}
use slurm_async_runner.Dispatcher.{CaptureOutput, Capture, M, ◌>>=◌, ◌>>◌, pure, lift}
use slurm_async_runner.Status.{JobStatus, default_status}
use slurm_async_runner.Runner.{
  Jobs, get, insert, JobOutcome, no_outcome, ensure_query_success, squeue_reports_vanished,
  parse_squeue, parse_sacct, parse_sacct_with_exit_code, parse_qgroup_l, parse_squeue_array_task,
  parse_sacct_array_task_with_exit_code, dedupe_preserving_order, csv_join, merge_results, member,
  resolve,
}

-- The argument lists of the commands.
unfoldable pub squeue_argv : Text → List Text
squeue_argv keys =
    codes "squeue"
    ∷ codes "-h"
    ∷ codes "-r"
    ∷ codes "-j"
    ∷ keys
    ∷ codes "-o"
    ∷ codes "%i %T %r"
    ∷ []

sacct_argv_of : Text → Text → List Text
sacct_argv_of columns keys =
    codes "sacct" ∷ codes "-P" ∷ codes "-n" ∷ codes "-j" ∷ keys ∷ codes "-o" ∷ columns ∷ []

unfoldable pub sacct_state_argv : Text → List Text
unfolding sacct_argv_of
sacct_state_argv = sacct_argv_of (codes "JobID,State,Reason")

unfoldable pub sacct_exit_argv : Text → List Text
unfolding sacct_argv_of
sacct_exit_argv = sacct_argv_of (codes "JobID,State,Reason,ExitCode")

unfoldable pub qgroup_argv : List Text
qgroup_argv = codes "qgroup" ∷ codes "-l" ∷ []

-- `<master>_<index>`.
unfoldable pub task_key : ℕ → ℕ → Text
task_key master index = show master ++ b'_' ∷ show index

-- The jobs that squeue did not report.
abbrev pub missing_from : {V : Type 0} → Jobs V → List ℕ → List ℕ
missing_from active = keep (λ j. not (is_some (get j active)))

-- The outcome of one job: active jobs have no exit code.
active_outcome : Option JobStatus → Option JobOutcome
active_outcome none = none
active_outcome (some s) = some (record { status = s; exit_code = none })

merge_outcomes : List ℕ → Jobs JobStatus → Jobs JobOutcome → Jobs JobOutcome
unfolding resolve active_outcome
merge_outcomes [] active history = []
merge_outcomes (j ∷ js) active history =
    insert j (resolve (active_outcome (get j active)) (get j history) no_outcome)
      (merge_outcomes js active history)

module _ {W : Type 0} (capture : Capture W) where
  -- The listing of squeue, which is empty where squeue reports that every job has vanished.
  active_jobs : List ℕ → M W (Jobs JobStatus)
  active_jobs unique = do
    out ← capture (squeue_argv (csv_join unique))
    if squeue_reports_vanished out
        then pure []
        else (do lift (ensure_query_success (codes "squeue") out); pure (parse_squeue out.stdout))

  history_of : {V : Type 0} → (List Text) → (Text → Jobs V) → M W (Jobs V)
  history_of argv read = do
    out ← capture argv
    lift (ensure_query_success (codes "sacct") out)
    pure (read out.stdout)

  state_history : List ℕ → M W (Jobs JobStatus)
  unfolding history_of
  state_history missing =
      if is_empty missing
      then pure []
      else history_of (sacct_state_argv (csv_join missing)) parse_sacct

  unfoldable pub query_job_states_batch_with : List ℕ → M W (Jobs JobStatus)
  unfolding active_jobs state_history
  query_job_states_batch_with jobids = if is_empty jobids then pure [] else (do
    let unique = dedupe_preserving_order jobids
    active ← active_jobs unique
    history ← state_history (missing_from active unique)
    pure (merge_results jobids active history))

  exit_history : List ℕ → M W (Jobs JobOutcome)
  unfolding history_of
  exit_history missing =
      if is_empty missing
      then pure []
      else history_of (sacct_exit_argv (csv_join missing)) parse_sacct_with_exit_code

  unfoldable pub query_job_states_with_exit_code_with : List ℕ → M W (Jobs JobOutcome)
  unfolding active_jobs exit_history merge_outcomes
  query_job_states_with_exit_code_with jobids = if is_empty jobids then pure [] else (do
    let unique = dedupe_preserving_order jobids
    active ← active_jobs unique
    history ← exit_history (missing_from active unique)
    pure (merge_outcomes jobids active history))

  unfoldable pub query_job_states_via_qgroup_with : List ℕ → M W (Jobs JobStatus)
  query_job_states_via_qgroup_with jobids = if is_empty jobids then pure [] else (do
    out ← capture qgroup_argv
    lift (ensure_query_success (codes "qgroup") out)
    pure (keep (λ entry. member entry.0 jobids) (parse_qgroup_l out.stdout)))

  unfoldable pub query_job_states_squeue_only_with : List ℕ → M W (Jobs JobStatus)
  unfolding active_jobs
  query_job_states_squeue_only_with jobids =
      if is_empty jobids then pure [] else active_jobs (dedupe_preserving_order jobids)

  unfoldable pub query_array_task_state_with : ℕ → ℕ → M W (Option JobStatus)
  query_array_task_state_with master index = do
    let key = task_key master index
    out ← capture (squeue_argv key)
    if squeue_reports_vanished out then pure none else (do
      lift (ensure_query_success (codes "squeue") out)
      pure (parse_squeue_array_task out.stdout key))

  unfoldable pub query_array_task_outcome_with : ℕ → ℕ → M W (Option JobOutcome)
  query_array_task_outcome_with master index = do
    let key = task_key master index
    out ← capture (sacct_exit_argv (show master))
    lift (ensure_query_success (codes "sacct") out)
    pure (parse_sacct_array_task_with_exit_code out.stdout key)

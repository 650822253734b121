-- ===== src/Tests/Handle.antt =====
-- The theorems on the handle, applied to schedulers whose answers are fixed; the world counts the calls.
use slurm_async_runner.Prelude.{
  ℕ, suc, ◌+◌, List, [], ◌∷◌, ◌++◌, Option, none, some, Bool, true, false, if◌then◌else◌, ok, err,
  ◌≡◌, refl, ltb, is_some, arith,
}
use slurm_async_runner.Prelude.Text.{Text, codes, text_eq, split, split_once, contains, join}
use slurm_async_runner.Prelude.Words.{lines, words, trim, splitn, split_where}
use slurm_async_runner.Prelude.Number.{parse_uint, unsigned, show}
use slurm_async_runner.Prelude.Int.{pos, parse_i32}
use slurm_async_runner.Dispatcher.{M}
use slurm_async_runner.Status.{JobStatus}
use slurm_async_runner.Status.State.{running, completed}
use slurm_async_runner.Status.State
use slurm_async_runner.Status.Reason
use slurm_async_runner.Status.Reason.{JobReason}
use slurm_async_runner.Runner.{
  JobOutcome, ensure_query_success, squeue_reports_vanished, get, parse_qgroup_l, parse_squeue,
  dedupe_preserving_order, parse_sacct_with_exit_code, parse_sacct_exit_code, csv_join,
}
use slurm_async_runner.Runner.Query.{
  query_job_states_via_qgroup_with, query_job_states_squeue_only_with,
  query_job_states_with_exit_code_with, qgroup_argv, squeue_argv, sacct_exit_argv,
}
use slurm_async_runner.Polling.{wait_loop}
use slurm_async_runner.Polling.Laws.{wait_loop-tolerates, wait_loop-ends}
use slurm_async_runner.Sbatch.Handle.{
  SbatchJobSnapshot, FinishedInfo, Handle, Services, finalize, refresh, refresh_with_sacct, seen,
  vanished, finished_with, wait_terminal,
}
use slurm_async_runner.Sbatch.Handle.Refresh.{Finds, refresh-ok, refresh-err}
use slurm_async_runner.Sbatch.Handle.Log.{read_last_lines, last_lines}
use slurm_async_runner.Sbatch.Handle.Log.Tail.{DecodeIsLawful, read_last_lines_lem}
use slurm_async_runner.Sbatch.Handle.Finalize.{
  IsConcluded, refresh_with_sacct-ok, refresh_with_sacct-finished,
}

is_sacct : List Text → Bool
is_sacct [] = false
is_sacct (program ∷ args) = text_eq program (codes "sacct")

-- No command can be run.
abbrev broken : Services ℕ
broken = record {
  capture = λ argv w. (err (codes "no such file"), w + 1);
  save = λ snap w. (ok tt, w + 1);
  now = λ w. w;
}

-- The job has left the active listings, and sacct has its row.
abbrev over : Services ℕ
over = record {
  capture = λ argv w. (
    ok (record {
      exit_code = pos 0;
      stdout = if is_sacct argv then codes "7|COMPLETED|None|0:0" else [];
      stderr = [];
    }),
    w + 1,
  );
  save = λ snap w. (ok tt, w + 1);
  now = λ w. w;
}

abbrev submitted : SbatchJobSnapshot
submitted = record {
  uuid = 1;
  jobid = 7;
  array_task_id = none;
  argv = codes "sbatch" ∷ [];
  sent_env = [];
  script_path = codes "job.sh";
  chdir = none;
  partition = none;
  job_name = none;
  submitted_at = 0;
  log = record { output_template = none; error_template = none };
  lifecycle = record {
    last_observed_state = none;
    last_observed_at = none;
    left_active_listing = false;
    finished = none;
  };
}

abbrev start : Handle ℕ
start = record { snapshot = submitted; world = 0 }

refresh_fails :
    refresh broken start ≡ (err (codes "no such file"), record { snapshot = submitted; world = 2 })
unfolding refresh query_job_states_via_qgroup_with query_job_states_squeue_only_with qgroup_argv
    squeue_argv ensure_query_success squeue_reports_vanished get parse_qgroup_l parse_squeue lines
    split is_sacct text_eq
refresh_fails = refl

refresh-err_example : submitted ≡ submitted
refresh-err_example =
    refresh-err broken start (record { snapshot = submitted; world = 2 }) (codes "no such file")
      refresh_fails

refresh_leaves :
    refresh over start
    ≡ (ok (vanished 0 submitted), record { snapshot = vanished 0 submitted; world = 3 })
unfolding refresh query_job_states_via_qgroup_with query_job_states_squeue_only_with qgroup_argv
    squeue_argv ensure_query_success squeue_reports_vanished get parse_qgroup_l parse_squeue lines
    split is_sacct text_eq
refresh_leaves = refl

refresh-ok_example :
    (vanished 0 submitted ≡ vanished 0 submitted)
    × ((o : Option JobStatus) × Finds over 7 none 0 o × (vanished 0 submitted ≡ seen o 0 submitted))
refresh-ok_example =
    refresh-ok over start (record { snapshot = vanished 0 submitted; world = 3 })
      (vanished 0 submitted) refresh_leaves

abbrev outcome : JobOutcome
outcome = record {
  status = record { state = completed; reason = JobReason.none };
  exit_code = some (pos 0);
}

abbrev resolved : SbatchJobSnapshot
resolved = finished_with outcome 5 (vanished 0 submitted)

over_with_sacct :
    refresh_with_sacct over start ≡ (ok resolved, record { snapshot = resolved; world = 6 })
unfolding refresh_with_sacct query_job_states_via_qgroup_with query_job_states_squeue_only_with
    qgroup_argv squeue_argv ensure_query_success squeue_reports_vanished get parse_qgroup_l
    parse_squeue lines split is_sacct text_eq finalize refresh query_job_states_with_exit_code_with
    dedupe_preserving_order sacct_exit_argv parse_sacct_with_exit_code parse_sacct_exit_code
    parse_i32 parse_uint unsigned splitn split_once contains State.parse Reason.parse trim words
    split_where csv_join join show
over_with_sacct = refl

refresh_with_sacct-ok_example : (resolved ≡ resolved) × IsConcluded submitted resolved
refresh_with_sacct-ok_example =
    refresh_with_sacct-ok over start (record { snapshot = resolved; world = 6 }) resolved
      over_with_sacct

abbrev end_of_job : FinishedInfo
end_of_job = record {
  final_state = completed;
  final_reason = JobReason.none;
  exit_code = some (pos 0);
  finished_at = 5;
}

refresh_with_sacct-finished_example :
    (refresh_with_sacct broken
      (record { snapshot = resolved; world = 9 })).1.snapshot.lifecycle.finished
    ≡ some end_of_job
refresh_with_sacct-finished_example =
    refresh_with_sacct-finished broken (record { snapshot = resolved; world = 9 }) end_of_job refl

over_wait :
    wait_terminal over (λ h. h) 1 start
    ≡ (some (ok (vanished 0 submitted)), record { snapshot = vanished 0 submitted; world = 3 })
unfolding wait_loop refresh query_job_states_via_qgroup_with query_job_states_squeue_only_with
    qgroup_argv squeue_argv ensure_query_success squeue_reports_vanished get parse_qgroup_l
    parse_squeue lines split is_sacct text_eq
over_wait = refl

-- A refresh that fails before time 2 and then returns the time.
abbrev late : M ℕ ℕ
late t = if ltb t 2 then (err (codes "busy"), t) else (ok t, t)

wait_loop-tolerates_example : wait_loop late (λ s. true) suc 3 0 0 ≡ (some (ok 2), 2)
wait_loop-tolerates_example =
    wait_loop-tolerates late (λ s. true) suc 2 0 2 2 (omega arith) (refl, (refl, tt)) refl refl

wait_loop-ends_example : is_some (wait_loop late (λ s. true) suc 3 0 0).0 ≡ true
wait_loop-ends_example = wait_loop-ends late (λ s. true) suc 2 0 0 2 2 refl refl

abbrev never : M ℕ ℕ
never t = (err (codes "busy"), t)

-- A log of plain text.
plain-DecodeIsLawful : DecodeIsLawful (λ s. s)
plain-DecodeIsLawful = record { decode-feed = λ p s. refl }

abbrev log_file : Text
log_file = codes "one" ++ 10 ∷ (codes "two" ++ 10 ∷ codes "three")

read_last_lines_example : read_last_lines (λ s. s) log_file 2 ≡ last_lines 2 (lines log_file)
read_last_lines_example = read_last_lines_lem (λ s. s) plain-DecodeIsLawful log_file 2

-- ===== src/Tests/Runner.antt =====
-- The theorems on the queries, applied to a scheduler whose answers are fixed.
use slurm_async_runner.Prelude.{
  ℕ, ◌+◌, List, [], ◌∷◌, none, some, Bool, false, ok, ◌≡◌, refl, is_some, if◌then◌else◌,
}
use slurm_async_runner.Prelude.Text.{
  Text, codes, text_eq, contains, contains_text, join, split_once, split,
}
use slurm_async_runner.Prelude.Words.{lines, words, trim, splitn, split_where}
use slurm_async_runner.Prelude.Number.{show, parse_uint, unsigned}
use slurm_async_runner.Prelude.Int.{pos, show_ℤ, parse_i32}
use slurm_async_runner.Dispatcher.{Capture}
use slurm_async_runner.Status.{JobStatus}
use slurm_async_runner.Status.State.{running, completed, unknown}
use slurm_async_runner.Status.State
use slurm_async_runner.Status.Reason
use slurm_async_runner.Status.Reason.{JobReason}
use slurm_async_runner.Runner.{
  Jobs, JobOutcome, get, member, dedupe_preserving_order, merge_results, parse_squeue, parse_sacct,
  parse_sacct_with_exit_code, parse_sacct_exit_code, ensure_query_success, squeue_reports_vanished,
  csv_join,
}
use slurm_async_runner.Runner.Query.{
  squeue_argv, sacct_state_argv, sacct_exit_argv, query_job_states_batch_with,
  query_job_states_with_exit_code_with,
}
use slurm_async_runner.Runner.Query.Merge.{
  query_job_states_batch_with_lem, query_job_states_with_exit_code_with_lem,
}

is_squeue : List Text → Bool
is_squeue [] = false
is_squeue (program ∷ args) = text_eq program (codes "squeue")

-- Job 7 runs, job 8 has completed; the world counts the calls.
abbrev scheduler : Text → Capture ℕ
scheduler history argv calls = (
  ok (record {
    exit_code = pos 0;
    stdout = if is_squeue argv then codes "7 RUNNING None" else history;
    stderr = [];
  }),
  calls + 1,
)

abbrev reported : Jobs JobStatus
reported =
    (7, record { state = running; reason = JobReason.none })
    ∷ (8, record { state = completed; reason = JobReason.none })
    ∷ (9, record { state = unknown; reason = JobReason.none })
    ∷ []

two_calls :
    query_job_states_batch_with (scheduler (codes "8|COMPLETED|None")) (7 ∷ 8 ∷ 9 ∷ []) 0
    ≡ (ok reported, 2)
unfolding query_job_states_batch_with words parse_uint merge_results State.parse Reason.parse
    parse_sacct parse_squeue trim sacct_state_argv sacct_exit_argv squeue_argv splitn show_ℤ show
    unsigned contains contains_text join split_once split_where csv_join text_eq
    ensure_query_success squeue_reports_vanished dedupe_preserving_order get
    parse_sacct_with_exit_code parse_sacct_exit_code parse_i32 lines split is_squeue
two_calls = refl

query_job_states_batch_with_example : is_some (get 8 reported) ≡ member 8 (7 ∷ 8 ∷ 9 ∷ [])
query_job_states_batch_with_example =
    query_job_states_batch_with_lem (scheduler (codes "8|COMPLETED|None")) (7 ∷ 8 ∷ 9 ∷ []) 0 2
      reported two_calls 8

abbrev outcomes : Jobs JobOutcome
outcomes =
    (7, record { status = record { state = running; reason = JobReason.none }; exit_code = none })
    ∷ (
      8,
      record {
        status = record { state = completed; reason = JobReason.none };
        exit_code = some (pos 0);
      },
    )
    ∷ []

two_outcomes :
    query_job_states_with_exit_code_with (scheduler (codes "8|COMPLETED|None|0:0")) (7 ∷ 8 ∷ []) 0
    ≡ (ok outcomes, 2)
unfolding query_job_states_with_exit_code_with words parse_uint merge_results State.parse
    Reason.parse parse_sacct parse_squeue trim sacct_state_argv sacct_exit_argv squeue_argv splitn
    show_ℤ show unsigned contains contains_text join split_once split_where csv_join text_eq
    ensure_query_success squeue_reports_vanished dedupe_preserving_order get
    parse_sacct_with_exit_code parse_sacct_exit_code parse_i32 lines split is_squeue
two_outcomes = refl

query_job_states_with_exit_code_with_example : is_some (get 8 outcomes) ≡ member 8 (7 ∷ 8 ∷ [])
query_job_states_with_exit_code_with_example =
    query_job_states_with_exit_code_with_lem (scheduler (codes "8|COMPLETED|None|0:0")) (7 ∷ 8 ∷ [])
      0 2 outcomes two_outcomes 8

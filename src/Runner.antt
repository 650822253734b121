-- ===== src/Runner.antt =====
-- src/runner.rs: the parsers of the scheduler's listings.
pub mod Query
use slurm_async_runner.Prelude.{
  ℕ, ◌+◌, List, [], ◌∷◌, ◌++◌, map, Option, none, some, Bool, true, false, not, ◌&&◌, ◌||◌,
  if◌then◌else◌, Result, ok, err, ◌==◌, is_some, leb, ◌-◌, ◌^◌, keep,
}
use slurm_async_runner.Prelude.Text.{
  Text, codes, text_eq, contains, contains_text, join, split_once,
}
use slurm_async_runner.Prelude.Words.{words, lines, splitn, trim}
use slurm_async_runner.Prelude.Number.{max_u64, parse_uint, show}
use slurm_async_runner.Prelude.Int.{ℤ, pos, negsuc, parse_i32, show_ℤ, max_i32}
use slurm_async_runner.Dispatcher.{CaptureOutput, success, is_zero}
use slurm_async_runner.Status.{JobStatus, default_status}
use slurm_async_runner.Status.State
use slurm_async_runner.Status.Reason
use slurm_async_runner.Status.Reason.{JobReason}

-- A `HashMap` by job: the entry that was inserted last stands first.
abbrev pub Jobs : Type 0 → Type 0
Jobs V = List (ℕ × V)

module _ {V : Type 0} where
  unfoldable pub get : ℕ → Jobs V → Option V
  get k [] = none
  get k ((j, v) ∷ m) = if k == j then some v else get k m

  abbrev pub insert : ℕ → V → Jobs V → Jobs V
  insert k v m = (k, v) ∷ m

pub record JobOutcome : Type 0 where
  pub status : JobStatus
  pub exit_code : Option ℤ

abbrev pub no_outcome : JobOutcome
no_outcome = record { status = default_status; exit_code = none }

unfoldable pub ensure_query_success : Text → CaptureOutput → Result Text (Unit {0})
ensure_query_success tool out =
    if success out
    then ok tt
    else err (
        b'`'
        ∷ (tool
            ++ (codes "` exited with "
                ++ (show_ℤ out.exit_code ++ (codes ": " ++ trim out.stderr)))))

unfoldable pub squeue_reports_vanished : CaptureOutput → Bool
squeue_reports_vanished out =
    not (success out) && contains_text (codes "Invalid job id specified") out.stderr

-- `for line in text.lines()` with one insertion at most for each line.
fold_lines : {V : Type 0} → (Text → Option (ℕ × V)) → List Text → Jobs V → Jobs V
fold_lines f [] m = m
fold_lines f (l ∷ ls) m = elim (f l) [
  | none ↦ fold_lines f ls m
  | some (j, v) ↦ fold_lines f ls (insert j v m)
]

abbrev pub status_of : Text → Text → JobStatus
status_of state reason = record { state = State.parse state; reason = Reason.parse reason }

-- The third word, or the empty text.
abbrev pub first_or : List Text → Text
first_or [] = []
first_or (r ∷ rs) = r

abbrev keyed : {V : Type 0} → Option ℕ → V → Option (ℕ × V)
keyed none v = none
keyed (some j) v = some (j, v)

squeue_words : List Text → Option (ℕ × JobStatus)
squeue_words (jid ∷ state ∷ rest) = keyed (parse_uint max_u64 jid) (status_of state (first_or rest))
squeue_words _ = none

squeue_row : Text → Option (ℕ × JobStatus)
unfolding squeue_words
squeue_row line = squeue_words (words line)

unfoldable pub parse_squeue : Text → Jobs JobStatus
unfolding fold_lines squeue_row
parse_squeue text = fold_lines squeue_row (lines text) []

sacct_fields : List Text → Option (ℕ × JobStatus)
sacct_fields (jid ∷ state ∷ rest) =
    if contains b'.' jid
    then none
    else keyed (parse_uint max_u64 jid) (status_of state (first_or rest))
sacct_fields _ = none

sacct_row : Text → Option (ℕ × JobStatus)
unfolding sacct_fields
sacct_row line = sacct_fields (splitn 3 b'|' line)

unfoldable pub parse_sacct : Text → Jobs JobStatus
unfolding fold_lines sacct_row
parse_sacct text = fold_lines sacct_row (lines text) []

-- `128 + signal` in `i32`, which wraps around where overflow is not checked.
add_128 : ℤ → ℤ
add_128 (pos n) = if leb (128 + n) max_i32 then pos (128 + n) else negsuc (2 ^ 32 - (128 + n) - 1)
add_128 (negsuc n) = if leb n 127 then pos (127 - n) else negsuc (n - 128)

exit_of : ℤ → ℤ → ℤ
unfolding add_128
exit_of exit signal = if is_zero signal then exit else add_128 signal

exit_parts : Option ℤ → Option ℤ → Option ℤ
unfolding exit_of
exit_parts none _ = none
exit_parts (some exit) none = none
exit_parts (some exit) (some signal) = some (exit_of exit signal)

-- `parse_sacct_exit_code` of src/sbatch/parse.rs: `<exit>:<signal>`.
unfoldable pub parse_sacct_exit_code : Text → Option ℤ
unfolding exit_parts
parse_sacct_exit_code field = elim (split_once b':' field) [
  | none ↦ none
  | some (exit_s, signal_s) ↦ exit_parts (parse_i32 exit_s) (parse_i32 signal_s)
]

abbrev exit_field : List Text → Option ℤ
exit_field (reason ∷ exit ∷ rest) = parse_sacct_exit_code exit
exit_field _ = none

outcome_of : Text → List Text → JobOutcome
outcome_of state rest = record {
  status = status_of state (first_or rest);
  exit_code = exit_field rest;
}

outcome_fields : List Text → Option (ℕ × JobOutcome)
unfolding outcome_of
outcome_fields (jid ∷ state ∷ rest) =
    if contains b'.' jid then none else keyed (parse_uint max_u64 jid) (outcome_of state rest)
outcome_fields _ = none

outcome_row : Text → Option (ℕ × JobOutcome)
unfolding outcome_fields
outcome_row line = outcome_fields (splitn 4 b'|' line)

unfoldable pub parse_sacct_with_exit_code : Text → Jobs JobOutcome
unfolding fold_lines outcome_row
parse_sacct_with_exit_code text = fold_lines outcome_row (lines text) []

-- A job number of zero marks a summary row.
abbrev nonzero_job : Option ℕ → Option ℕ
nonzero_job none = none
nonzero_job (some j) = if j == 0 then none else some j

qgroup_words : List Text → Option (ℕ × JobStatus)
qgroup_words (queue ∷ user ∷ jobid ∷ state ∷ rest) =
    keyed (nonzero_job (parse_uint max_u64 jobid))
      (record { state = State.parse state; reason = JobReason.none })
qgroup_words _ = none

qgroup_row : Text → Option (ℕ × JobStatus)
unfolding qgroup_words
qgroup_row line = qgroup_words (keep (λ t. not (text_eq t (codes "|"))) (words line))

unfoldable pub parse_qgroup_l : Text → Jobs JobStatus
unfolding fold_lines qgroup_row
parse_qgroup_l text = fold_lines qgroup_row (lines text) []

-- The first row whose key is the one that was asked for.
first_match : {V : Type 0} → (Text → Option V) → List Text → Option V
first_match f [] = none
first_match f (l ∷ ls) = let rest = first_match f ls in elim (f l) [ none ↦ rest | some v ↦ some v ]

task_words : Text → List Text → Option JobStatus
task_words key (jid ∷ state ∷ rest) =
    if text_eq jid key then some (status_of state (first_or rest)) else none
task_words key _ = none

unfoldable pub parse_squeue_array_task : Text → Text → Option JobStatus
unfolding first_match task_words
parse_squeue_array_task text key = first_match (λ line. task_words key (words line)) (lines text)

task_fields : Text → List Text → Option JobOutcome
unfolding outcome_of
task_fields key (jid ∷ state ∷ rest) =
    if text_eq jid key then some (outcome_of state rest) else none
task_fields key _ = none

unfoldable pub parse_sacct_array_task_with_exit_code : Text → Text → Option JobOutcome
unfolding first_match task_fields
parse_sacct_array_task_with_exit_code text key =
    first_match (λ line. task_fields key (splitn 4 b'|' line)) (lines text)

-- `HashSet::insert` in the filter of `dedupe_preserving_order`.
abbrev pub member : ℕ → List ℕ → Bool
member k [] = false
member k (x ∷ xs) = k == x || member k xs

dedupe_from : List ℕ → List ℕ → List ℕ
dedupe_from seen [] = []
dedupe_from seen (j ∷ js) =
    if member j seen then dedupe_from seen js else j ∷ dedupe_from (j ∷ seen) js

unfoldable pub dedupe_preserving_order : List ℕ → List ℕ
unfolding dedupe_from
dedupe_preserving_order ids = dedupe_from [] ids

unfoldable pub csv_join : List ℕ → Text
csv_join ids = join b',' (map show ids)

-- The status of one job: active, else history, else unknown.
resolve : {V : Type 0} → Option V → Option V → V → V
resolve (some a) h d = a
resolve none (some h) d = h
resolve none none d = d

unfoldable pub merge_results : List ℕ → Jobs JobStatus → Jobs JobStatus → Jobs JobStatus
unfolding resolve
merge_results [] active history = []
merge_results (j ∷ js) active history =
    insert j (resolve (get j active) (get j history) default_status)
      (merge_results js active history)

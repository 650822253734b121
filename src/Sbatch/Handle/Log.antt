-- ===== src/Sbatch/Handle/Log.antt =====
-- src/sbatch/handle.rs (`log_lines`, `read_log_to_end`, `read_last_lines`) and `resolve_log_path_with`
-- of src/sbatch/parse.rs: the path of a job's log, and its last lines. A file is the list of its bytes.
pub mod Tail
use slurm_async_runner.Prelude.{
  ℕ, zero, suc, ◌+◌, ◌-◌, List, [], ◌∷◌, ◌++◌, Option, none, some, Bool, true, false, ◌&&◌,
  if◌then◌else◌, ◌==◌, ltb, leb, length, Result, ok, err,
}
use slurm_async_runner.Prelude.Text.{Text}
use slurm_async_runner.Prelude.Words.{lines}
use slurm_async_runner.Prelude.Number.{show}
use slurm_async_runner.Store.Disk.{IoError, not_found, other}
use slurm_async_runner.Sbatch.Handle.{SbatchJobSnapshot}

-- `s.replace("%x", to)`.
unfoldable pub replace_variable : ℕ → Text → Text → Text
replace_variable x to [] = []
replace_variable x to (c ∷ []) = c ∷ []
replace_variable x to (c ∷ d ∷ s) =
    let found = replace_variable x to s in
    let later = replace_variable x to (d ∷ s) in
    if c == b'%' && d == x then to ++ found else c ∷ later

abbrev replace_optional : ℕ → Option Text → Text → Text
replace_optional x none s = s
replace_optional x (some to) s = replace_variable x to s

abbrev show_index : Option ℕ → Option Text
show_index none = none
show_index (some index) = some (show index)

unfoldable pub resolve_log_path_with : Text → ℕ → Option ℕ → Option Text → Text → Text → Text
unfolding replace_variable
resolve_log_path_with template jobid array_task_id job_name user hostname =
    replace_variable b'N' hostname (
      replace_variable b'u' user (
        replace_optional b'x' job_name (
          replace_optional b'a' (show_index array_task_id)
            (replace_variable b'j' (show jobid) (replace_variable b'A' (show jobid) template)))))

pub data LogStream : Type 0 where
  stdout stderr : LogStream

pub data LogReadError : Type 0 where
  path_not_resolved : LogReadError
  log_io : (message : Text) → LogReadError

abbrev pub template_of : LogStream → SbatchJobSnapshot → Option Text
template_of stdout snap = snap.log.output_template
template_of stderr snap = snap.log.error_template

-- `output_path` and `error_path`.
unfoldable pub log_path : Text → Text → LogStream → SbatchJobSnapshot → Option Text
log_path user hostname stream snap = elim (template_of stream snap) [
  | none ↦ none
  | some t ↦
      some (resolve_log_path_with t snap.jobid snap.array_task_id snap.job_name user hostname)
]

abbrev pub tail_read_chunk : ℕ
tail_read_chunk = 8192

abbrev pub take : ℕ → Text → Text
take zero s = []
take (suc n) [] = []
take (suc n) (c ∷ s) = c ∷ take n s

abbrev pub drop {ℓ} : {A : Type ℓ} → ℕ → List A → List A
drop zero s = s
drop (suc n) [] = []
drop (suc n) (c ∷ s) = drop n s

-- `iter().filter(|b| b == '\n').count()`.
unfoldable pub count_feeds : Text → ℕ
count_feeds [] = 0
count_feeds (c ∷ s) = let rest = count_feeds s in if c == 10 then suc rest else rest

abbrev pub read_len : ℕ → ℕ
read_len pos = if leb tail_read_chunk pos then tail_read_chunk else pos

-- The loop that reads backwards, for a number of rounds at most.
unfoldable pub read_back : Text → ℕ → ℕ → ℕ → Text → Text
read_back file n zero pos buf = buf
read_back file n (suc rounds) pos buf =
    let start = pos - read_len pos in
    let buf' = take (read_len pos) (drop start file) ++ buf in
    let rest = read_back file n rounds start buf' in
    if pos == 0 then buf else if ltb n (count_feeds buf') then buf' else rest

-- `if lines.len() > n { lines.drain(..lines.len() - n) }`.
abbrev pub last_lines : ℕ → List Text → List Text
last_lines n ls = if ltb n (length ls) then drop (length ls - n) ls else ls

-- `decode` is `String::from_utf8_lossy`. A round reads one byte at least, so the length of the file is
-- enough for the rounds.
unfoldable pub read_last_lines : (Text → Text) → Text → ℕ → List Text
unfolding read_back
read_last_lines decode file n =
    if n == 0
    then []
    else last_lines n (lines (decode (read_back file n (length file) (length file) [])))

-- What the file system says of the log's path.
unfoldable pub log_lines :
    (Text → Text)
    → (Text → Result IoError Text)
    → Text
    → Text
    → LogStream
    → ℕ
    → SbatchJobSnapshot
    → Result LogReadError (List Text)
log_lines decode read user hostname stream n snap = elim (log_path user hostname stream snap) [
  | none ↦ err path_not_resolved
  | some path ↦ elim (read path) [
    | ok file ↦ ok (read_last_lines decode file n)
    | err not_found ↦ ok []
    | err (other message) ↦ if n == 0 then ok [] else err (log_io message)
  ]
]

unfoldable pub read_log_to_end :
    (Text → Result IoError Text)
    → Text
    → Text
    → LogStream
    → SbatchJobSnapshot
    → Result LogReadError Text
read_log_to_end read user hostname stream snap = elim (log_path user hostname stream snap) [
  | none ↦ err path_not_resolved
  | some path ↦ elim (read path) [
    | ok file ↦ ok file
    | err not_found ↦ ok []
    | err (other message) ↦ err (log_io message)
  ]
]

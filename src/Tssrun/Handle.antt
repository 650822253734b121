-- ===== src/Tssrun/Handle.antt =====
-- src/tssrun/handle.rs and src/tssrun/store.rs: the snapshot of a tssrun job, and the tasks that keep it
-- up to date: one for each stream of the child, and one that waits for it. They share the watch channel
-- and the store and run at the same time; a move is what one of them does between two points at which
-- another may come in between.
pub mod Identity
pub mod Drain
pub mod Race
use slurm_async_runner.Prelude.{
  ℕ, List, [], ◌∷◌, ◌++◌, Option, none, some, Bool, true, false, not, ◌&&◌, ◌||◌, Result, ok, err,
  is_some, ◌==◌, ◌≡◌,
}
use slurm_async_runner.Prelude.Text.{Text, codes}
use slurm_async_runner.Prelude.Int.{ℤ}
use slurm_async_runner.Dispatcher.{M, ◌>>=◌, pure}
use slurm_async_runner.Store.{JobSnapshot, JobStateStore, find}
use slurm_async_runner.Tssrun.{parse_salloc_jobid, parse_salloc_node}

pub data LogLocations : Type 0 where
  unlocated : LogLocations
  files : (stdout stderr : Text) → LogLocations

pub record FinishedInfo : Type 0 where
  pub exit_code : Option ℤ
  pub finished_at_unix : ℤ

pub record TssrunJobSnapshot : Type 0 where
  pub uuid : ℕ
  pub pid : ℕ
  pub argv : List Text
  pub sent_env : List (Text × Text)
  pub cwd : Option Text
  pub started_at_unix : ℤ
  pub log_locations : LogLocations
  pub jobid : Option ℕ
  pub node : Option Text
  pub finished : Option FinishedInfo

abbrev pub is_finished : TssrunJobSnapshot → Bool
is_finished s = is_some s.finished

abbrev pub is_running : TssrunJobSnapshot → Bool
is_running s = not (is_finished s)

abbrev pub exit_code : TssrunJobSnapshot → Option ℤ
exit_code s = elim s.finished [ none ↦ none | some f ↦ f.exit_code ]

-- `impl JobSnapshot for TssrunJobSnapshot`.
abbrev pub tssrun_snapshot : JobSnapshot TssrunJobSnapshot
tssrun_snapshot = record { uuid = λ s. s.uuid; jobid = λ s. s.jobid; kind = codes "tssrun" }

unfoldable pub find_by_pid :
    {W : Type 0} → JobStateStore TssrunJobSnapshot W → ℕ → M W (Option TssrunJobSnapshot)
find_by_pid store pid = do snaps ← store.list; pure (find (λ s. s.pid == pid) snaps)

pub data LogStream : Type 0 where
  stdout stderr : LogStream

-- A field that is set once: the old value stays, and the flag says whether there was none.
abbrev pub set_once : {A : Type 0} → Option A → Option A → Option A
set_once none old = old
set_once (some a) none = some a
set_once (some a) (some b) = some b

abbrev pub updates : {A : Type 0} → Option A → Option A → Bool
updates none old = false
updates (some a) old = not (is_some old)

-- A task of `tee_lines`, between two of its moves.
pub data Tee : Type 0 where
  reading : Tee
  parsing : (line : Text) → Tee
  jobid_parsed : (line : Text) (updated : Bool) → Tee
  node_parsed : (updated : Bool) → Tee
  persisting : (snap : TssrunJobSnapshot) → Tee
  ended : Tee
  failed : Tee

-- The task that waits for the child.
pub data Waiter : Type 0 where
  waiting : Waiter
  recorded : (code : Option ℤ) → Waiter
  persisting_exit : (code : Option ℤ) (snap : TssrunJobSnapshot) → Waiter
  returned : (result : Result Text (Option ℤ)) → Waiter

-- The watch channel, the store's entry of the job, and the lines that were read and given to the log
-- sink.
pub record Shared : Type 0 where
  pub channel : TssrunJobSnapshot
  pub stored : Option TssrunJobSnapshot
  pub lines : List (LogStream × Text)

-- The lines of one stream among those of both.
abbrev pub lines_of : LogStream → List (LogStream × Text) → List Text
lines_of stdout [] = []
lines_of stderr [] = []
lines_of stdout ((stdout, line) ∷ read) = line ∷ lines_of stdout read
lines_of stdout ((stderr, line) ∷ read) = lines_of stdout read
lines_of stderr ((stdout, line) ∷ read) = lines_of stderr read
lines_of stderr ((stderr, line) ∷ read) = line ∷ lines_of stderr read

-- What the code does not decide: whether somebody refreshes the handle, whether a save can fail, and
-- what the child writes to each stream until it closes it.
pub record Surroundings : Type 0 where
  pub may_refresh : Bool
  pub may_fail : Bool
  pub content : LogStream → List Text

-- `tee_lines`. A failed save is a warning. The loop ends where the stream does, behind its last line,
-- and at an error of the stream, which may come at any time.
pub data TeeMove (g : Surroundings) (stream : LogStream) (m : Shared)
    : Tee → Shared → Tee → Type 0 where
  read_line :
      (line : Text) (rest : List Text)
      → g.content stream ≡ lines_of stream m.lines ++ line ∷ rest
      → TeeMove g stream m reading
          (record m { lines = m.lines ++ (stream, line) ∷ [] })
          (parsing line)
  set_jobid :
      (line : Text)
      → TeeMove g stream m
          (parsing line)
          (record m {
            channel = record m.channel {
              jobid = set_once (parse_salloc_jobid line) m.channel.jobid;
            };
          })
          (jobid_parsed line (updates (parse_salloc_jobid line) m.channel.jobid))
  set_node :
      (line : Text) (updated : Bool)
      → TeeMove g stream m
          (jobid_parsed line updated)
          (record m {
            channel = record m.channel { node = set_once (parse_salloc_node line) m.channel.node };
          })
          (node_parsed (updated || updates (parse_salloc_node line) m.channel.node))
  copy_update : TeeMove g stream m (node_parsed true) m (persisting m.channel)
  no_update : TeeMove g stream m (node_parsed false) m reading
  persist :
      (snap : TssrunJobSnapshot)
      → TeeMove g stream m (persisting snap) (record m { stored = some snap }) reading
  persist_failed :
      (snap : TssrunJobSnapshot)
      → g.may_fail ≡ true
      → TeeMove g stream m (persisting snap) m reading
  stream_end : g.content stream ≡ lines_of stream m.lines → TeeMove g stream m reading m ended
  read_error : TeeMove g stream m reading m failed

abbrev pub finished_with : Option ℤ → ℤ → TssrunJobSnapshot → TssrunJobSnapshot
finished_with code t snap = record snap {
  finished = some (record { exit_code = code; finished_at_unix = t });
}

-- The task that `from_spawn` starts for the child's end.
pub data WaitMove (g : Surroundings) (m : Shared) : Waiter → Shared → Waiter → Type 0 where
  exit :
      (code : Option ℤ) (t : ℤ)
      → WaitMove g m waiting (record m { channel = finished_with code t m.channel }) (recorded code)
  exit_failed : (e : Text) → WaitMove g m waiting m (returned (err e))
  copy_exit : (code : Option ℤ) → WaitMove g m (recorded code) m (persisting_exit code m.channel)
  persist_exit :
      (code : Option ℤ) (snap : TssrunJobSnapshot)
      → WaitMove g m
          (persisting_exit code snap)
          (record m { stored = some snap })
          (returned (ok code))
  persist_exit_failed :
      (code : Option ℤ) (snap : TssrunJobSnapshot)
      → g.may_fail ≡ true
      → WaitMove g m (persisting_exit code snap) m (returned (ok code))

-- Whether `wait_handle` was taken, and what `wait` returned.
pub data Owner : Type 0 where
  owning : Owner
  joining : Owner
  drained : (result : Result Text (Option ℤ)) → Owner

-- The tasks, the owner of the handle, and the snapshots that a `refresh` has loaded and not yet sent.
pub record System : Type 0 where
  pub shared : Shared
  pub stdout_tee : Tee
  pub stderr_tee : Tee
  pub waiter : Waiter
  pub owner : Owner
  pub loaded : List TssrunJobSnapshot

-- The tasks that `wait` joins are done behind the end and behind an error of their stream.
abbrev pub tee_done : Tee → Bool
tee_done ended = true
tee_done failed = true
tee_done reading = false
tee_done (parsing line) = false
tee_done (jobid_parsed line updated) = false
tee_done (node_parsed updated) = false
tee_done (persisting snap) = false

-- One move of the job's tasks or of its handle. A `refresh` loads the stored snapshot and later sends
-- what it loaded; several may be under way.
pub data Step (g : Surroundings) (s : System) : System → Type 0 where
  tee_stdout :
      {m : Shared} {t : Tee}
      → TeeMove g stdout s.shared s.stdout_tee m t
      → Step g s (record s { shared = m; stdout_tee = t })
  tee_stderr :
      {m : Shared} {t : Tee}
      → TeeMove g stderr s.shared s.stderr_tee m t
      → Step g s (record s { shared = m; stderr_tee = t })
  wait_task :
      {m : Shared} {t : Waiter}
      → WaitMove g s.shared s.waiter m t
      → Step g s (record s { shared = m; waiter = t })
  refresh_loaded :
      (snap : TssrunJobSnapshot)
      → g.may_refresh ≡ true
      → s.shared.stored ≡ some snap
      → Step g s (record s { loaded = snap ∷ s.loaded })
  refresh_sent :
      (snap : TssrunJobSnapshot) (before after : List TssrunJobSnapshot)
      → g.may_refresh ≡ true
      → s.loaded ≡ before ++ snap ∷ after
      → Step g s
          (record s { shared = record s.shared { channel = snap }; loaded = before ++ after })
  wait_called : s.owner ≡ owning → Step g s (record s { owner = joining })
  wait_returned :
      (result : Result Text (Option ℤ))
      → s.owner ≡ joining
      → tee_done s.stdout_tee ≡ true
      → tee_done s.stderr_tee ≡ true
      → s.waiter ≡ returned result
      → Step g s (record s { owner = drained result })

pub data Steps (g : Surroundings) (s : System) : System → Type 0 where
  here : Steps g s s
  next : {t u : System} → Steps g s t → Step g t u → Steps g s u

-- `from_spawn`, behind the initial save, which may have failed.
abbrev pub from_spawn : TssrunJobSnapshot → Bool → System
from_spawn init saved = record {
  shared = record {
    channel = init;
    stored = elim saved [ true ↦ some init | false ↦ none ];
    lines = [];
  };
  stdout_tee = reading;
  stderr_tee = reading;
  waiter = waiting;
  owner = owning;
  loaded = [];
}

pub data TssrunWaitError : Type 0 where
  not_owner : TssrunWaitError
  other : (message : Text) → TssrunWaitError

-- The first line of `wait`: `self.wait_handle.take().ok_or(NotOwner)?`.
unfoldable pub take_wait : System → Result TssrunWaitError System
take_wait s = elim s.owner [
  | owning ↦ ok (record s { owner = joining })
  | joining ↦ err not_owner
  | drained result ↦ err not_owner
]

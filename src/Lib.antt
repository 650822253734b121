-- ===== src/Lib.antt =====
-- Verification of slurm-async-runner, an asynchronous client of the Slurm scheduler: it parses and
-- prints the options of `sbatch` and `tssrun`, runs the scheduler's commands through a dispatcher,
-- reads their listings and tracks the state of the jobs that it submitted.
--
-- The parts, and the files that model them:
--
-- - Prelude: text as a list of character codes with the string operations that the parsers use
--   (`split`, `split_once`, `trim`, `split_whitespace`, `lines`, `str::parse` of the integers, and
--   `Display`), results with `?`, and the laws of these. Integers are natural numbers with the bound
--   of their width as a test (`parse_uint max_u32`).
-- - Schema: the parse error (src/error.rs).
-- - Options: the option values of src/entities/slurm/sbatch_options/ (ArraySpec, Dependency, Signal,
--   Resources, TimeLimit) and the mail types of sbatch_options.rs (Mail). For each, `show_...` is the
--   `Display` impl and `parse_...` the `FromStr` impl; the serde and `TryFrom` impls only call these.
--   The conversions with `chrono` take that library as a parameter (TimeLimit/Delta).
-- - Status: states and reasons (src/entities/slurm/status.rs).
-- - Dispatcher: the output of a command and the effect of running one (src/dispatcher.rs). The
--   dispatcher is a parameter: any function that maps arguments and a world to a result and a world.
-- - Runner: the parsers of the listings of squeue, sacct and qgroup, and the queries that run these
--   commands (src/runner.rs, and `parse_sacct_exit_code` of src/sbatch/parse.rs).
-- - Sbatch/Parse: the expansion of an array option into task indices, and the job number in the output
--   of `sbatch` (src/sbatch/parse.rs). The loop of the expansion
--   over a stepped range runs on fuel, the end of the range plus two rounds, which a positive step
--   does not use up.
-- - Sbatch/Cmd: the arguments of an `sbatch` call and the rendering of the environment
--   (src/sbatch/cmd.rs); making a path absolute is a parameter.
-- - Sbatch/QueryCache: the dispatcher that answers queries from a shared batched cache
--   (src/sbatch/query_cache.rs) over any query shape, and the shape of the squeue query
--   (src/sbatch/squeue_cache.rs). The slot's lock is held for a whole query, so a query is one step
--   on the slot; a clock is a function of the world. The order of a `HashMap` does not matter, since
--   the keys are sorted. The doubled lifetime does not saturate.
-- - Sbatch/Handle and Polling: the handle of a job (src/sbatch/handle.rs): `refresh`,
--   `refresh_with_sacct` and the polling loop of `wait_terminal`. The handle's state is the snapshot
--   in its watch channel; scheduler, store and clock are services with a world of their own. Each
--   locked section is one step; between the two of `refresh_with_sacct` other clones of the handle may do
--   anything (`refresh_with_sacct_amid`, Sbatch/Handle/Amid), and `refresh_with_sacct` is the case in
--   which they do nothing. The polling loop has no bound in the source; it runs here for a given
--   number of rounds, with theorems on how many are enough. What happens during its pauses is any
--   function of the state.
-- - Sbatch/Handle/Log: the path of a job's log and its last lines (src/sbatch/handle.rs,
--   `resolve_log_path_with` of src/sbatch/parse.rs). A file is the list of its bytes and does not change
--   while it is read; `String::from_utf8_lossy` is a parameter, of which only its behaviour at a line
--   feed is relied on. The loop that reads backwards runs on fuel, the length of the file, and every
--   round reads one byte at least.
-- - Store: snapshots and stores of them (src/store.rs). Store/Memory is the store in memory, a map with
--   its entries in some order; Store/Envelope is the JSON document with its kind and its version;
--   Store/Disk is the store in a directory. `serde_json`, the serde impls of the snapshots, the file
--   system and the text of a uuid are parameters, with what is relied on as records of laws
--   (`JsonIsLawful`, `SerdeIsLawful`, `FileSystemIsLawful`, `NamesAreLawful`), which the tests fill. The
--   serde impls need not read back what they wrote: the law names what they read, since the impls of
--   src/entities/slurm/status.rs read a reason by its text. Of the file system only the entries of one
--   directory are told apart by their names. Writing a file is one step, since the source renames a
--   temporary file; the text of error messages is left out.
-- - Sbatch/QueryCache/Sacct and Sbatch/QueryCache/Layers: the shapes of the sacct and the qgroup query
--   (src/sbatch/sacct_cache.rs, src/sbatch/qgroup_cache.rs), and the three caches as
--   `handle_dispatcher` of src/sbatch/manager.rs puts them one inside the other.
-- - Sbatch/Manager: submitting, attaching, running and cancelling (src/sbatch/manager.rs,
--   src/sbatch/store.rs, src/sbatch/error.rs). The dispatchers, the store, the clock, the generator of
--   uuids and the file system are an `Environment`; a handle is its snapshot. A path is made absolute in
--   the world of that moment, so that it may fail later where it did not before. `run_with` polls for a
--   number of rounds that is given; the source has no bound there.
-- - Tssrun: the arguments and the lines of `salloc` (src/tssrun/cmd.rs, src/tssrun/parse.rs);
--   Tssrun/Handle: the tasks that keep a job's snapshot up to date (src/tssrun/handle.rs), as a step
--   relation in which the two stream tasks, the task that waits for the child and the owner of the
--   handle make their moves in any order; between two moves of a task another may come in wherever
--   the source has a point of suspension or another lock. What the child writes to its streams, whether
--   a save can fail and whether somebody refreshes are the `Surroundings` of a run; a refresh loads a
--   snapshot in one move and sends it in a later one. Tssrun/Refresh: the handle's `refresh` with
--   nothing in between, and its polling loop, for a number of rounds that is given. Tssrun/Manager:
--   src/tssrun/manager.rs. Tssrun/LiveEnv: `parse_environ` and `read_live_env_for_pid`, with
--   `str::from_utf8` as a parameter.
-- - SlurmManager: running one batch file, and dry runs (src/manager.rs, `DryRunDispatcher` of
--   src/dispatcher.rs).
-- - JobManager: the interfaces that the two managers and the two handles share (src/job_manager.rs,
--   src/handle.rs), and how they fill them.
-- - Tests: the theorems at concrete inputs.
--
-- Not modelled: the Python bindings (src/py_export/) and the stub generator (src/bin/), which
-- convert and forward; the dispatchers that run processes; the sinks for log lines; paths that are no
-- text; concurrent steps inside a lock's section; a task that panics; the messages of logging.
pub mod Prelude
pub mod Schema
pub mod Status
pub mod Dispatcher
pub mod Runner
pub mod Polling
pub mod Options
pub mod Store
pub mod Sbatch
pub mod Tssrun
pub mod SlurmManager
pub mod JobManager
pub mod Tests

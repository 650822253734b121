-- ===== src/Sbatch/Cmd.antt =====
-- src/sbatch/cmd.rs: the arguments of an `sbatch` call, and src/sbatch/error.rs: why there are none.
pub mod Export
use slurm_async_runner.Prelude.{
  ℕ, List, [], ◌∷◌, ◌++◌, Option, none, some, Bool, true, false, ◌||◌, ◌&&◌, if◌then◌else◌,
  is_empty, Result, ok, err, ◌>>=◌, ◌>>◌, refuse_if, ltb, ◌==◌,
}
use slurm_async_runner.Prelude.Text.{Text, codes, contains}
use slurm_async_runner.Prelude.Int.{ℤ, show_ℤ}
use slurm_async_runner.Options.ArraySpec.{SlurmArraySpec, show_spec}
use slurm_async_runner.Options.Dependency.{SlurmDependency, show_dependency}
use slurm_async_runner.Options.Signal.{SlurmSignalSpec, show_signal}
use slurm_async_runner.Options.Resources.{ResourceSpec, show_resources}
use slurm_async_runner.Options.TimeLimit.{JobTimeLimit, show_limit}
use slurm_async_runner.Options.Mail.{MailTypeInput, show_mail_types}

-- `SbatchSpawnError`; building the arguments gives the first three.
pub data SbatchSpawnError : Type 0 where
  invalid_export_key : (key : Text) → SbatchSpawnError
  invalid_export_value : (key value : Text) → SbatchSpawnError
  other : (message : Text) → SbatchSpawnError
  submit_failed : (exit_code : ℤ) (output : Text) → SbatchSpawnError
  jobid_parse_error : (stdout : Text) → SbatchSpawnError
  submitted_but_unpersisted : (jobid : ℕ) (source : Text) → SbatchSpawnError

-- The environment is a map: its keys are distinct.
pub record SbatchCmd : Type 0 where
  pub sbatch_bin : Text
  pub job_name : Option Text
  pub partition : Option Text
  pub time_limit : Option JobTimeLimit
  pub rsc : Option ResourceSpec
  pub output : Option Text
  pub error : Option Text
  pub chdir : Option Text
  pub array_spec : Option SlurmArraySpec
  pub dependency : Option SlurmDependency
  pub mail_user : Option Text
  pub mail_types : Option MailTypeInput
  pub signal : Option SlurmSignalSpec
  pub env : List (Text × Text)
  pub no_requeue : Bool
  pub comment : Option Text
  pub nice : Option ℤ
  pub script : Text
  pub args : List Text

-- The order of `String`.
abbrev pub text_before : Text → Text → Bool
text_before [] t = true
text_before (c ∷ s) [] = false
text_before (c ∷ s) (d ∷ t) = ltb c d || (c == d && text_before s t)

insert_entry : Text × Text → List (Text × Text) → List (Text × Text)
insert_entry e [] = e ∷ []
insert_entry e (f ∷ fs) = if text_before e.0 f.0 then e ∷ f ∷ fs else f ∷ insert_entry e fs

-- `keys.sort()`, each key with its value.
unfoldable pub sort_entries : List (Text × Text) → List (Text × Text)
unfolding insert_entry
sort_entries [] = []
sort_entries (e ∷ es) = insert_entry e (sort_entries es)

abbrev pub forbidden : Text → Bool
forbidden s = contains b',' s || contains b'=' s

abbrev pub show_entry : Text × Text → Text
show_entry e = e.0 ++ b'=' ∷ e.1

-- The loop of `render_export` with what it has written.
render_entries : Text → List (Text × Text) → Result SbatchSpawnError Text
render_entries out [] = ok out
render_entries out (e ∷ es) = do
  refuse_if (forbidden e.0) (invalid_export_key e.0)
  refuse_if (forbidden e.1) (invalid_export_value e.0 e.1)
  render_entries (out ++ b',' ∷ show_entry e) es

unfoldable pub render_export : List (Text × Text) → Result SbatchSpawnError Text
unfolding render_entries
render_export env = render_entries (codes "ALL") (sort_entries env)

-- Parts of the arguments, one behind the other.
abbrev flatten : List (List Text) → List Text
flatten [] = []
flatten (part ∷ parts) = part ++ flatten parts

-- An option and its value.
abbrev flag : {A : Type 0} → Text → (A → Text) → Option A → List Text
flag name show none = []
flag name show (some a) = name ∷ show a ∷ []

abbrev unless_empty : Text → Text → List Text
unless_empty name [] = []
unless_empty name (c ∷ s) = name ∷ (c ∷ s) ∷ []

abbrev rsc_flag : Option ResourceSpec → List Text
rsc_flag none = []
rsc_flag (some r) = unless_empty (codes "--rsc") (show_resources r)

abbrev nice_flag : Option ℤ → List Text
nice_flag none = []
nice_flag (some n) = (codes "--nice=" ++ show_ℤ n) ∷ []

-- `absolutize` resolves a path against the working directory, which may fail.
module _ (absolutize : Text → Result SbatchSpawnError Text) where
  unfoldable pub chdir_flag : Option Text → Result SbatchSpawnError (List Text)
  chdir_flag none = ok []
  chdir_flag (some c) = do path ← absolutize c; ok (codes "--chdir" ∷ path ∷ [])

  unfoldable pub export_flag : List (Text × Text) → Result SbatchSpawnError (List Text)
  export_flag [] = ok []
  export_flag (e ∷ es) = do text ← render_export (e ∷ es); ok ((codes "--export=" ++ text) ∷ [])

  unfoldable pub build_argv : SbatchCmd → Result SbatchSpawnError (List Text)
  unfolding chdir_flag export_flag
  build_argv cmd = do
    chdir ← chdir_flag cmd.chdir
    export ← export_flag cmd.env
    script ← absolutize cmd.script
    ok (
        flatten (
          (cmd.sbatch_bin ∷ [])
          ∷ flag (codes "-J") (λ t. t) cmd.job_name
          ∷ flag (codes "-p") (λ t. t) cmd.partition
          ∷ flag (codes "-t") show_limit cmd.time_limit
          ∷ rsc_flag cmd.rsc
          ∷ flag (codes "-o") (λ t. t) cmd.output
          ∷ flag (codes "-e") (λ t. t) cmd.error
          ∷ chdir
          ∷ flag (codes "-a") show_spec cmd.array_spec
          ∷ export
          ∷ flag (codes "-d") show_dependency cmd.dependency
          ∷ flag (codes "--mail-user") (λ t. t) cmd.mail_user
          ∷ flag (codes "--mail-type") show_mail_types cmd.mail_types
          ∷ flag (codes "--signal") show_signal cmd.signal
          ∷ (if cmd.no_requeue then codes "--no-requeue" ∷ [] else [])
          ∷ flag (codes "--comment") (λ t. t) cmd.comment
          ∷ nice_flag cmd.nice
          ∷ (script ∷ cmd.args)
          ∷ []))

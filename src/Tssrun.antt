-- ===== src/Tssrun.antt =====
-- src/tssrun/cmd.rs and src/tssrun/parse.rs: the arguments of a `tssrun` call, and the lines that
-- `salloc` prints when a job gets its allocation.
pub mod Parse
pub mod Handle
pub mod Refresh
pub mod Manager
pub mod LiveEnv
use slurm_async_runner.Prelude.{
  ℕ, List, [], ◌∷◌, ◌++◌, Option, none, some, Bool, true, false, if◌then◌else◌, is_empty, Result,
  ok, err, ◌>>=◌,
}
use slurm_async_runner.Prelude.Text.{Text, codes, strip_prefix}
use slurm_async_runner.Prelude.Words.{trim}
use slurm_async_runner.Prelude.Number.{parse_uint, max_u64}
use slurm_async_runner.Options.Resources.{ResourceSpec, show_resources}
use slurm_async_runner.Options.TimeLimit.{JobTimeLimit, show_limit}

pub record TssrunCmd : Type 0 where
  pub tssrun_bin : Text
  pub partition : Option Text
  pub time_limit : Option JobTimeLimit
  pub rsc : Option ResourceSpec
  pub x11 : Bool
  pub program : Text
  pub args : List Text
  pub env : List (Text × Text)
  pub cwd : Option Text

-- The two tokens of an option, where it is there.
abbrev pub partition_flag : Option Text → List Text
partition_flag none = []
partition_flag (some p) = codes "-p" ∷ p ∷ []

abbrev pub time_flag : Option JobTimeLimit → List Text
time_flag none = []
time_flag (some t) = codes "-t" ∷ show_limit t ∷ []

-- A resource option that prints as nothing is left out.
abbrev pub rsc_flag : Option ResourceSpec → List Text
rsc_flag none = []
rsc_flag (some r) =
    if is_empty (show_resources r) then [] else codes "--rsc" ∷ show_resources r ∷ []

abbrev pub x11_flag : Bool → List Text
x11_flag x11 = if x11 then codes "--x11" ∷ [] else []

-- `absolutize` resolves a path against the working directory, which may fail.
unfoldable pub build_argv : (Text → Result Text Text) → TssrunCmd → Result Text (List Text)
build_argv absolutize cmd = do
  program ← absolutize cmd.program
  ok (
      cmd.tssrun_bin
      ∷ (partition_flag cmd.partition
          ++ (time_flag cmd.time_limit
              ++ (rsc_flag cmd.rsc ++ (x11_flag cmd.x11 ++ (program ∷ cmd.args))))))

-- `s.split_once(separator)` with a text for the separator.
unfoldable pub split_once_text : Text → Text → Option (Text × Text)
split_once_text sep [] = elim (strip_prefix sep []) [ none ↦ none | some rest ↦ some ([], rest) ]
split_once_text sep (c ∷ s) =
    let later = split_once_text sep s in
    elim (strip_prefix sep (c ∷ s)) [
      | some rest ↦ some ([], rest)
      | none ↦ elim later [ none ↦ none | some (p, r) ↦ some (c ∷ p, r) ]
    ]

abbrev pub granted : Text
granted = codes "salloc: Granted job allocation "

abbrev pub nodes : Text
nodes = codes "salloc: Nodes "

abbrev pub are_ready : Text
are_ready = codes " are ready for job"

unfoldable pub parse_salloc_jobid : Text → Option ℕ
parse_salloc_jobid line = elim (strip_prefix granted line) [
  | none ↦ none
  | some s ↦ parse_uint max_u64 (trim s)
]

unfoldable pub parse_salloc_node : Text → Option Text
unfolding split_once_text
parse_salloc_node line = elim (strip_prefix nodes line) [
  | none ↦ none
  | some rest ↦ elim (split_once_text are_ready rest) [
    | none ↦ none
    | some (node, tail) ↦ some node
  ]
]

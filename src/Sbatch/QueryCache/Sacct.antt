-- ===== src/Sbatch/QueryCache/Sacct.antt =====
-- src/sbatch/sacct_cache.rs: the shape of the batched sacct query, and src/sbatch/qgroup_cache.rs: that
-- of the listing of qgroup, which has no keys.
use slurm_async_runner.Prelude.{
  ℕ, ◌≤◌, List, [], ◌∷◌, map, Option, none, some, false, ◌&&◌, if◌then◌else◌, ◌≡◌, refl, ◌==◌, ltb,
  is_empty, All, arith,
}
use slurm_async_runner.Prelude.Text.{Text, codes, text_eq}
use slurm_async_runner.Prelude.Number.{max_u64}
use slurm_async_runner.Runner.{csv_join}
use slurm_async_runner.Runner.Query.{sacct_exit_argv, qgroup_argv}
use slurm_async_runner.Sbatch.QueryCache.{Shape}
use slurm_async_runner.Sbatch.QueryCache.Laws.{SameIsEquality}
use slurm_async_runner.Sbatch.QueryCache.Squeue.{
  JobKey, plain, same_key, before_key, parse_csv, build_csv, KeyIsValid, parse-build_csv,
  parse-csv_join, squeue_shape-SameIsEquality,
}

-- `SacctExitCodeShape::parse` and `build`.
unfoldable pub parse_sacct_argv : List Text → Option (List JobKey)
parse_sacct_argv (program ∷ p ∷ n ∷ j ∷ keys ∷ o ∷ columns ∷ []) =
    if text_eq program (codes "sacct")
      && text_eq p (codes "-P")
      && text_eq n (codes "-n")
      && text_eq j (codes "-j")
      && text_eq o (codes "-o")
      && text_eq columns (codes "JobID,State,Reason,ExitCode")
    then parse_csv keys
    else none
parse_sacct_argv _ = none

unfoldable pub build_sacct_argv : List JobKey → List Text
build_sacct_argv batch =
    codes "sacct"
    ∷ codes "-P"
    ∷ codes "-n"
    ∷ codes "-j"
    ∷ build_csv batch
    ∷ codes "-o"
    ∷ codes "JobID,State,Reason,ExitCode"
    ∷ []

abbrev pub sacct_shape : Shape JobKey
sacct_shape = record {
  same = same_key;
  before = before_key;
  parse = parse_sacct_argv;
  build = build_sacct_argv;
  marker = codes "(replayed from sacct batch cache)";
}

-- `QgroupListingShape`. Its keys are numbers, of which there are none.
unfoldable pub parse_qgroup_argv : List Text → Option (List ℕ)
parse_qgroup_argv (program ∷ l ∷ []) =
    if text_eq program (codes "qgroup") && text_eq l (codes "-l") then some [] else none
parse_qgroup_argv _ = none

abbrev pub qgroup_shape : Shape ℕ
qgroup_shape = record {
  same = λ a b. a == b;
  before = λ a b. ltb a b;
  parse = parse_qgroup_argv;
  build = λ batch. codes "qgroup" ∷ codes "-l" ∷ [];
  marker = codes "(replayed from qgroup cache)";
}

pub sacct_shape-SameIsEquality : SameIsEquality sacct_shape
sacct_shape-SameIsEquality = record {
  same_refl = squeue_shape-SameIsEquality.same_refl;
  same_sound = squeue_shape-SameIsEquality.same_sound;
}

pub qgroup_shape-SameIsEquality : SameIsEquality qgroup_shape
qgroup_shape-SameIsEquality = record {
  same_refl = λ a. ground arith;
  same_sound = λ a b h. ground arith;
}

-- The exit-code query for any jobs, and the command that the cache builds for a batch, are recognised
-- by the sacct cache with their keys; the listing of qgroup is recognised by its own.
pub parse_sacct_argv-built :
    (ids : List ℕ) (batch : List JobKey)
    → is_empty ids ≡ false
    → All (λ id. id ≤ max_u64) ids
    → is_empty batch ≡ false
    → All KeyIsValid batch
    → (parse_sacct_argv (sacct_exit_argv (csv_join ids)) ≡ some (map plain ids))
      × (parse_sacct_argv (build_sacct_argv batch) ≡ some batch)
      × (parse_qgroup_argv qgroup_argv ≡ some [])
unfolding parse_sacct_argv build_sacct_argv sacct_exit_argv text_eq parse_qgroup_argv qgroup_argv
parse_sacct_argv-built ids batch e v e' v' =
    (parse-csv_join ids e v, parse-build_csv batch e' v', refl)

-- ===== src/Tests/Cache.antt =====
-- The theorems on the query cache, applied to the squeue shape; the world counts the commands.
use slurm_async_runner.Prelude.{ℕ, ◌+◌, List, [], ◌∷◌, none, some, ok, ◌≡◌, refl, arith}
use slurm_async_runner.Prelude.Text.{Text, codes, split, split_once, text_eq}
use slurm_async_runner.Prelude.Number.{parse_uint}
use slurm_async_runner.Prelude.Int.{pos}
use slurm_async_runner.Dispatcher.{CaptureOutput, Capture}
use slurm_async_runner.Runner.{csv_join}
use slurm_async_runner.Runner.Query.{squeue_argv, task_key, sacct_exit_argv}
use slurm_async_runner.Sbatch.QueryCache.Sacct.{parse_sacct_argv-built}
use slurm_async_runner.Sbatch.QueryCache.Layers.{
  Layered, sacct_batched, handle_dispatcher, handle_dispatcher-sacct,
}
use slurm_async_runner.Sbatch.QueryCache.{Cached, capture}
use slurm_async_runner.Sbatch.QueryCache.Laws.{
  IsServed, capture-IsServed, capture-single_flight, capture-uncached,
}
use slurm_async_runner.Sbatch.QueryCache.Squeue.{
  JobKey, plain, array_task, parse_argv, parse_csv, parse_key, squeue_shape,
  squeue_shape-SameIsEquality, parse_argv-squeue_argv,
}

abbrev answer : CaptureOutput
answer = record { exit_code = pos 0; stdout = codes "7 RUNNING None"; stderr = [] }

abbrev inner : Capture ℕ
inner argv w = (ok answer, w + 1)

abbrev empty : Cached JobKey ℕ
empty = record { slot = record { entry = none; recent = [] }; world = 0 }

abbrev ask_7 : List Text
ask_7 =
    codes "squeue"
    ∷ codes "-h"
    ∷ codes "-r"
    ∷ codes "-j"
    ∷ codes "7"
    ∷ codes "-o"
    ∷ codes "%i %T %r"
    ∷ []

abbrev ask_7_8 : List Text
ask_7_8 =
    codes "squeue"
    ∷ codes "-h"
    ∷ codes "-r"
    ∷ codes "-j"
    ∷ codes "7,8_2"
    ∷ codes "-o"
    ∷ codes "%i %T %r"
    ∷ []

asked_7 : parse_argv ask_7 ≡ some (plain 7 ∷ [])
unfolding parse_argv parse_csv parse_key split split_once text_eq parse_uint
asked_7 = refl

asked_7_8 : parse_argv ask_7_8 ≡ some (plain 7 ∷ array_task 8 2 ∷ [])
unfolding parse_argv parse_csv parse_key split split_once text_eq parse_uint
asked_7_8 = refl

capture-IsServed_example :
    IsServed squeue_shape squeue_shape-SameIsEquality
      (λ w. w)
      5
      inner
      (plain 7 ∷ array_task 8 2 ∷ [])
      empty
      (capture squeue_shape (λ w. w) 5 inner ask_7_8 empty)
capture-IsServed_example =
    capture-IsServed squeue_shape squeue_shape-SameIsEquality (λ w. w) 5 inner ask_7_8
      (plain 7 ∷ array_task 8 2 ∷ []) empty tt asked_7_8

capture-single_flight_example :
    ((capture squeue_shape
        (λ w. w)
        5
        inner
        ask_7
        (capture squeue_shape (λ w. w) 5 inner ask_7_8 empty).1).1.world
      ≡ (capture squeue_shape (λ w. w) 5 inner ask_7_8 empty).1.world)
    × ((out : CaptureOutput)
        → (capture squeue_shape (λ w. w) 5 inner ask_7_8 empty).0 ≡ ok out
        → (capture squeue_shape
            (λ w. w)
            5
            inner
            ask_7
            (capture squeue_shape (λ w. w) 5 inner ask_7_8 empty).1).0
          ≡ ok out)
capture-single_flight_example =
    capture-single_flight squeue_shape squeue_shape-SameIsEquality (λ w. w) 5 inner ask_7_8 ask_7
      (plain 7 ∷ array_task 8 2 ∷ []) (plain 7 ∷ []) empty (omega arith) asked_7_8 asked_7 refl

capture-uncached_example :
    ((capture squeue_shape (λ w. w) 0 inner ask_7 empty).0 ≡ ok answer)
    × ((capture squeue_shape (λ w. w) 0 inner ask_7 empty).1.world ≡ 1)
capture-uncached_example =
    capture-uncached squeue_shape squeue_shape-SameIsEquality (λ w. w) inner ask_7 (plain 7 ∷ [])
      empty asked_7

parse_argv-squeue_argv_example :
    (parse_argv (squeue_argv (csv_join (7 ∷ 9 ∷ []))) ≡ some (plain 7 ∷ plain 9 ∷ []))
    × (parse_argv (squeue_argv (task_key 8 2)) ≡ some (array_task 8 2 ∷ []))
parse_argv-squeue_argv_example =
    parse_argv-squeue_argv (7 ∷ 9 ∷ []) 8 2 refl (omega arith, (omega arith, tt)) (omega arith)
      (omega arith)

abbrev no_entries : Layered ℕ
no_entries = record {
  slot = record { entry = none; recent = [] };
  world = record {
    slot = record { entry = none; recent = [] };
    world = record { slot = record { entry = none; recent = [] }; world = 0 };
  };
}

handle_dispatcher-sacct_example :
    ((handle_dispatcher (λ w. w) 60 inner (sacct_exit_argv (csv_join (7 ∷ []))) no_entries).0
      ≡ (sacct_batched
          (λ w. w)
          60
          inner
          (sacct_exit_argv (csv_join (7 ∷ [])))
          no_entries.world.world).0)
    × ((handle_dispatcher
          (λ w. w)
          60
          inner
          (sacct_exit_argv (csv_join (7 ∷ [])))
          no_entries).1.world.world
        ≡ (sacct_batched
            (λ w. w)
            60
            inner
            (sacct_exit_argv (csv_join (7 ∷ [])))
            no_entries.world.world).1)
    × ((handle_dispatcher (λ w. w) 60 inner (sacct_exit_argv (csv_join (7 ∷ []))) no_entries).1.slot
        ≡ no_entries.slot)
    × ((handle_dispatcher
          (λ w. w)
          60
          inner
          (sacct_exit_argv (csv_join (7 ∷ [])))
          no_entries).1.world.slot
        ≡ no_entries.world.slot)
handle_dispatcher-sacct_example =
    handle_dispatcher-sacct (λ w. w) 60 inner (sacct_exit_argv (csv_join (7 ∷ []))) (plain 7 ∷ [])
      no_entries
      (parse_sacct_argv-built (7 ∷ []) (plain 7 ∷ []) refl (omega arith, tt) refl
        (omega arith, tt)).0

-- ===== src/Tests/Submit.antt =====
-- The theorems on the manager, applied to a scheduler that accepts every job as number 7.
use mathlib.Core.Path.{subst}
use slurm_async_runner.Prelude.{
  ℕ, ◌+◌, List, [], ◌∷◌, ◌++◌, map, keep, none, some, Bool, true, false, ◌&&◌, if◌then◌else◌,
  is_some, All, Result, ok, err, ◌≡◌, ◌⊎◌, refl, ap, ◌∙◌, arith,
}
use slurm_async_runner.Prelude.Text.{
  Text, codes, text_eq, split, split_once, contains, join, strip_prefix,
}
use slurm_async_runner.Prelude.Words.{lines, words, trim, splitn, split_where}
use slurm_async_runner.Prelude.Number.{parse_uint, unsigned, show}
use slurm_async_runner.Prelude.Int.{pos, parse_i32}
use slurm_async_runner.Dispatcher.{CaptureOutput, Effect, Capture, success}
use slurm_async_runner.Status.State.{completed}
use slurm_async_runner.Status.State
use slurm_async_runner.Status.Reason
use slurm_async_runner.Status.Reason.{JobReason}
use slurm_async_runner.Runner.{
  ensure_query_success, squeue_reports_vanished, get, parse_qgroup_l, parse_squeue,
  dedupe_preserving_order, parse_sacct_with_exit_code, parse_sacct_exit_code, csv_join,
}
use slurm_async_runner.Runner.Query.{
  query_job_states_via_qgroup_with, query_job_states_squeue_only_with,
  query_job_states_with_exit_code_with, qgroup_argv, squeue_argv, sacct_exit_argv,
}
use slurm_async_runner.Polling.{wait_loop}
use slurm_async_runner.Options.ArraySpec.{
  SlurmArraySpec, SpecIsValid, single, show_spec, show_index,
}
use slurm_async_runner.Sbatch.Parse.{expand_array_indices}
use slurm_async_runner.Sbatch.Parse.Submitted.{parse_submitted_jobid}
use slurm_async_runner.Sbatch.Cmd.{
  SbatchCmd, SbatchSpawnError, submitted_but_unpersisted, other, build_argv, chdir_flag,
  export_flag,
}
use slurm_async_runner.Sbatch.Handle.{
  SbatchJobSnapshot, FinishedInfo, Handle, refresh, finalize, refresh_with_sacct, wait_terminal,
  settled,
}
use slurm_async_runner.Store.Memory.{Entries, lookup, insert, remove, values}
use slurm_async_runner.Sbatch.Manager.{
  Environment, SbatchManager, absolutize, submitted_jobid, submit, register, spawn, new_snapshot,
  spawn_array, spawn_tasks, register_tasks, by_uuid, by_file, kind_mismatch,
}
use slurm_async_runner.Sbatch.Manager.Spawn.{IsSubmission, spawn-ok, spawn-submitted}
use slurm_async_runner.Sbatch.Manager.Attach.{attach, attach_array_jobid}
use slurm_async_runner.Sbatch.Manager.Attached.{
  StoreIsLawful, attach-spawn, attach-other_kind, attach_array_jobid-IsSorted, IsSorted, is_task,
}
use slurm_async_runner.Sbatch.Manager.Arrays.{IsTaskOf, AreSaved, spawn_array-ok}
use slurm_async_runner.Sbatch.Manager.Run.{run_with, conclude_run, handle_services}
use slurm_async_runner.Sbatch.Manager.Outcome.{run_with-ok, Concluded, run_with-ends}
use slurm_async_runner.Store.{is_job}
use slurm_async_runner.Store.Memory.{lookup-insert}
use slurm_async_runner.Store.Envelope.{Serde, encode}
use slurm_async_runner.Tests.Json.{
  documents, documents-JsonIsLawful, small, small_serde, marked_object,
}

-- The store, the next uuid, which is the time too.
record World : Type 0 where
  entries : Entries SbatchJobSnapshot
  next : ℕ

is_program : Text → List Text → Bool
unfolding text_eq
is_program p [] = false
is_program p (program ∷ args) = text_eq program p

abbrev accepting : Capture World
accepting argv w = (
  ok (record {
    exit_code = pos 0;
    stdout =
        if is_program (codes "sbatch") argv
        then codes "Submitted batch job 7"
        else if is_program (codes "sacct") argv
        then codes "7|COMPLETED|None|0:0"
        else [];
    stderr = [];
  }),
  w,
)

abbrev cluster : Environment World
cluster = record {
  capture = accepting;
  handle_capture = accepting;
  store = record {
    save = λ s w. (ok tt, record w { entries = insert s.uuid s w.entries });
    load = λ u w. (ok (lookup u w.entries), w);
    list = λ w. (ok (values w.entries), w);
    delete = λ u w. (ok tt, record w { entries = remove u w.entries });
  };
  now = λ w. w.next;
  new_uuid = λ w. (w.next, record w { next = w.next + 1 });
  absolute = λ w path. ok (codes "/home/" ++ path);
  read = λ path w. (err (codes "no such file"), w);
}

abbrev job : SbatchCmd
job = record {
  sbatch_bin = codes "sbatch";
  job_name = none;
  partition = none;
  time_limit = none;
  rsc = none;
  output = none;
  error = none;
  chdir = none;
  array_spec = none;
  dependency = none;
  mail_user = none;
  mail_types = none;
  signal = none;
  env = [];
  no_requeue = false;
  comment = none;
  nice = none;
  script = codes "job.sh";
  args = [];
}

abbrev at_start : World
at_start = record { entries = []; next = 1 }

abbrev job_argv : List Text
job_argv = codes "sbatch" ∷ codes "/home/job.sh" ∷ []

abbrev snapshot_7 : SbatchJobSnapshot
snapshot_7 = new_snapshot job job_argv 7 none 1 (codes "/home/job.sh") 2

abbrev behind : World
behind = record { entries = (1, snapshot_7) ∷ []; next = 2 }

spawns : spawn cluster job at_start ≡ (ok snapshot_7, behind)
unfolding spawn build_argv chdir_flag export_flag submit submitted_jobid parse_submitted_jobid
    register insert remove is_program text_eq split lines trim strip_prefix parse_uint unsigned
spawns = refl

spawn-ok_example :
    (argv : List Text) × (out : CaptureOutput) × (u : World) × (build_argv
        (absolutize cluster at_start)
        job
      ≡ ok argv)
    × (accepting argv at_start ≡ (ok out, u))
    × (success out ≡ true)
    × (parse_submitted_jobid out.stdout ≡ some 7)
    × (absolutize cluster (record u { next = u.next + 1 }) (codes "job.sh")
        ≡ ok (codes "/home/job.sh"))
    × (1 ≡ u.next)
    × (2 ≡ u.next + 1)
    × IsSubmission job argv 7 none (codes "/home/job.sh") snapshot_7
    × (cluster.store.save snapshot_7 (record u { next = u.next + 1 }) ≡ (ok tt, behind))
spawn-ok_example = spawn-ok cluster job at_start behind snapshot_7 spawns

abbrev accepted : CaptureOutput
accepted = record { exit_code = pos 0; stdout = codes "Submitted batch job 7"; stderr = [] }

spawn-submitted_example :
    ((path : Text) × (◌≡◌ {A = Result Text Text} (ok (codes "/home/job.sh")) (ok path))
      × (((snap : SbatchJobSnapshot) × ((spawn cluster job at_start).0 ≡ ok snap)
            × (snap.jobid ≡ 7))
          ⊎ ((e : Text) × ((spawn cluster job at_start).0 ≡ err (submitted_but_unpersisted 7 e)))))
    ⊎ ((e : Text) × (◌≡◌ {A = Result Text Text} (ok (codes "/home/job.sh")) (err e))
        × ((spawn cluster job at_start).0 ≡ err (other e)))
unfolding build_argv chdir_flag export_flag parse_submitted_jobid is_program text_eq split lines
    trim strip_prefix parse_uint unsigned
spawn-submitted_example =
    spawn-submitted cluster job job_argv accepted 7 at_start at_start refl refl refl refl

cluster-StoreIsLawful : StoreIsLawful cluster
cluster-StoreIsLawful = record { load-save = λ s w w' h. stored s w w' h }
  where
    stored :
        (s : SbatchJobSnapshot) (w w' : World)
        → cluster.store.save s w ≡ (ok tt, w')
        → (cluster.store.load s.uuid w').0 ≡ ok (some s)
    stored s w w' h =
        let same : record w { entries = insert s.uuid s w.entries } ≡ w' = ap (λ q. q.1) h in
        subst (λ x. (cluster.store.load s.uuid x).0 ≡ ok (some s)) same
          (ap ok (lookup-insert s.uuid s.uuid s w.entries ∙ (ground arith)))

-- A job's files are not read here.
abbrev no_serde : Serde Text SbatchJobSnapshot
no_serde = record {
  to_value = λ s. err (codes "not here");
  from_value = λ v. err (codes "not here");
}

attach-spawn_example : (attach documents no_serde cluster (by_uuid 1) behind).0 ≡ ok snapshot_7
attach-spawn_example =
    attach-spawn documents no_serde cluster job at_start behind snapshot_7 cluster-StoreIsLawful
      spawns

abbrev tasks : SlurmArraySpec
tasks = record { indices = single 3 ∷ single 1 ∷ []; max_concurrent = none }

tasks-SpecIsValid : SpecIsValid tasks
tasks-SpecIsValid = record { listed = refl; entries = (omega arith, (omega arith, tt)); cap = tt }

abbrev array_job : SbatchCmd
array_job = record job { array_spec = some tasks }

abbrev array_argv : List Text
array_argv = codes "sbatch" ∷ codes "-a" ∷ codes "3,1" ∷ codes "/home/job.sh" ∷ []

abbrev task_3 : SbatchJobSnapshot
task_3 = new_snapshot array_job array_argv 7 (some 3) 1 (codes "/home/job.sh") 2

abbrev task_1 : SbatchJobSnapshot
task_1 = new_snapshot array_job array_argv 7 (some 1) 2 (codes "/home/job.sh") 3

abbrev behind_tasks : World
behind_tasks = record { entries = (2, task_1) ∷ (1, task_3) ∷ []; next = 3 }

spawns_array :
    (run : Effect SbatchSpawnError World (List SbatchJobSnapshot)) × (spawn_array cluster job tasks
      ≡ some run)
    × (run at_start ≡ (ok (task_3 ∷ task_1 ∷ []), behind_tasks))
unfolding spawn_array spawn_tasks register_tasks expand_array_indices build_argv chdir_flag
    export_flag submit submitted_jobid parse_submitted_jobid register insert remove is_program
    text_eq split lines trim strip_prefix parse_uint unsigned show_spec show_index show join
spawns_array = (_, refl, refl)

spawn_array-ok_example :
    (indices : List ℕ) × (argv : List Text) × (j : ℕ) × (u : World) × (script : Text)
    × (expand_array_indices tasks ≡ some indices)
    × (build_argv (absolutize cluster at_start) array_job ≡ ok argv)
    × (submit cluster argv at_start ≡ (ok j, u))
    × (absolutize cluster u (codes "job.sh") ≡ ok script)
    × (map (λ s. s.array_task_id) (task_3 ∷ task_1 ∷ []) ≡ map some indices)
    × All (IsTaskOf array_job argv j script) (task_3 ∷ task_1 ∷ [])
    × AreSaved cluster (task_3 ∷ task_1 ∷ []) u behind_tasks
spawn_array-ok_example =
    spawn_array-ok cluster job tasks spawns_array.0 at_start behind_tasks (task_3 ∷ task_1 ∷ [])
      tasks-SpecIsValid spawns_array.1 spawns_array.2

attach_array_jobid-IsSorted_example :
    (sorted : List SbatchJobSnapshot) × (attach_array_jobid cluster 7 behind_tasks
      ≡ (ok sorted, behind_tasks))
    × IsSorted sorted
    × All (λ s. is_some s.array_task_id ≡ true) sorted
    × (keep (λ s. is_task 1 s.array_task_id) sorted
        ≡ keep (λ s. is_job 7 (some s.jobid) && is_task 1 s.array_task_id) (task_1 ∷ task_3 ∷ []))
unfolding values
attach_array_jobid-IsSorted_example =
    attach_array_jobid-IsSorted cluster 7 1 behind_tasks behind_tasks (task_1 ∷ task_3 ∷ []) refl

foreign_file :
    (bytes : Text) × (encode documents small_serde
        (small (codes "tssrun"))
        (record { uuid = 1; jobid = 2; reason = JobReason.none })
      ≡ ok bytes)
unfolding encode marked_object
foreign_file = (_, refl)

abbrev reader : Environment World
reader = record cluster { read = λ path w. (ok foreign_file.0, w) }

attach-other_kind_example :
    attach documents no_serde reader (by_file (codes "1.json")) at_start
    ≡ (err (kind_mismatch (codes "tssrun")), at_start)
unfolding text_eq
attach-other_kind_example =
    attach-other_kind documents no_serde reader small_serde (small (codes "tssrun"))
      (codes "1.json") foreign_file.0 (record { uuid = 1; jobid = 2; reason = JobReason.none })
      at_start at_start documents-JsonIsLawful refl foreign_file.1 refl

abbrev manager : SbatchManager
manager = record { cmd = job; scancel_bin = codes "scancel" }

abbrev end_of_job : FinishedInfo
end_of_job = record {
  final_state = completed;
  final_reason = JobReason.none;
  exit_code = some (pos 0);
  finished_at = 2;
}

runs :
    (w' : World) × (run_with cluster manager (λ h. h) 1 (λ j w. w) at_start
      ≡ (some (ok end_of_job), w'))
unfolding run_with spawn build_argv chdir_flag export_flag submit submitted_jobid
    parse_submitted_jobid register insert remove is_program text_eq split lines trim strip_prefix
    parse_uint unsigned conclude_run wait_loop refresh_with_sacct query_job_states_via_qgroup_with
    query_job_states_squeue_only_with qgroup_argv squeue_argv ensure_query_success
    squeue_reports_vanished get parse_qgroup_l parse_squeue finalize refresh
    query_job_states_with_exit_code_with dedupe_preserving_order sacct_exit_argv
    parse_sacct_with_exit_code parse_sacct_exit_code parse_i32 splitn split_once contains
    State.parse Reason.parse words split_where csv_join join show
runs = (_, refl)

run_with-ok_example :
    (job.array_spec ≡ none)
    × (snap polled : SbatchJobSnapshot) × (u : World) × (h : Handle World) × (spawn cluster job
          at_start
        ≡ (ok snap, u))
    × (wait_terminal (handle_services cluster) (λ h. h) 1 (record { snapshot = snap; world = u })
        ≡ (some (ok polled), h))
    × (settled polled.lifecycle ≡ true)
    × Concluded cluster h end_of_job
run_with-ok_example =
    run_with-ok cluster manager (λ h. h) 1 (λ j w. w) at_start runs.0 end_of_job runs.1

first_poll :
    (polled : SbatchJobSnapshot) × (h : Handle World) × (refresh
        (handle_services cluster)
        (record { snapshot = snapshot_7; world = behind })
      ≡ (ok polled, h))
    × (settled polled.lifecycle ≡ true)
unfolding insert remove is_program text_eq split lines refresh query_job_states_via_qgroup_with
    query_job_states_squeue_only_with qgroup_argv squeue_argv ensure_query_success
    squeue_reports_vanished get parse_qgroup_l parse_squeue
first_poll = (_, _, refl, refl)

run_with-ends_example : is_some (run_with cluster manager (λ h. h) 1 (λ j w. w) at_start).0 ≡ true
run_with-ends_example =
    run_with-ends cluster manager (λ h. h) 0 (λ j w. w) at_start behind snapshot_7 first_poll.0
      first_poll.1 refl spawns first_poll.2 first_poll.3

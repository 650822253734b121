-- ===== src/Tests/Tssrun.antt =====
-- The theorems on tssrun jobs, applied to one job.
use mathlib.Core.Path.{subst}
use slurm_async_runner.Prelude.{
  ℕ, ltb, ◌+◌, [], ◌∷◌, ◌++◌, none, some, true, false, if◌then◌else◌, All, ok, err, ◌≡◌, refl, ap,
  ◌∙◌, arith,
}
use slurm_async_runner.Prelude.Text.{Text, codes, strip_prefix}
use slurm_async_runner.Prelude.Words.{trim}
use slurm_async_runner.Prelude.Number.{parse_uint, unsigned}
use slurm_async_runner.Prelude.Int.{pos}
use slurm_async_runner.Store.{JobStateStore}
use slurm_async_runner.Store.Envelope.{Serde}
use slurm_async_runner.Store.Memory.{Entries, insert, in_memory, lookup-insert}
use slurm_async_runner.Tssrun.{TssrunCmd, build_argv, parse_salloc_jobid, parse_salloc_node}
use slurm_async_runner.Tssrun.Handle.{
  TssrunJobSnapshot, LogStream, stdout, stderr, lines_of, tssrun_snapshot, unlocated, finished_with,
  System, Steps, from_spawn, ended, drained,
}
use slurm_async_runner.Tssrun.Handle.Identity.{IsOf, StoredIsOf, Steps-IsOf}
use slurm_async_runner.Tssrun.Handle.Drain.{heard}
use slurm_async_runner.Tssrun.Handle.Drain.Heard.{WasRead, Matches, wait-drained}
use slurm_async_runner.Tssrun.Handle.Race.{quiet, finish_lost}
use slurm_async_runner.Tssrun.Refresh.{Handle, refresh, wait_terminal, wait_terminal-polls}
use slurm_async_runner.Tssrun.Manager.{Environment, spawn_with, start_tasks, attach, by_uuid}
use slurm_async_runner.Tssrun.Manager.Attach.{StoreIsLawful, attach-spawn_with}
use slurm_async_runner.Tests.Json.{documents}

abbrev init : TssrunJobSnapshot
init = record {
  uuid = 3;
  pid = 4242;
  argv = codes "tssrun" ∷ codes "/home/a.out" ∷ [];
  sent_env = [];
  cwd = none;
  started_at_unix = pos 100;
  log_locations = unlocated;
  jobid = none;
  node = none;
  finished = none;
}

abbrev banner : Text
banner = codes "salloc: Granted job allocation 102362"

granted : parse_salloc_jobid banner ≡ some 102362
unfolding parse_salloc_jobid strip_prefix trim parse_uint unsigned
granted = refl

-- A run in which the end of this job is lost from the store.
abbrev Lost : Type 0
Lost =
    (s : System) × (snap : TssrunJobSnapshot) × Steps (quiet banner) (from_spawn init true) s
    × (s.stdout_tee ≡ ended)
    × (s.stderr_tee ≡ ended)
    × (s.owner ≡ drained (ok (some (pos 0))))
    × (s.shared.channel.finished
        ≡ some (record { exit_code = some (pos 0); finished_at_unix = pos 160 }))
    × (s.shared.stored ≡ some snap)
    × (snap.finished ≡ none)

finish_lost_example : Lost
finish_lost_example = finish_lost init banner 102362 (some (pos 0)) (pos 160) refl refl granted

lost : Lost
lost = finish_lost init banner 102362 (some (pos 0)) (pos 160) refl refl granted

abbrev last : System
last = lost.0

wait-drained_example :
    WasRead (banner ∷ []) (lines_of stdout last.shared.lines) last.stdout_tee
    × WasRead [] (lines_of stderr last.shared.lines) last.stderr_tee
    × All
        (λ (x : LogStream × Text).
          (heard (parse_salloc_jobid x.1) last.shared.channel.jobid ≡ true)
          × (heard (parse_salloc_node x.1) last.shared.channel.node ≡ true))
        last.shared.lines
    × Matches (ok (some (pos 0))) last.shared.channel.finished
wait-drained_example =
    wait-drained init true (quiet banner) last (ok (some (pos 0))) refl lost.2 lost.5

Steps-IsOf_example : IsOf init last.shared.channel × StoredIsOf init last.shared.stored
Steps-IsOf_example = Steps-IsOf init true (quiet banner) last lost.2

-- A store whose job ends at time 2.
abbrev ending : JobStateStore TssrunJobSnapshot ℕ
ending = record {
  save = λ s w. (ok tt, w);
  load =
      λ u w. (ok (some (if ltb w 2 then init else finished_with (some (pos 0)) (pos 160) init)), w);
  list = λ w. (ok [], w);
  delete = λ u w. (ok tt, w);
}

abbrev tick : Handle ℕ → Handle ℕ
tick h = record h { world = h.world + 1 }

wait_terminal-polls_example :
    (wait_terminal (some ending) tick 2 (record { channel = init; world = 0 })
      ≡ (none, record { channel = init; world = 2 }))
    × (wait_terminal (some ending) tick (2 + 1) (record { channel = init; world = 0 }) ≡ (
      some (ok (finished_with (some (pos 0)) (pos 160) init)),
      record { channel = finished_with (some (pos 0)) (pos 160) init; world = 2 },
    ))
unfolding refresh
wait_terminal-polls_example =
    wait_terminal-polls (some ending) tick 2 0 (record { channel = init; world = 0 })
      (ok (finished_with (some (pos 0)) (pos 160) init))
      ((init, refl, refl), ((init, refl, refl), tt)) refl refl

abbrev command : TssrunCmd
command = record {
  tssrun_bin = codes "tssrun";
  partition = none;
  time_limit = none;
  rsc = none;
  x11 = false;
  program = codes "a.out";
  args = [];
  env = [];
  cwd = none;
}

abbrev host : Environment (Entries TssrunJobSnapshot)
host = record {
  start = λ argv env cwd w. (ok 4242, w);
  capture = λ argv w. (err (codes "no such file"), w);
  store = in_memory tssrun_snapshot;
  now_unix = λ w. pos 100;
  new_uuid = λ w. (3, w);
  absolutize = λ path. ok (codes "/home/" ++ path);
  read = λ path w. (err (codes "no such file"), w);
}

host-StoreIsLawful : StoreIsLawful host
host-StoreIsLawful = record { load-save = λ s w w' h. stored s w w' h }
  where
    stored :
        (s : TssrunJobSnapshot) (w w' : Entries TssrunJobSnapshot)
        → host.store.save s w ≡ (ok tt, w')
        → (host.store.load s.uuid w').0 ≡ ok (some s)
    stored s w w' h =
        let same : insert s.uuid s w ≡ w' = ap (λ q. q.1) h in
        subst (λ x. (host.store.load s.uuid x).0 ≡ ok (some s)) same
          (ap ok (lookup-insert s.uuid s.uuid s w ∙ (ground arith)))

starts : spawn_with host command [] ≡ (ok (from_spawn init true), insert 3 init [])
unfolding spawn_with build_argv start_tasks
starts = refl

abbrev no_serde : Serde Text TssrunJobSnapshot
no_serde = record {
  to_value = λ s. err (codes "not here");
  from_value = λ v. err (codes "not here");
}

attach-spawn_with_example :
    (attach documents no_serde host (by_uuid 3) (insert 3 init [])).0 ≡ ok init
attach-spawn_with_example =
    attach-spawn_with documents no_serde host command [] (insert 3 init []) (from_spawn init true)
      init host-StoreIsLawful starts refl

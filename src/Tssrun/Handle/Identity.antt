-- ===== src/Tssrun/Handle/Identity.antt =====
-- What the moves never change: the identity of the job, and what was recorded once.
use mathlib.Core.Path.{subst}
use slurm_async_runner.Prelude.{
  List, [], ◌∷◌, ◌++◌, All, Option, none, some, Bool, true, false, ◌≡◌, refl, ap,
}
use slurm_async_runner.Tssrun.{parse_salloc_jobid, parse_salloc_node}
use slurm_async_runner.Tssrun.Handle.{
  TssrunJobSnapshot, LogStream, set_once, Tee, reading, parsing, jobid_parsed, node_parsed,
  persisting, ended, failed, Surroundings, Waiter, waiting, recorded, persisting_exit, returned,
  Shared, System, TeeMove, read_line, set_jobid, set_node, copy_update, no_update, persist,
  persist_failed, stream_end, read_error, WaitMove, exit, exit_failed, copy_exit, persist_exit,
  persist_exit_failed, Step, tee_stdout, tee_stderr, wait_task, refresh_loaded, refresh_sent,
  wait_called, wait_returned, Steps, here, next, from_spawn,
}

-- Only the job's number, its nodes and its end may differ from the first snapshot.
abbrev pub IsOf : TssrunJobSnapshot → TssrunJobSnapshot → Type 0
IsOf init snap =
    snap ≡ record init { jobid = snap.jobid; node = snap.node; finished = snap.finished }

abbrev pub StoredIsOf : TssrunJobSnapshot → Option TssrunJobSnapshot → Type 0
StoredIsOf init none = Unit {0}
StoredIsOf init (some snap) = IsOf init snap

abbrev TeeIsOf : TssrunJobSnapshot → Tee → Type 0
TeeIsOf init (persisting snap) = IsOf init snap
TeeIsOf init reading = Unit {0}
TeeIsOf init (parsing line) = Unit {0}
TeeIsOf init (jobid_parsed line updated) = Unit {0}
TeeIsOf init (node_parsed updated) = Unit {0}
TeeIsOf init ended = Unit {0}
TeeIsOf init failed = Unit {0}

abbrev WaiterIsOf : TssrunJobSnapshot → Waiter → Type 0
WaiterIsOf init (persisting_exit code snap) = IsOf init snap
WaiterIsOf init waiting = Unit {0}
WaiterIsOf init (recorded code) = Unit {0}
WaiterIsOf init (returned result) = Unit {0}

abbrev SharedIsOf : TssrunJobSnapshot → Shared → Type 0
SharedIsOf init m = IsOf init m.channel × StoredIsOf init m.stored

TeeMove-SharedIsOf :
    (init : TssrunJobSnapshot) {g : Surroundings} {stream : LogStream} {m m' : Shared} {t t' : Tee}
    → TeeMove g stream m t m' t'
    → SharedIsOf init m
    → TeeIsOf init t
    → SharedIsOf init m' × TeeIsOf init t'
TeeMove-SharedIsOf init (read_line line rest q) h k = (h, tt)
TeeMove-SharedIsOf init {m = m} (set_jobid line) h k = (
  (
    ap
        (λ (c : TssrunJobSnapshot). record c {
          jobid = set_once (parse_salloc_jobid line) m.channel.jobid;
        })
        h.0,
    h.1,
  ),
  tt,
)
TeeMove-SharedIsOf init {m = m} (set_node line updated) h k = (
  (
    ap
        (λ (c : TssrunJobSnapshot). record c {
          node = set_once (parse_salloc_node line) m.channel.node;
        })
        h.0,
    h.1,
  ),
  tt,
)
TeeMove-SharedIsOf init copy_update h k = (h, h.0)
TeeMove-SharedIsOf init no_update h k = (h, tt)
TeeMove-SharedIsOf init (persist snap) h k = ((h.0, k), tt)
TeeMove-SharedIsOf init (persist_failed snap fails) h k = (h, tt)
TeeMove-SharedIsOf init (stream_end q) h k = (h, tt)
TeeMove-SharedIsOf init read_error h k = (h, tt)

WaitMove-SharedIsOf :
    (init : TssrunJobSnapshot) {g : Surroundings} {m m' : Shared} {t t' : Waiter}
    → WaitMove g m t m' t'
    → SharedIsOf init m
    → WaiterIsOf init t
    → SharedIsOf init m' × WaiterIsOf init t'
WaitMove-SharedIsOf init (exit code t) h k = (
  (
    ap
        (λ (c : TssrunJobSnapshot). record c {
          finished = some (record { exit_code = code; finished_at_unix = t });
        })
        h.0,
    h.1,
  ),
  tt,
)
WaitMove-SharedIsOf init (exit_failed e) h k = (h, tt)
WaitMove-SharedIsOf init (copy_exit code) h k = (h, h.0)
WaitMove-SharedIsOf init (persist_exit code snap) h k = ((h.0, k), tt)
WaitMove-SharedIsOf init (persist_exit_failed code snap fails) h k = (h, tt)

abbrev SystemIsOf : TssrunJobSnapshot → System → Type 0
SystemIsOf init s =
    SharedIsOf init s.shared
    × TeeIsOf init s.stdout_tee
    × TeeIsOf init s.stderr_tee
    × WaiterIsOf init s.waiter
    × All (IsOf init) s.loaded

-- One of the snapshots that were loaded, and the others.
All-split :
    (P : TssrunJobSnapshot → Type 0) (before after : List TssrunJobSnapshot)
    (snap : TssrunJobSnapshot)
    → All P (before ++ snap ∷ after)
    → P snap × All P (before ++ after)
All-split P [] after snap h = h
All-split P (b ∷ before) after snap h =
    let (one, others) = All-split P before after snap h.1 in (one, (h.0, others))

Step-SystemIsOf :
    (init : TssrunJobSnapshot) {g : Surroundings} {s s' : System}
    → Step g s s'
    → SystemIsOf init s
    → SystemIsOf init s'
Step-SystemIsOf init (tee_stdout mv) (m, o, e, w, l) =
    let (m', o') = TeeMove-SharedIsOf init mv m o in (m', o', e, w, l)
Step-SystemIsOf init (tee_stderr mv) (m, o, e, w, l) =
    let (m', e') = TeeMove-SharedIsOf init mv m e in (m', o, e', w, l)
Step-SystemIsOf init (wait_task mv) (m, o, e, w, l) =
    let (m', w') = WaitMove-SharedIsOf init mv m w in (m', o, e, w', l)
Step-SystemIsOf init (refresh_loaded snap may same) (m, o, e, w, l) =
    (m, o, e, w, (subst (StoredIsOf init) same m.1, l))
Step-SystemIsOf init (refresh_sent snap before after may same) (m, o, e, w, l) =
    let (one, others) = All-split (IsOf init) before after snap (subst (All (IsOf init)) same l) in
    ((one, m.1), o, e, w, others)
Step-SystemIsOf init (wait_called own) h = h
Step-SystemIsOf init (wait_returned result own o e w) h = h

Steps-SystemIsOf :
    (init : TssrunJobSnapshot) {g : Surroundings} {s s' : System}
    → Steps g s s'
    → SystemIsOf init s
    → SystemIsOf init s'
Steps-SystemIsOf init here h = h
Steps-SystemIsOf init (next steps step) h =
    Step-SystemIsOf init step (Steps-SystemIsOf init steps h)

-- Whatever the streams bring, however the tasks and refreshes are interleaved, a refresh sending late
-- what it loaded included, and whichever saves fail: the snapshot in the watch channel and the one in the store are those of the job that was
-- started. Of the first snapshot only the job's number, the nodes and the end change.
pub Steps-IsOf :
    (init : TssrunJobSnapshot) (saved : Bool) (g : Surroundings) (s : System)
    → Steps g (from_spawn init saved) s
    → IsOf init s.shared.channel × StoredIsOf init s.shared.stored
Steps-IsOf init true g s steps = (Steps-SystemIsOf init steps ((refl, refl), tt, tt, tt, tt)).0
Steps-IsOf init false g s steps = (Steps-SystemIsOf init steps ((refl, tt), tt, tt, tt, tt)).0

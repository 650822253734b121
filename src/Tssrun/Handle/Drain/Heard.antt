-- ===== src/Tssrun/Handle/Drain/Heard.antt =====
-- `wait` returns when every line was looked at, with the code that the channel's snapshot records.
use mathlib.Core.Path.{subst}
use slurm_async_runner.Prelude.{
  List, ◌⊎◌, [], ◌∷◌, Option, none, some, Bool, true, false, Result, ok, err, All, All-append,
  All-map, ◌≡◌, refl, sym, inl, inr, arith,
}
use slurm_async_runner.Prelude.Text.{Text}
use slurm_async_runner.Prelude.Int.{ℤ}
use slurm_async_runner.Tssrun.{parse_salloc_jobid, parse_salloc_node}
use slurm_async_runner.Tssrun.Handle.{
  TssrunJobSnapshot, FinishedInfo, LogStream, stdout, stderr, Tee, reading, parsing, jobid_parsed,
  node_parsed, persisting, ended, failed, tee_done, lines_of, Surroundings, Waiter, waiting,
  recorded, persisting_exit, returned, Shared, System, Owner, owning, joining, drained, TeeMove,
  read_line, set_jobid, set_node, copy_update, no_update, persist, persist_failed, stream_end,
  read_error, WaitMove, exit, exit_failed, copy_exit, persist_exit, persist_exit_failed, Step,
  tee_stdout, tee_stderr, wait_task, refresh_loaded, refresh_sent, wait_called, wait_returned,
  Steps, here, next, from_spawn,
}
use slurm_async_runner.Tssrun.Handle.Drain.{
  heard, LineIsOk, LinesAreOk, pick, kept_stdout, kept_stderr, TeeMove-lines, fresh_line,
  kept_of_stdout, kept_of_stderr, IsRead, TeeMove-IsRead,
}

stdout_lines :
    {m m' : Shared} {t t' : Tee} {g : Surroundings} (e : Tee)
    → TeeMove g stdout m t m' t'
    → LinesAreOk m t e
    → LinesAreOk m' t' e
stdout_lines {m} {m'} {t} {t'} e mv h =
    let old : All (λ (x : LogStream × Text). LineIsOk m'.channel (pick x.0 t' e) x.1) m.lines =
      All-map (kept_stdout e mv) m.lines h in
    elim (TeeMove-lines mv) [
      | inl same ↦
          subst (λ ls. All (λ (x : LogStream × Text). LineIsOk m'.channel (pick x.0 t' e) x.1) ls)
            (sym same) old
      | inr (l, more, now) ↦
          subst (λ ls. All (λ (x : LogStream × Text). LineIsOk m'.channel (pick x.0 t' e) x.1) ls)
            (sym more)
            (All-append (λ (x : LogStream × Text). LineIsOk m'.channel (pick x.0 t' e) x.1) m.lines
              ((stdout, l) ∷ []) old
              (subst (λ u. LineIsOk m'.channel u l) (sym now) (fresh_line m'.channel l), tt))
    ]

stderr_lines :
    {m m' : Shared} {t t' : Tee} {g : Surroundings} (o : Tee)
    → TeeMove g stderr m t m' t'
    → LinesAreOk m o t
    → LinesAreOk m' o t'
stderr_lines {m} {m'} {t} {t'} o mv h =
    let old : All (λ (x : LogStream × Text). LineIsOk m'.channel (pick x.0 o t') x.1) m.lines =
      All-map (kept_stderr o mv) m.lines h in
    elim (TeeMove-lines mv) [
      | inl same ↦
          subst (λ ls. All (λ (x : LogStream × Text). LineIsOk m'.channel (pick x.0 o t') x.1) ls)
            (sym same) old
      | inr (l, more, now) ↦
          subst (λ ls. All (λ (x : LogStream × Text). LineIsOk m'.channel (pick x.0 o t') x.1) ls)
            (sym more)
            (All-append (λ (x : LogStream × Text). LineIsOk m'.channel (pick x.0 o t') x.1) m.lines
              ((stderr, l) ∷ []) old
              (subst (λ u. LineIsOk m'.channel u l) (sym now) (fresh_line m'.channel l), tt))
    ]

-- The code that a snapshot records, if it records one.
abbrev pub recorded_code : Option FinishedInfo → Option (Option ℤ)
recorded_code none = none
recorded_code (some f) = some f.exit_code

abbrev pub Matches : Result Text (Option ℤ) → Option FinishedInfo → Type 0
Matches (ok code) finished = recorded_code finished ≡ some code
Matches (err e) finished = Unit {0}

abbrev WaiterIsOk : Waiter → Option FinishedInfo → Type 0
WaiterIsOk waiting finished = Unit {0}
WaiterIsOk (recorded code) finished = recorded_code finished ≡ some code
WaiterIsOk (persisting_exit code snap) finished = recorded_code finished ≡ some code
WaiterIsOk (returned result) finished = Matches result finished

TeeMove-finished :
    {g : Surroundings} {stream : LogStream} {m m' : Shared} {t t' : Tee}
    → TeeMove g stream m t m' t'
    → m'.channel.finished ≡ m.channel.finished
TeeMove-finished (read_line l rest q) = refl
TeeMove-finished (set_jobid l) = refl
TeeMove-finished (set_node l updated) = refl
TeeMove-finished copy_update = refl
TeeMove-finished no_update = refl
TeeMove-finished (persist snap) = refl
TeeMove-finished (persist_failed snap fails) = refl
TeeMove-finished (stream_end q) = refl
TeeMove-finished read_error = refl

WaitMove-IsOk :
    {g : Surroundings} {m m' : Shared} {t t' : Waiter}
    → WaitMove g m t m' t'
    → WaiterIsOk t m.channel.finished
    → WaiterIsOk t' m'.channel.finished
WaitMove-IsOk (exit code t) h = refl
WaitMove-IsOk (exit_failed e) h = tt
WaitMove-IsOk (copy_exit code) h = h
WaitMove-IsOk (persist_exit code snap) h = h
WaitMove-IsOk (persist_exit_failed code snap fails) h = h

-- The child's end leaves the lines, the number and the nodes as they are.
WaitMove-lines :
    {g : Surroundings} {m m' : Shared} {t t' : Waiter} (o e : Tee)
    → WaitMove g m t m' t'
    → LinesAreOk m o e
    → LinesAreOk m' o e
WaitMove-lines o e (exit code t) h = h
WaitMove-lines o e (exit_failed x) h = h
WaitMove-lines o e (copy_exit code) h = h
WaitMove-lines o e (persist_exit code snap) h = h
WaitMove-lines o e (persist_exit_failed code snap fails) h = h

abbrev is_returned : Waiter → Bool
is_returned (returned result) = true
is_returned w = false

-- A task that has ended does not move.
TeeMove-ended :
    {g : Surroundings} {stream : LogStream} {m m' : Shared} {t t' : Tee}
    → TeeMove g stream m t m' t'
    → tee_done t ≡ false
TeeMove-ended (read_line l rest q) = refl
TeeMove-ended (set_jobid l) = refl
TeeMove-ended (set_node l updated) = refl
TeeMove-ended copy_update = refl
TeeMove-ended no_update = refl
TeeMove-ended (persist snap) = refl
TeeMove-ended (persist_failed snap fails) = refl
TeeMove-ended (stream_end q) = refl
TeeMove-ended read_error = refl

WaitMove-returned :
    {g : Surroundings} {m m' : Shared} {t t' : Waiter}
    → WaitMove g m t m' t'
    → is_returned t ≡ false
WaitMove-returned (exit code t) = refl
WaitMove-returned (exit_failed x) = refl
WaitMove-returned (copy_exit code) = refl
WaitMove-returned (persist_exit code snap) = refl
WaitMove-returned (persist_exit_failed code snap fails) = refl

abbrev OwnerIsOk : Owner → Tee → Tee → Waiter → Type 0
OwnerIsOk owning o e w = Unit {0}
OwnerIsOk joining o e w = Unit {0}
OwnerIsOk (drained result) o e w = (tee_done o ≡ true) × (tee_done e ≡ true) × (w ≡ returned result)

abbrev IsOk : Surroundings → System → Type 0
IsOk g s =
    LinesAreOk s.shared s.stdout_tee s.stderr_tee
    × WaiterIsOk s.waiter s.shared.channel.finished
    × OwnerIsOk s.owner s.stdout_tee s.stderr_tee s.waiter
    × IsRead (g.content stdout) (lines_of stdout s.shared.lines) s.stdout_tee
    × IsRead (g.content stderr) (lines_of stderr s.shared.lines) s.stderr_tee

absurd_ended : (o : Tee) → tee_done o ≡ false → tee_done o ≡ true → Unit {0} → (A : Type 0) → A
absurd_ended o h same u A = absurd (cc)

owner_stdout :
    (w : Owner) (o o' e : Tee) (v : Waiter)
    → tee_done o ≡ false
    → OwnerIsOk w o e v
    → OwnerIsOk w o' e v
owner_stdout owning o o' e v h k = tt
owner_stdout joining o o' e v h k = tt
owner_stdout (drained result) o o' e v h (p, q, r) = absurd_ended o h p tt _

owner_stderr :
    (w : Owner) (o e e' : Tee) (v : Waiter)
    → tee_done e ≡ false
    → OwnerIsOk w o e v
    → OwnerIsOk w o e' v
owner_stderr owning o e e' v h k = tt
owner_stderr joining o e e' v h k = tt
owner_stderr (drained result) o e e' v h (p, q, r) = absurd_ended e h q tt _

owner_waiter :
    (w : Owner) (o e : Tee) (v v' : Waiter)
    → is_returned v ≡ false
    → OwnerIsOk w o e v
    → OwnerIsOk w o e v'
owner_waiter owning o e v v' h k = tt
owner_waiter joining o e v v' h k = tt
owner_waiter (drained result) o e v v' h (p, q, r) = absurd (cc)

WaitMove-read :
    {g : Surroundings} {m m' : Shared} {t t' : Waiter} → WaitMove g m t m' t' → m'.lines ≡ m.lines
WaitMove-read (exit code t) = refl
WaitMove-read (exit_failed e) = refl
WaitMove-read (copy_exit code) = refl
WaitMove-read (persist_exit code snap) = refl
WaitMove-read (persist_exit_failed code snap fails) = refl

module _ (g : Surroundings) (calm : g.may_refresh ≡ false) where
  Step-IsOk : {s s' : System} → Step g s s' → IsOk g s → IsOk g s'
  Step-IsOk {s} (tee_stdout mv) (l, w, o, a, b) = (
    stdout_lines s.stderr_tee mv l,
    subst (WaiterIsOk s.waiter) (sym (TeeMove-finished mv)) w,
    owner_stdout s.owner s.stdout_tee _ s.stderr_tee s.waiter (TeeMove-ended mv) o,
    TeeMove-IsRead mv,
    subst (λ ls. IsRead (g.content stderr) ls s.stderr_tee) (sym (kept_of_stdout mv)) b,
  )
  Step-IsOk {s} (tee_stderr mv) (l, w, o, a, b) = (
    stderr_lines s.stdout_tee mv l,
    subst (WaiterIsOk s.waiter) (sym (TeeMove-finished mv)) w,
    owner_stderr s.owner s.stdout_tee s.stderr_tee _ s.waiter (TeeMove-ended mv) o,
    subst (λ ls. IsRead (g.content stdout) ls s.stdout_tee) (sym (kept_of_stderr mv)) a,
    TeeMove-IsRead mv,
  )
  Step-IsOk {s} (wait_task mv) (l, w, o, a, b) = (
    WaitMove-lines s.stdout_tee s.stderr_tee mv l,
    WaitMove-IsOk mv w,
    owner_waiter s.owner s.stdout_tee s.stderr_tee s.waiter _ (WaitMove-returned mv) o,
    subst (λ ls. IsRead (g.content stdout) (lines_of stdout ls) s.stdout_tee)
        (sym (WaitMove-read mv)) a,
    subst (λ ls. IsRead (g.content stderr) (lines_of stderr ls) s.stderr_tee)
        (sym (WaitMove-read mv)) b,
  )
  Step-IsOk (refresh_loaded snap may same) h = absurd (cc)
  Step-IsOk (refresh_sent snap before after may same) h = absurd (cc)
  Step-IsOk (wait_called own) (l, w, o, a, b) = (l, w, tt, a, b)
  Step-IsOk (wait_returned result own p q r) (l, w, o, a, b) = (l, w, (p, q, r), a, b)

  Steps-IsOk : {s s' : System} → Steps g s s' → IsOk g s → IsOk g s'
  Steps-IsOk here h = h
  Steps-IsOk (next steps step) h = Step-IsOk step (Steps-IsOk steps h)

settled :
    (snap : TssrunJobSnapshot) (t : Tee) (line : Text)
    → tee_done t ≡ true
    → LineIsOk snap t line
    → (heard (parse_salloc_jobid line) snap.jobid ≡ true)
      × (heard (parse_salloc_node line) snap.node ≡ true)
settled snap ended line d h = (ground arith, ground arith)
settled snap failed line d h = (ground arith, ground arith)
settled snap reading line d h = absurd (cc)
settled snap (parsing l) line d h = absurd (cc)
settled snap (jobid_parsed l updated) line d h = absurd (cc)
settled snap (node_parsed updated) line d h = absurd (cc)
settled snap (persisting x) line d h = absurd (cc)

-- Nothing is left to be taken from a line.
settled_line :
    (snap : TssrunJobSnapshot) (o e : Tee) (x : LogStream × Text)
    → tee_done o ≡ true
    → tee_done e ≡ true
    → LineIsOk snap (pick x.0 o e) x.1
    → (heard (parse_salloc_jobid x.1) snap.jobid ≡ true)
      × (heard (parse_salloc_node x.1) snap.node ≡ true)
settled_line snap o e (stdout, line) p q h = settled snap o line p h
settled_line snap o e (stderr, line) p q h = settled snap e line q h

drained_result :
    (w : Owner) (o e : Tee) (v : Waiter) (result : Result Text (Option ℤ))
    → w ≡ drained result
    → OwnerIsOk w o e v
    → (tee_done o ≡ true) × (tee_done e ≡ true) × (v ≡ returned result)
drained_result w o e v result same h = subst (λ x. OwnerIsOk x o e v) same h

-- The stream was read to its end, each of its lines in turn, or it failed.
abbrev pub WasRead : List Text → List Text → Tee → Type 0
WasRead content read tee = ((tee ≡ ended) × (content ≡ read)) ⊎ (tee ≡ failed)

was_read :
    (content read : List Text) (tee : Tee)
    → tee_done tee ≡ true
    → IsRead content read tee
    → WasRead content read tee
was_read content read ended d h = inl (refl, h)
was_read content read failed d h = inr refl
was_read content read reading d h = absurd (cc)
was_read content read (parsing line) d h = absurd (cc)
was_read content read (jobid_parsed line updated) d h = absurd (cc)
was_read content read (node_parsed updated) d h = absurd (cc)
was_read content read (persisting snap) d h = absurd (cc)

-- If nobody refreshes the handle: when `wait` has returned, each stream was read to its end, all that
-- the child wrote to it in its order, unless reading it failed. If a line that was read of either named
-- a job, or nodes, then the watch channel's snapshot has a job's number, or nodes. A code that `wait`
-- returned is the exit code that this snapshot records.
pub wait-drained :
    (init : TssrunJobSnapshot) (saved : Bool) (g : Surroundings) (s : System)
    (result : Result Text (Option ℤ))
    → g.may_refresh ≡ false
    → Steps g (from_spawn init saved) s
    → s.owner ≡ drained result
    → WasRead (g.content stdout) (lines_of stdout s.shared.lines) s.stdout_tee
      × WasRead (g.content stderr) (lines_of stderr s.shared.lines) s.stderr_tee
      × All
          (λ (x : LogStream × Text).
            (heard (parse_salloc_jobid x.1) s.shared.channel.jobid ≡ true)
            × (heard (parse_salloc_node x.1) s.shared.channel.node ≡ true))
          s.shared.lines
      × Matches result s.shared.channel.finished
wait-drained init saved g s result calm steps own =
    let (lines, waiter, owner, a, b) = Steps-IsOk g calm steps (start saved) in
    let (p, q, r) = drained_result s.owner s.stdout_tee s.stderr_tee s.waiter result own owner in
    (
      was_read (g.content stdout) (lines_of stdout s.shared.lines) s.stdout_tee p a,
      was_read (g.content stderr) (lines_of stderr s.shared.lines) s.stderr_tee q b,
      All-map (λ x h. settled_line s.shared.channel s.stdout_tee s.stderr_tee x p q h)
          s.shared.lines lines,
      subst (λ w. WaiterIsOk w s.shared.channel.finished) r waiter,
    )
  where
    start : (b : Bool) → IsOk g (from_spawn init b)
    start true = (tt, tt, tt, tt, tt)
    start false = (tt, tt, tt, tt, tt)

-- ===== src/Tssrun/Handle/Race.antt =====
-- The store may keep an old snapshot: a save of a snapshot that was taken before the end can come last.
use slurm_async_runner.Prelude.{
  ℕ, List, [], ◌∷◌, Option, none, some, Bool, true, false, ◌||◌, ok, ◌≡◌, refl, ap, arith,
}
use slurm_async_runner.Prelude.Text.{Text}
use slurm_async_runner.Prelude.Int.{ℤ}
use slurm_async_runner.Tssrun.{parse_salloc_jobid, parse_salloc_node}
use slurm_async_runner.Tssrun.Handle.{
  TssrunJobSnapshot, LogStream, stdout, stderr, Surroundings, set_once, updates, node_parsed,
  persisting, ended, Shared, System, drained, TeeMove, read_line, set_jobid, set_node, copy_update,
  persist, stream_end, exit, copy_exit, persist_exit, tee_stdout, tee_stderr, wait_task,
  wait_called, wait_returned, Steps, here, next, from_spawn, finished_with,
}

-- Nobody refreshes, no save fails, and the child writes one line, to its first stream.
abbrev pub only_line : Text → LogStream → List Text
only_line line stdout = line ∷ []
only_line line stderr = []

abbrev pub quiet : Text → Surroundings
quiet line = record { may_refresh = false; may_fail = false; content = only_line line }

copy_if :
    {g : Surroundings} {stream : LogStream} {m : Shared} (b : Bool)
    → b ≡ true
    → TeeMove g stream m (node_parsed b) m (persisting m.channel)
copy_if true h = copy_update
copy_if false h = absurd (cc)

-- What the task of the stream makes of the line.
abbrev with_line : Text → TssrunJobSnapshot → TssrunJobSnapshot
with_line line init = record init {
  jobid = set_once (parse_salloc_jobid line) init.jobid;
  node = set_once (parse_salloc_node line) init.node;
}

updated :
    (line : Text) (init : TssrunJobSnapshot) (j : ℕ)
    → parse_salloc_jobid line ≡ some j
    → init.jobid ≡ none
    → (updates (parse_salloc_jobid line) init.jobid || updates (parse_salloc_node line) init.node)
      ≡ true
updated line init j p q = ground arith

module _ (init : TssrunJobSnapshot) (line : Text) (code : Option ℤ) (t : ℤ)
    (changes : (updates (parse_salloc_jobid line) init.jobid
        || updates (parse_salloc_node line) init.node)
      ≡ true) where
  -- The line is taken; the child ends and its end is saved; then the save for the line is done.
  race :
      (s : System) × Steps (quiet line) (from_spawn init true) s
      × (s.stdout_tee ≡ ended)
      × (s.stderr_tee ≡ ended)
      × (s.owner ≡ drained (ok code))
      × (s.shared.channel ≡ finished_with code t (with_line line init))
      × (s.shared.stored ≡ some (with_line line init))
  race =
      let read : Steps (quiet line) (from_spawn init true) _ =
        next here (tee_stdout (read_line line [] refl)) in
      let parsed = next (next read (tee_stdout (set_jobid line))) (tee_stdout (set_node line _)) in
      let copied = next parsed (tee_stdout (copy_if _ changes)) in
      let exited = next (next copied (wait_task (exit code t))) (wait_task (copy_exit code)) in
      let saved = next exited (wait_task (persist_exit code _)) in
      let late = next saved (tee_stdout (persist (with_line line init))) in
      let closed = next (next late (tee_stdout (stream_end refl))) (tee_stderr (stream_end refl)) in
      let called = next closed (wait_called refl) in
      (_, next called (wait_returned (ok code) refl refl refl refl), refl, refl, refl, refl, refl)

-- For every job that has no number yet, every line that names one, and every exit code: if the child
-- writes this line and nothing else, no save can fail and nobody refreshes, there is a run in which both streams are read to their end, `wait` returns the
-- code, the watch channel's snapshot has it, and the snapshot in the store has no end.
pub finish_lost :
    (init : TssrunJobSnapshot) (line : Text) (j : ℕ) (code : Option ℤ) (t : ℤ)
    → init.jobid ≡ none
    → init.finished ≡ none
    → parse_salloc_jobid line ≡ some j
    → (s : System) × (snap : TssrunJobSnapshot) × Steps (quiet line) (from_spawn init true) s
      × (s.stdout_tee ≡ ended)
      × (s.stderr_tee ≡ ended)
      × (s.owner ≡ drained (ok code))
      × (s.shared.channel.finished ≡ some (record { exit_code = code; finished_at_unix = t }))
      × (s.shared.stored ≡ some snap)
      × (snap.finished ≡ none)
finish_lost init line j code t no_job no_end names =
    let (s, steps, p, q, r, channel, stored) =
      race init line code t (updated line init j names no_job) in
    (
      s,
      with_line line init,
      steps,
      p,
      q,
      r,
      ap (λ (c : TssrunJobSnapshot). c.finished) channel,
      stored,
      no_end,
    )

-- ===== src/Sbatch/Manager/Spawn.antt =====
-- What a submission leaves behind.
use mathlib.Core.Path.{subst}
use slurm_async_runner.Prelude.{
  ℕ, List, Option, none, some, true, false, Result, ok, err, ◌≡◌, refl, sym, ap, ◌∙◌, ◌⊎◌, inl, inr,
  arith,
}
use slurm_async_runner.Prelude.Text.{Text}
use slurm_async_runner.Dispatcher.{
  CaptureOutput, success, Effect, ◌>>=◌, ◌>>◌, pure, lift, map_err, >>=-inv, >>=-of_ok, >>=-of_err,
  map_err-inv, map_err-of_ok,
}
use slurm_async_runner.Sbatch.Parse.Submitted.{parse_submitted_jobid}
use slurm_async_runner.Sbatch.Cmd.{
  SbatchCmd, SbatchSpawnError, submitted_but_unpersisted, other, build_argv,
}
use slurm_async_runner.Sbatch.Handle.{SbatchJobSnapshot}
use slurm_async_runner.Sbatch.Manager.{
  Environment, resolved, absolutize, absolutize_step, argv_step, submitted_jobid, submit, register,
  spawn, new_snapshot, uuid_step,
}

submitted_jobid-inv :
    {W : Type 0} (env : Environment W) (out : CaptureOutput) (j : ℕ)
    → submitted_jobid env out ≡ ok j
    → (success out ≡ true) × (parse_submitted_jobid out.stdout ≡ some j)
unfolding submitted_jobid
submitted_jobid-inv env out j h = (ground arith, ground arith)

-- A snapshot of a job, or of a task of it, as the command says and before anything was observed of it.
abbrev pub IsSubmission : SbatchCmd → List Text → ℕ → Option ℕ → Text → SbatchJobSnapshot → Type 0
IsSubmission cmd argv jobid task script s = s ≡ record {
  uuid = s.uuid;
  jobid = jobid;
  array_task_id = task;
  argv = argv;
  sent_env = cmd.env;
  script_path = script;
  chdir = cmd.chdir;
  partition = cmd.partition;
  job_name = cmd.job_name;
  submitted_at = s.submitted_at;
  log = record { output_template = cmd.output; error_template = cmd.error };
  lifecycle = record {
    last_observed_state = none;
    last_observed_at = none;
    left_active_listing = false;
    finished = none;
  };
}

module _ {W : Type 0} (env : Environment W) where
  -- A snapshot that was registered is what the last save wrote.
  pub register-inv :
      (cmd : SbatchCmd) (argv : List Text) (jobid : ℕ) (task : Option ℕ) (uuid : ℕ) (script : Text)
      (w w' : W) (snap : SbatchJobSnapshot)
      → register env cmd argv jobid task uuid script w ≡ (ok snap, w')
      → (snap ≡ new_snapshot cmd argv jobid task uuid script (env.now w))
        × (env.store.save snap w ≡ (ok tt, w'))
  unfolding register
  register-inv cmd argv jobid task uuid script w w' snap h =
      let fresh = new_snapshot cmd argv jobid task uuid script (env.now w) in
      let save = env.store.save fresh in
      let (x, v, p, q) =
        >>=-inv (map_err (submitted_but_unpersisted jobid) save) (λ _. pure fresh) w w' snap h in
      let saved = map_err-inv (submitted_but_unpersisted jobid) save w v x p in
      let same : fresh ≡ snap = cc in
      let last : v ≡ w' = cc in (sym same, rw (sym same) (saved ∙ ap (λ u. (ok x, u)) last))

  -- What `spawn` does behind the arguments, and behind the number of the job.
  abbrev behind_argv : SbatchCmd → List Text → Effect SbatchSpawnError W SbatchJobSnapshot
  behind_argv cmd argv = do
    jobid ← submit env argv
    uuid ← uuid_step env
    script ← absolutize_step env cmd.script
    register env cmd argv jobid none uuid script

  abbrev behind_jobid : SbatchCmd → List Text → ℕ → Effect SbatchSpawnError W SbatchJobSnapshot
  behind_jobid cmd argv jobid = do
    uuid ← uuid_step env
    script ← absolutize_step env cmd.script
    register env cmd argv jobid none uuid script

  submit-inv :
      (argv : List Text) (w w' : W) (j : ℕ)
      → submit env argv w ≡ (ok j, w')
      → (out : CaptureOutput) × (env.capture argv w ≡ (ok out, w'))
        × (success out ≡ true)
        × (parse_submitted_jobid out.stdout ≡ some j)
  unfolding submit
  submit-inv argv w w' j h =
      let (out, v, p, q) =
        >>=-inv (map_err other (env.capture argv)) (λ o. lift (submitted_jobid env o)) w w' j h in
      let ran = map_err-inv other (env.capture argv) w v out p in
      let parsed : submitted_jobid env out ≡ ok j = cc in
      let last : v ≡ w' = cc in
      let (good, named) = submitted_jobid-inv env out j parsed in
      (out, ran ∙ ap (λ u. (ok out, u)) last, good, named)

  -- Where `spawn` returns a snapshot, `sbatch` ran once, with the arguments of the command, it
  -- succeeded, and the snapshot has the number that its output names. The snapshot has a new uuid, the
  -- time, the command's fields and the script's absolute path; it has no task, no observation and no
  -- end. Behind `sbatch` and the new uuid, saving it was all that happened, and it succeeded.
  pub spawn-ok :
      (cmd : SbatchCmd) (w w' : W) (snap : SbatchJobSnapshot)
      → spawn env cmd w ≡ (ok snap, w')
      → (argv : List Text) × (out : CaptureOutput) × (u : W) × (build_argv (absolutize env w) cmd
          ≡ ok argv)
        × (env.capture argv w ≡ (ok out, u))
        × (success out ≡ true)
        × (parse_submitted_jobid out.stdout ≡ some snap.jobid)
        × (absolutize env (env.new_uuid u).1 cmd.script ≡ ok snap.script_path)
        × (snap.uuid ≡ (env.new_uuid u).0)
        × (snap.submitted_at ≡ env.now (env.new_uuid u).1)
        × IsSubmission cmd argv snap.jobid none snap.script_path snap
        × (env.store.save snap (env.new_uuid u).1 ≡ (ok tt, w'))
  unfolding spawn
  spawn-ok cmd w w' snap h =
      let (argv, w0, p0, h0) = >>=-inv (argv_step env cmd) (behind_argv cmd) w w' snap h in
      let start : w ≡ w0 = cc in
      let built : build_argv (absolutize env w) cmd ≡ ok argv = cc in
      let (j, u, p1, h1) = >>=-inv (submit env argv) (behind_jobid cmd argv) w0 w' snap h0 in
      let (out, ran, good, parsed) = submit-inv argv w0 u j p1 in
      let uuid = (env.new_uuid u).0 in
      let (script, v, p2, h2) =
        >>=-inv (absolutize_step env cmd.script) (λ path. register env cmd argv j none uuid path)
          (env.new_uuid u).1 w' snap h1 in
      let here : (env.new_uuid u).1 ≡ v = cc in
      let path : absolutize env (env.new_uuid u).1 cmd.script ≡ ok script = cc in
      let (same, saved) = register-inv cmd argv j none uuid script v w' snap h2 in
      let fields : IsSubmission cmd argv snap.jobid none snap.script_path snap =
        subst (λ s. IsSubmission cmd argv s.jobid none s.script_path s) (sym same) refl in
      (
        argv,
        out,
        u,
        built,
        subst (λ x. env.capture argv x ≡ (ok out, u)) (sym start) ran,
        good,
        parsed ∙ ap (λ s. some s.jobid) (sym same),
        path ∙ ap (λ s. ok s.script_path) (sym same),
        ap (λ s. s.uuid) same,
        ap (λ s. s.submitted_at) same ∙ ap env.now (sym here),
        fields,
        subst (λ x. env.store.save snap x ≡ (ok tt, w')) (sym here) saved,
      )

  pub submit-ok :
      (argv : List Text) (out : CaptureOutput) (j : ℕ) (w u : W)
      → env.capture argv w ≡ (ok out, u)
      → success out ≡ true
      → parse_submitted_jobid out.stdout ≡ some j
      → submit env argv w ≡ (ok j, u)
  unfolding submit submitted_jobid
  submit-ok argv out j w u ran good named =
      let parsed : submitted_jobid env out ≡ ok j = ground arith in
      >>=-of_ok (map_err other (env.capture argv)) (λ o. lift (submitted_jobid env o)) w u out
        (map_err-of_ok other (env.capture argv) w u out ran)
      ∙ ap (λ r. (r, u)) parsed

  registered :
      (cmd : SbatchCmd) (argv : List Text) (j : ℕ) (uuid : ℕ) (script : Text) (w : W)
      → ((snap : SbatchJobSnapshot) × ((register env cmd argv j none uuid script w).0 ≡ ok snap)
          × (snap.jobid ≡ j))
        ⊎ ((e : Text) × ((register env cmd argv j none uuid script w).0
              ≡ err (submitted_but_unpersisted j e)))
  unfolding register
  registered cmd argv j uuid script w =
      let fresh = new_snapshot cmd argv j none uuid script (env.now w) in
      by_result (env.store.save fresh w).0 (env.store.save fresh w).1
    where
      by_result :
          (r : Result Text (Unit {0})) (v : W)
          → ((snap : SbatchJobSnapshot) × (((map_err (submitted_but_unpersisted j) (λ u. (r, v))
                    >> pure (new_snapshot cmd argv j none uuid script (env.now w)))
                  w).0
                ≡ ok snap)
              × (snap.jobid ≡ j))
            ⊎ ((e : Text) × (((map_err (submitted_but_unpersisted j) (λ u. (r, v))
                      >> pure (new_snapshot cmd argv j none uuid script (env.now w)))
                    w).0
                  ≡ err (submitted_but_unpersisted j e)))
      by_result (ok x) v = inl (new_snapshot cmd argv j none uuid script (env.now w), refl, refl)
      by_result (err e) v = inr (e, refl)

  -- What the rest of `spawn` does with the number of a job.
  NumberIsKept : SbatchCmd → ℕ → W → Result SbatchSpawnError SbatchJobSnapshot → Type 0
  NumberIsKept cmd j v r =
      ((path : Text) × (env.absolute v cmd.script ≡ ok path)
        × (((snap : SbatchJobSnapshot) × (r ≡ ok snap) × (snap.jobid ≡ j))
            ⊎ ((e : Text) × (r ≡ err (submitted_but_unpersisted j e)))))
      ⊎ ((e : Text) × (env.absolute v cmd.script ≡ err e) × (r ≡ err (other e)))

  kept :
      (cmd : SbatchCmd) (argv : List Text) (j : ℕ) (uuid : ℕ) (v : W) (a : Result Text Text)
      → env.absolute v cmd.script ≡ a
      → NumberIsKept cmd j v
          ((absolutize_step env cmd.script >>= λ path. register env cmd argv j none uuid path) v).0
  unfolding NumberIsKept
  kept cmd argv j uuid v (ok path) p =
      let run =
        >>=-of_ok (absolutize_step env cmd.script) (λ s. register env cmd argv j none uuid s) v v
          path (ap (λ a. (resolved a, v)) p) in
      subst (λ r. NumberIsKept cmd j v r.0) (sym run)
        (inl (path, p, registered cmd argv j uuid path v))
  kept cmd argv j uuid v (err e) p =
      let run =
        >>=-of_err (absolutize_step env cmd.script) (λ s. register env cmd argv j none uuid s) v v
          (other e) (ap (λ a. (resolved a, v)) p) in
      inr (e, p, ap (λ r. r.0) run)

  -- Once `sbatch` succeeded and named the number of a job, `spawn` returns a snapshot with that number,
  -- or the error that carries it because the snapshot was not saved, where the path of the script can
  -- be made absolute again. Only where that fails the number is lost: the error is the path's alone.
  pub spawn-submitted :
      (cmd : SbatchCmd) (argv : List Text) (out : CaptureOutput) (j : ℕ) (w u : W)
      → build_argv (absolutize env w) cmd ≡ ok argv
      → env.capture argv w ≡ (ok out, u)
      → success out ≡ true
      → parse_submitted_jobid out.stdout ≡ some j
      → ((path : Text) × (env.absolute (env.new_uuid u).1 cmd.script ≡ ok path)
          × (((snap : SbatchJobSnapshot) × ((spawn env cmd w).0 ≡ ok snap) × (snap.jobid ≡ j))
              ⊎ ((e : Text) × ((spawn env cmd w).0 ≡ err (submitted_but_unpersisted j e)))))
        ⊎ ((e : Text) × (env.absolute (env.new_uuid u).1 cmd.script ≡ err e)
            × ((spawn env cmd w).0 ≡ err (other e)))
  unfolding spawn NumberIsKept
  spawn-submitted cmd argv out j w u built ran good named =
      let run = submit-ok argv out j w u ran good named in
      let v = (env.new_uuid u).1 in
      let spawned : spawn env cmd w
          ≡ (absolutize_step env cmd.script >>= λ path.
                register env cmd argv j none (env.new_uuid u).0 path)
              v =
        >>=-of_ok (argv_step env cmd) (behind_argv cmd) w w argv (ap (λ r. (r, w)) built)
        ∙ >>=-of_ok (submit env argv) (behind_jobid cmd argv) w u j run in
      subst (λ r. NumberIsKept cmd j v r.0) (sym spawned)
        (kept cmd argv j (env.new_uuid u).0 v (env.absolute v cmd.script) refl)

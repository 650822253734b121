-- ===== src/Sbatch/Manager/Arrays.antt =====
-- The tasks of an array, from their submission to their handles.
use mathlib.Core.Path.{subst}
use slurm_async_runner.Prelude.{ℕ, List, [], ◌∷◌, map, some, ok, All, ◌≡◌, refl, sym, ap}
use slurm_async_runner.Prelude.Text.{Text}
use slurm_async_runner.Dispatcher.{Effect, ◌>>=◌, pure, >>=-inv}
use slurm_async_runner.Options.ArraySpec.{SlurmArraySpec, SpecIsValid}
use slurm_async_runner.Sbatch.Parse.{expand_array_indices}
use slurm_async_runner.Sbatch.Parse.Expand.{expand_array_indices_lem}
use slurm_async_runner.Sbatch.Cmd.{SbatchCmd, SbatchSpawnError, build_argv}
use slurm_async_runner.Sbatch.Handle.{SbatchJobSnapshot}
use slurm_async_runner.Sbatch.Manager.{
  Environment, absolutize, submit, register, register_tasks, spawn_tasks, spawn_array,
  absolutize_step, argv_step,
}
use slurm_async_runner.Sbatch.Manager.Spawn.{IsSubmission, register-inv}

-- A snapshot of a task of this job, as it was submitted.
abbrev pub IsTaskOf : SbatchCmd → List Text → ℕ → Text → SbatchJobSnapshot → Type 0
IsTaskOf cmd argv j script s = IsSubmission cmd argv j s.array_task_id script s

module _ {W : Type 0} (env : Environment W) where
  -- All that happens from one world to another is that each of these snapshots gets a new uuid and is
  -- saved, in this order and without an error.
  abbrev pub AreSaved : List SbatchJobSnapshot → W → W → Type 0
  AreSaved [] u w' = u ≡ w'
  AreSaved (s ∷ ss) u w' =
      (v : W) × (s.uuid ≡ (env.new_uuid u).0)
      × (env.store.save s (env.new_uuid u).1 ≡ (ok tt, v))
      × AreSaved ss v w'

  register_tasks-ok :
      (cmd : SbatchCmd) (argv : List Text) (j : ℕ) (script : Text) (indices : List ℕ) (w w' : W)
      (snaps : List SbatchJobSnapshot)
      → register_tasks env cmd argv j script indices w ≡ (ok snaps, w')
      → (map (λ s. s.array_task_id) snaps ≡ map some indices)
        × All (IsTaskOf cmd argv j script) snaps
        × AreSaved snaps w w'
  unfolding register_tasks
  register_tasks-ok cmd argv j script [] w w' snaps h =
      let nil : [] ≡ snaps = cc in
      let still : w ≡ w' = cc in
      subst
        (λ l.
          (map (λ s. s.array_task_id) l ≡ [])
          × All (IsTaskOf cmd argv j script) l
          × AreSaved l w w')
        nil (refl, tt, still)
  register_tasks-ok cmd argv j script (i ∷ indices) w w' snaps h =
      let uuid = (env.new_uuid w).0 in
      let later = λ (s : SbatchJobSnapshot).
        register_tasks env cmd argv j script indices >>= λ ss. pure (s ∷ ss) in
      let (s, v, p, q) =
        >>=-inv (register env cmd argv j (some i) uuid script) later (env.new_uuid w).1 w' snaps
          h in
      let (same, saved) =
        register-inv env cmd argv j (some i) uuid script (env.new_uuid w).1 v s p in
      let (ss, u, r, t) =
        >>=-inv (register_tasks env cmd argv j script indices) (λ ss. pure (s ∷ ss)) v w' snaps q in
      let (ids, tasks, saves) = register_tasks-ok cmd argv j script indices v u ss r in
      let last : u ≡ w' = cc in
      let cons : s ∷ ss ≡ snaps = cc in
      let task : IsTaskOf cmd argv j script s =
        subst (IsTaskOf cmd argv j script) (sym same) refl in
      let index : s.array_task_id ≡ some i = ap (λ x. x.array_task_id) same in
      subst
        (λ l.
          (map (λ x. x.array_task_id) l ≡ map some (i ∷ indices))
          × All (IsTaskOf cmd argv j script) l
          × AreSaved l w w')
        cons
        ((cc), (task, tasks), (v, ap (λ x. x.uuid) same, saved, subst (AreSaved ss v) last saves))

  abbrev behind_argv :
      SbatchCmd → List ℕ → List Text → Effect SbatchSpawnError W (List SbatchJobSnapshot)
  behind_argv cmd indices argv = do
    jobid ← submit env argv
    script ← absolutize_step env cmd.script
    register_tasks env cmd argv jobid script indices

  Spawned : SbatchCmd → List ℕ → W → List SbatchJobSnapshot → W → Type 0
  Spawned cmd indices w snaps w' =
      (argv : List Text) × (j : ℕ) × (u : W) × (script : Text) × (build_argv (absolutize env w) cmd
        ≡ ok argv)
      × (submit env argv w ≡ (ok j, u))
      × (absolutize env u cmd.script ≡ ok script)
      × (map (λ s. s.array_task_id) snaps ≡ map some indices)
      × All (IsTaskOf cmd argv j script) snaps
      × AreSaved snaps u w'

  behind-inv :
      (cmd : SbatchCmd) (indices : List ℕ) (w w' : W) (snaps : List SbatchJobSnapshot)
      → (argv_step env cmd >>= behind_argv cmd indices) w ≡ (ok snaps, w')
      → Spawned cmd indices w snaps w'
  unfolding Spawned
  behind-inv cmd indices w w' snaps go =
      let (argv, w0, p0, h0) =
        >>=-inv (argv_step env cmd) (behind_argv cmd indices) w w' snaps go in
      let start : w ≡ w0 = cc in
      let built : build_argv (absolutize env w) cmd ≡ ok argv = cc in
      let (j, u, p1, h1) =
        >>=-inv (submit env argv)
          (λ jobid. absolutize_step env cmd.script >>= λ script.
            register_tasks env cmd argv jobid script indices)
          w0 w' snaps h0 in
      let (script, v, p2, h2) =
        >>=-inv (absolutize_step env cmd.script)
          (λ path. register_tasks env cmd argv j path indices) u w' snaps h1 in
      let (ids, tasks, saves) = register_tasks-ok cmd argv j script indices v w' snaps h2 in
      let here : u ≡ v = cc in
      let path : absolutize env u cmd.script ≡ ok script = cc in
      (
        argv,
        j,
        u,
        script,
        built,
        subst (λ x. submit env argv x ≡ (ok j, u)) (sym start) p1,
        path,
        ids,
        tasks,
        subst (λ x. AreSaved snaps x w') (sym here) saves,
      )

  spawn_tasks-ok :
      (cmd : SbatchCmd) (indices : List ℕ) (w w' : W) (snaps : List SbatchJobSnapshot)
      → spawn_tasks env cmd indices w ≡ (ok snaps, w')
      → Spawned cmd indices w snaps w'
  unfolding spawn_tasks
  spawn_tasks-ok cmd [] w w' snaps h = absurd (cc)
  spawn_tasks-ok cmd (i ∷ indices) w w' snaps h = behind-inv cmd (i ∷ indices) w w' snaps h

  -- For a valid array option `spawn_array` comes to a result.
  spawn_array-total :
      (cmd : SbatchCmd) (spec : SlurmArraySpec)
      → SpecIsValid spec
      → (run : Effect SbatchSpawnError W (List SbatchJobSnapshot)) × (spawn_array env cmd spec
          ≡ some run)
  unfolding spawn_array
  spawn_array-total cmd spec valid =
      let (indices, expands, lists) = expand_array_indices_lem spec valid in
      (spawn_tasks env (record cmd { array_spec = some spec }) indices, rw expands refl)

  -- Where `spawn_array` of a valid array option returns snapshots, `sbatch` was run once, with the
  -- arguments of the command with that option, and it named one job. There is one snapshot for each
  -- index of the option's expansion, in its order, and all are of that job, with the command's fields
  -- and no observation. Behind `sbatch`, each got a new uuid and was saved, and nothing else happened.
  pub spawn_array-ok :
      (cmd : SbatchCmd) (spec : SlurmArraySpec)
      (run : Effect SbatchSpawnError W (List SbatchJobSnapshot)) (w w' : W)
      (snaps : List SbatchJobSnapshot)
      → SpecIsValid spec
      → spawn_array env cmd spec ≡ some run
      → run w ≡ (ok snaps, w')
      → (indices : List ℕ) × (argv : List Text) × (j : ℕ) × (u : W) × (script : Text)
        × (expand_array_indices spec ≡ some indices)
        × (build_argv (absolutize env w) (record cmd { array_spec = some spec }) ≡ ok argv)
        × (submit env argv w ≡ (ok j, u))
        × (absolutize env u cmd.script ≡ ok script)
        × (map (λ s. s.array_task_id) snaps ≡ map some indices)
        × All (IsTaskOf (record cmd { array_spec = some spec }) argv j script) snaps
        × AreSaved snaps u w'
  unfolding spawn_array Spawned
  spawn_array-ok cmd spec run w w' snaps valid spawns h =
      let (indices, expands, lists) = expand_array_indices_lem spec valid in
      let same : run ≡ spawn_tasks env (record cmd { array_spec = some spec }) indices = cc in
      let (argv, j, u, script, built, named, path, ids, tasks, saves) =
        spawn_tasks-ok (record cmd { array_spec = some spec }) indices w w' snaps
          (subst (λ r. r w ≡ (ok snaps, w')) same h) in
      (indices, argv, j, u, script, expands, built, named, path, ids, tasks, saves)

-- ===== src/Tssrun/Manager/Attach.antt =====
-- What starting and attaching give.
use mathlib.Core.Path.{subst}
use slurm_async_runner.Prelude.{
  ℕ, List, [], ◌∷◌, Option, none, some, Bool, true, Result, ok, err, ok_or, ◌==◌, ==_iff, ◌≡◌, refl,
  sym, ap, ◌∙◌, arith, Bool-cases, inl, inr,
}
use slurm_async_runner.Prelude.Text.{Text}
use slurm_async_runner.Prelude.Int.{ℤ}
use slurm_async_runner.Dispatcher.{M, ◌>>=◌, pure, lift, map_err, >>=-inv, map_err-inv}
use slurm_async_runner.Store.{JobStateStore, find, is_job, find_by_jobid}
use slurm_async_runner.Store.Envelope.{Json, Serde}
use slurm_async_runner.Tssrun.{TssrunCmd, build_argv}
use slurm_async_runner.Tssrun.Handle.{
  TssrunJobSnapshot, tssrun_snapshot, find_by_pid, System, from_spawn,
}
use slurm_async_runner.Tssrun.Manager.{
  AttachKey, by_uuid, by_pid, by_job_id, by_file, argv_build, spawn_failed, attach_io, not_found,
  Environment, first_snapshot, start_tasks, spawn_with, attach, saved, uuid_step, clock,
}

-- What was found passes the test, and so was listed.
find-holds : {S : Type 0} (p : S → Bool) (ss : List S) (s : S) → find p ss ≡ some s → p s ≡ true
find-holds p [] s h = absurd (cc)
find-holds p (t ∷ ss) s h = elim (Bool-cases (p t)) [
  | inl e ↦ ground arith
  | inr e ↦ find-holds p ss s (ground arith)
]

ok_or-inv : {E A : Type 0} (o : Option A) (e : E) (a : A) → ok_or o e ≡ ok a → o ≡ some a
ok_or-inv none e a h = absurd (cc)
ok_or-inv (some b) e a h = cc

-- What the key says of the snapshot.
abbrev pub Fits : AttachKey → TssrunJobSnapshot → Type 0
Fits (by_pid pid) s = s.pid ≡ pid
Fits (by_job_id jobid) s = s.jobid ≡ some jobid
Fits (by_uuid uuid) s = Unit {0}
Fits (by_file path) s = Unit {0}

module _ {W : Type 0} (store : JobStateStore TssrunJobSnapshot W) where
  found_in_list :
      (p : TssrunJobSnapshot → Bool) (w w' : W) (s : TssrunJobSnapshot)
      → (store.list >>= λ snaps. pure (find p snaps)) w ≡ (ok (some s), w')
      → p s ≡ true
  found_in_list p w w' s h =
      let (snaps, u, q, r) = >>=-inv store.list (λ l. pure (find p l)) w w' (some s) h in
      find-holds p snaps s (cc)

  option_of_is_job : (j : ℕ) (o : Option ℕ) → is_job j o ≡ true → o ≡ some j
  option_of_is_job j none h = absurd (cc)
  option_of_is_job j (some k) h = ap some ((==_iff k j).0 h)

module _ {W Value : Type 0} (json : Json Value) (serde : Serde Value TssrunJobSnapshot)
    (env : Environment W) where
  found-inv :
      (m : M W (Option TssrunJobSnapshot)) (key : AttachKey) (w w' : W) (s : TssrunJobSnapshot)
      → (map_err attach_io m >>= λ found. lift (ok_or found (not_found key))) w ≡ (ok s, w')
      → (u : W) × (m w ≡ (ok (some s), u))
  found-inv m key w w' s h =
      let (found, u, p, q) =
        >>=-inv (map_err attach_io m) (λ o. lift (ok_or o (not_found key))) w w' s h in
      let is : found ≡ some s = ok_or-inv found (not_found key) s (cc) in
      (u, map_err-inv attach_io m w u found p ∙ ap (λ o. (ok o, u)) is)

  -- A snapshot that was attached to by a process number, or by a job's number, has that number.
  pub attach-Fits :
      (key : AttachKey) (w w' : W) (s : TssrunJobSnapshot)
      → attach json serde env key w ≡ (ok s, w')
      → Fits key s
  unfolding attach find_by_pid find_by_jobid
  attach-Fits (by_uuid uuid) w w' s h = tt
  attach-Fits (by_file path) w w' s h = tt
  attach-Fits (by_pid pid) w w' s h =
      let (u, e) = found-inv (find_by_pid env.store pid) (by_pid pid) w w' s h in
      (==_iff s.pid pid).0 (found_in_list env.store (λ x. x.pid == pid) w u s e)
  attach-Fits (by_job_id jobid) w w' s h =
      let (u, e) =
        found-inv (find_by_jobid tssrun_snapshot env.store jobid) (by_job_id jobid) w w' s h in
      option_of_is_job env.store jobid s.jobid
        (found_in_list env.store (λ x. is_job jobid x.jobid) w u s e)

-- What a handle relies on: a snapshot that was saved is what a load of its uuid gives next.
pub record StoreIsLawful {W : Type 0} (env : Environment W) : Type 0 where
  pub load-save :
      (s : TssrunJobSnapshot) (w w' : W)
      → env.store.save s w ≡ (ok tt, w')
      → (env.store.load s.uuid w').0 ≡ ok (some s)

module _ {W : Type 0} (env : Environment W) where
  Started : TssrunCmd → W → System → W → Type 0
  Started cmd w s w' =
      (argv : List Text) × (pid uuid : ℕ) × (t : ℤ) × (u v : W) × (build_argv env.absolutize cmd
        ≡ ok argv)
      × (env.start argv cmd.env cmd.cwd w ≡ (ok pid, u))
      × (start_tasks env (first_snapshot cmd argv pid uuid t) v ≡ (ok s, w'))

  spawn_with-inv :
      (cmd : TssrunCmd) (w w' : W) (s : System)
      → spawn_with env cmd w ≡ (ok s, w')
      → Started cmd w s w'
  unfolding spawn_with Started
  spawn_with-inv cmd w w' s h =
      let behind_pid = λ (argv : List Text) (pid : ℕ). uuid_step env >>= λ uuid.
      clock env >>= λ t. start_tasks env (first_snapshot cmd argv pid uuid t) in
      let behind_argv = λ (argv : List Text).
        map_err spawn_failed (env.start argv cmd.env cmd.cwd) >>= behind_pid argv in
      let (argv, w0, p, q) =
        >>=-inv (map_err argv_build (lift (build_argv env.absolutize cmd))) behind_argv w w' s h in
      let built = map_err-inv argv_build (lift (build_argv env.absolutize cmd)) w w0 argv p in
      let (pid, u, r, e) =
        >>=-inv (map_err spawn_failed (env.start argv cmd.env cmd.cwd)) (behind_pid argv) w0 w' s
          q in
      let started = map_err-inv spawn_failed (env.start argv cmd.env cmd.cwd) w0 u pid r in
      (
        argv,
        pid,
        (env.new_uuid u).0,
        env.now_unix (env.new_uuid u).1,
        u,
        (env.new_uuid u).1,
        ap (λ x. x.0) built,
        subst (λ x. env.start argv cmd.env cmd.cwd x ≡ (ok pid, u)) (sym (ap (λ x. x.1) built))
            started,
        e,
      )

  saved-inv :
      (init : TssrunJobSnapshot) (r : Result Text (Unit {0})) (snap : TssrunJobSnapshot)
      → (from_spawn init (saved env r)).shared.stored ≡ some snap
      → r ≡ ok tt
  saved-inv init (ok tt) snap h = refl
  saved-inv init (err e) snap h = absurd (cc)

  kept-inv :
      (init snap : TssrunJobSnapshot) (v w' : W) (s : System)
      → start_tasks env init v ≡ (ok s, w')
      → s.shared.stored ≡ some snap
      → (env.store.save init v ≡ (ok tt, w')) × (s.shared.channel ≡ init)
  unfolding start_tasks
  kept-inv init snap v w' s h kept =
      let system : from_spawn init (saved env (env.store.save init v).0) ≡ s = cc in
      let last : (env.store.save init v).1 ≡ w' = cc in
      let good =
        saved-inv init (env.store.save init v).0 snap
          (ap (λ (x : System). x.shared.stored) system ∙ kept) in
      (λ i. (good i, last i), ap (λ (x : System). x.shared.channel) (sym system))

module _ {W Value : Type 0} (json : Json Value) (serde : Serde Value TssrunJobSnapshot)
    (env : Environment W) where
  loaded :
      (u : ℕ) (s : TssrunJobSnapshot) (w : W)
      → (env.store.load u w).0 ≡ ok (some s)
      → (attach json serde env (by_uuid u) w).0 ≡ ok s
  unfolding attach
  loaded u s w h = cc

  -- A job that was started, and whose first save did not fail, is attached to by its uuid with the
  -- snapshot that its watch channel holds at the start.
  pub attach-spawn_with :
      (cmd : TssrunCmd) (w w' : W) (s : System) (snap : TssrunJobSnapshot)
      → StoreIsLawful env
      → spawn_with env cmd w ≡ (ok s, w')
      → s.shared.stored ≡ some snap
      → (attach json serde env (by_uuid s.shared.channel.uuid) w').0 ≡ ok s.shared.channel
  unfolding Started
  attach-spawn_with cmd w w' s snap law h kept =
      let (argv, pid, uuid, t, u, v, built, started, begun) = spawn_with-inv env cmd w w' s h in
      let init = first_snapshot cmd argv pid uuid t in
      let (saves, same) = kept-inv env init snap v w' s begun kept in
      subst (λ x. (attach json serde env (by_uuid x.uuid) w').0 ≡ ok x) (sym same)
        (loaded uuid init w' (law.load-save init v w' saves))

module _ {W : Type 0} (env : Environment W) where
  saved-ok : (r : Result Text (Unit {0})) → r ≡ ok tt → saved env r ≡ true
  saved-ok (ok tt) h = refl
  saved-ok (err e) h = absurd (cc)

  -- Where no save fails, the store has the snapshot of a job that was started.
  pub spawn_with-stored :
      (cmd : TssrunCmd) (w w' : W) (s : System)
      → ((snap : TssrunJobSnapshot) (v : W) → (env.store.save snap v).0 ≡ ok tt)
      → spawn_with env cmd w ≡ (ok s, w')
      → s.shared.stored ≡ some s.shared.channel
  unfolding Started start_tasks
  spawn_with-stored cmd w w' s saves h =
      let (argv, pid, uuid, t, u, v, built, started, begun) = spawn_with-inv env cmd w w' s h in
      let init = first_snapshot cmd argv pid uuid t in
      let system : from_spawn init (saved env (env.store.save init v).0) ≡ s = cc in
      let kept = saved-ok (env.store.save init v).0 (saves init v) in
      subst (λ (x : System). x.shared.stored ≡ some x.shared.channel) system
        (subst (λ b. (from_spawn init b).shared.stored ≡ some init) (sym kept) refl)

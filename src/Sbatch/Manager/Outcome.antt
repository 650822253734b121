-- ===== src/Sbatch/Manager/Outcome.antt =====
-- What `run` and `cancel` conclude.
use slurm_async_runner.Prelude.{
  suc, ℕ, List, [], ◌∷◌, Option, none, some, true, if◌then◌else◌, Result, ok, err, ok_or, is_some,
  ◌≡◌, refl, sym, ap, ◌∙◌, arith, ◌↔◌,
}
use slurm_async_runner.Prelude.Text.{Text}
use slurm_async_runner.Prelude.Number.{show}
use slurm_async_runner.Dispatcher.{
  CaptureOutput, success, ◌>>=◌, lift, map_err, >>=-inv, map_err-inv, >>=-of_ok, map_err-of_ok,
}
use slurm_async_runner.Status.State.{JobState, completed}
use slurm_async_runner.Options.ArraySpec.{SlurmArraySpec}
use slurm_async_runner.Polling.Laws.{polls, wait_loop-ends}
use slurm_async_runner.Sbatch.Handle.{refresh}
use slurm_async_runner.Sbatch.Handle.{
  SbatchJobSnapshot, FinishedInfo, Handle, refresh_with_sacct, wait_terminal, settled,
}
use slurm_async_runner.Sbatch.Handle.Wait.{wait_terminal-settled}
use slurm_async_runner.Sbatch.Manager.{
  Environment, SbatchManager, SbatchRunError, spawn_error, array_not_supported, sacct_error,
  missing_finished, cancel_other, spawn,
}
use slurm_async_runner.Sbatch.Manager.Run.{
  verdict_of, handle_services, conclude_run, after_wait, after_spawn, run_with, cancel_result,
  cancel,
}

verdict_of-ok :
    (s : JobState) (f g : FinishedInfo) → verdict_of s f ≡ ok g → (s ≡ completed) × (f ≡ g)
verdict_of-ok completed f g h = (refl, cc)
verdict_of-ok s f g h = absurd (cc)

ok_or-inv : {E A : Type 0} (o : Option A) (e : E) (a : A) → ok_or o e ≡ ok a → o ≡ some a
ok_or-inv none e a h = absurd (cc)
ok_or-inv (some b) e a h = cc

module _ {W : Type 0} (env : Environment W) where
  -- The last poll's snapshot, and the resolution through `sacct` behind it.
  abbrev pub Concluded : Handle W → FinishedInfo → Type 0
  Concluded h f =
      (last : SbatchJobSnapshot) × (h' : Handle W) × (refresh_with_sacct (handle_services env) h
        ≡ (ok last, h'))
      × (last.lifecycle.finished ≡ some f)
      × (f.final_state ≡ completed)

  conclude_run-ok :
      (j : ℕ) (h h' : Handle W) (f : FinishedInfo)
      → conclude_run env j h ≡ (ok f, h')
      → Concluded h f
  unfolding conclude_run
  conclude_run-ok j h h' f e =
      let behind_snap = λ (snap : SbatchJobSnapshot).
        lift {W = Handle W} (ok_or snap.lifecycle.finished (missing_finished j)) >>= λ g.
        lift (verdict_of g.final_state g) in
      let (last, u, p, q) =
        >>=-inv (map_err sacct_error (refresh_with_sacct (handle_services env))) behind_snap h h' f
          e in
      let ran = map_err-inv sacct_error (refresh_with_sacct (handle_services env)) h u last p in
      let (g, v, r, s) =
        >>=-inv (lift {W = Handle W} (ok_or last.lifecycle.finished (missing_finished j)))
          (λ g. lift (verdict_of g.final_state g)) u h' f q in
      let found = ok_or-inv last.lifecycle.finished (missing_finished j) g (cc) in
      let (done, same) = verdict_of-ok g.final_state g f (cc) in
      (last, u, ran, found ∙ ap some same, ap (λ x. x.final_state) (sym same) ∙ done)

  after_wait-ok :
      (j : ℕ) (o : Option (Result Text SbatchJobSnapshot)) (h : Handle W) (w' : W)
      (f : FinishedInfo)
      → after_wait env j (o, h) ≡ (some (ok f), w')
      → (snap : SbatchJobSnapshot) × (o ≡ some (ok snap)) × Concluded h f
  unfolding after_wait
  after_wait-ok j none h w' f e = absurd (cc)
  after_wait-ok j (some (err x)) h w' f e = absurd (cc)
  after_wait-ok j (some (ok snap)) h w' f e =
      let result : (conclude_run env j h).0 ≡ ok f = cc in
      (
        snap,
        refl,
        conclude_run-ok j h (conclude_run env j h).1 f
            (ap (λ r. (r, (conclude_run env j h).1)) result),
      )

  after_spawn-ok :
      (sleep : Handle W → Handle W) (rounds : ℕ) (on_spawn : ℕ → W → W)
      (q : Result SbatchRunError SbatchJobSnapshot × W) (w' : W) (f : FinishedInfo)
      → after_spawn env sleep rounds on_spawn q ≡ (some (ok f), w')
      → (snap : SbatchJobSnapshot) × (u : W) × (q ≡ (ok snap, u))
        × (after_wait env snap.jobid (
              wait_terminal
                (handle_services env)
                sleep
                rounds
                (record { snapshot = snap; world = on_spawn snap.jobid u }))
            ≡ (some (ok f), w'))
  unfolding after_spawn
  after_spawn-ok sleep rounds on_spawn (err x, u) w' f e = absurd (cc)
  after_spawn-ok sleep rounds on_spawn (ok snap, u) w' f e = (snap, u, refl, e)

  run_with-single :
      {A : Type 0} (o : Option A) (q : Result SbatchRunError SbatchJobSnapshot × W)
      (sleep : Handle W → Handle W) (rounds : ℕ) (on_spawn : ℕ → W → W) (w w' : W)
      (f : FinishedInfo)
      → (if is_some o
          then (some (err array_not_supported), w)
          else after_spawn env sleep rounds on_spawn q)
        ≡ (some (ok f), w')
      → (o ≡ none) × (after_spawn env sleep rounds on_spawn q ≡ (some (ok f), w'))
  run_with-single none q sleep rounds on_spawn w w' f e = (refl, e)
  run_with-single (some a) q sleep rounds on_spawn w w' f e = absurd (cc)

  -- Where `run` returns, the command has no array option, the job was submitted, a poll found it settled
  -- (in a terminal state, or gone from the listings), and the resolution behind that poll has the
  -- information that is returned, with the final state `COMPLETED`.
  pub run_with-ok :
      (manager : SbatchManager) (sleep : Handle W → Handle W) (rounds : ℕ) (on_spawn : ℕ → W → W)
      (w w' : W) (f : FinishedInfo)
      → run_with env manager sleep rounds on_spawn w ≡ (some (ok f), w')
      → (manager.cmd.array_spec ≡ none)
        × (snap polled : SbatchJobSnapshot) × (u : W) × (h : Handle W) × (spawn env manager.cmd w
            ≡ (ok snap, u))
        × (wait_terminal
              (handle_services env)
              sleep
              rounds
              (record { snapshot = snap; world = on_spawn snap.jobid u })
            ≡ (some (ok polled), h))
        × (settled polled.lifecycle ≡ true)
        × Concluded h f
  unfolding run_with
  run_with-ok manager sleep rounds on_spawn w w' f e =
      let (single, started) =
        run_with-single manager.cmd.array_spec (map_err spawn_error (spawn env manager.cmd) w) sleep
          rounds on_spawn w w' f e in
      let (snap, u, spawned, waited) = after_spawn-ok sleep rounds on_spawn _ w' f started in
      let start : Handle W = record { snapshot = snap; world = on_spawn snap.jobid u } in
      let h = (wait_terminal (handle_services env) sleep rounds start).1 in
      let (polled, found, concluded) =
        after_wait-ok snap.jobid (wait_terminal (handle_services env) sleep rounds start).0 h w' f
          waited in
      let waits = ap (λ o. (o, h)) found in
      let (done, kept) =
        wait_terminal-settled (handle_services env) sleep rounds start h polled waits in
      (
        single,
        snap,
        polled,
        u,
        h,
        map_err-inv spawn_error (spawn env manager.cmd) w u snap spawned,
        waits,
        done,
        concluded,
      )

  code_zero : (out : CaptureOutput) → cancel_result env out ≡ ok tt → success out ≡ true
  unfolding cancel_result
  code_zero out h = ground arith

  cancel_result-zero : (out : CaptureOutput) → success out ≡ true → cancel_result env out ≡ ok tt
  unfolding cancel_result
  cancel_result-zero out h = ground arith

  -- `cancel` succeeds exactly where `scancel` of that job's number could be run and ended with code zero.
  pub cancel_iff :
      (manager : SbatchManager) (j : ℕ) (w w' : W)
      → (cancel env manager j w ≡ (ok tt, w')) ↔ (
          (out : CaptureOutput) × (env.capture (manager.scancel_bin ∷ show j ∷ []) w ≡ (ok out, w'))
          × (success out ≡ true))
  unfolding cancel
  cancel_iff manager j w w' = (forward, backward)
    where
      argv : List Text
      argv = manager.scancel_bin ∷ show j ∷ []

      forward :
          cancel env manager j w ≡ (ok tt, w')
          → (out : CaptureOutput) × (env.capture argv w ≡ (ok out, w')) × (success out ≡ true)
      forward h =
          let (out, u, p, q) =
            >>=-inv (map_err cancel_other (env.capture argv)) (λ o. lift (cancel_result env o)) w w'
              tt h in
          let ran = map_err-inv cancel_other (env.capture argv) w u out p in
          let last : u ≡ w' = cc in (out, ran ∙ ap (λ v. (ok out, v)) last, code_zero out (cc))

      backward :
          (out : CaptureOutput) × (env.capture argv w ≡ (ok out, w')) × (success out ≡ true)
          → cancel env manager j w ≡ (ok tt, w')
      backward (out, ran, good) =
          >>=-of_ok (map_err cancel_other (env.capture argv)) (λ o. lift (cancel_result env o)) w w'
            out (map_err-of_ok cancel_other (env.capture argv) w w' out ran)
          ∙ ap (λ r. (r, w')) (cancel_result-zero out good)

  after_wait-some :
      (j : ℕ) (o : Option (Result Text SbatchJobSnapshot)) (h : Handle W)
      → is_some o ≡ true
      → is_some (after_wait env j (o, h)).0 ≡ true
  unfolding after_wait
  after_wait-some j none h e = absurd (cc)
  after_wait-some j (some (err x)) h e = refl
  after_wait-some j (some (ok snap)) h e = refl

  -- A submission that succeeded is waited for.
  run_with-spawned :
      (manager : SbatchManager) (sleep : Handle W → Handle W) (rounds : ℕ) (on_spawn : ℕ → W → W)
      (w u : W) (snap : SbatchJobSnapshot)
      → manager.cmd.array_spec ≡ none
      → spawn env manager.cmd w ≡ (ok snap, u)
      → run_with env manager sleep rounds on_spawn w
        ≡ after_wait env snap.jobid (
            wait_terminal
              (handle_services env)
              sleep
              rounds
              (record { snapshot = snap; world = on_spawn snap.jobid u }))
  unfolding run_with after_spawn
  run_with-spawned manager sleep rounds on_spawn w u snap single spawned =
      ap
        (λ (o : Option SlurmArraySpec).
          if is_some o
          then (some (err array_not_supported), w)
          else after_spawn env sleep rounds on_spawn
              (map_err spawn_error (spawn env manager.cmd) w))
        single
      ∙ ap (after_spawn env sleep rounds on_spawn)
          (map_err-of_ok spawn_error (spawn env manager.cmd) w u snap spawned)

  -- `run` comes to a result, a success or an error, within `n + 1` polls, if the job is no array, its
  -- submission succeeds, and poll number `n` (from 0) succeeds and finds it in a terminal state or gone
  -- from the listings, whatever the polls before it return.
  pub run_with-ends :
      (manager : SbatchManager) (sleep : Handle W → Handle W) (n : ℕ) (on_spawn : ℕ → W → W)
      (w u : W) (snap polled : SbatchJobSnapshot) (h : Handle W)
      → manager.cmd.array_spec ≡ none
      → spawn env manager.cmd w ≡ (ok snap, u)
      → refresh (handle_services env) (
          polls
            (refresh (handle_services env))
            sleep
            n
            (record { snapshot = snap; world = on_spawn snap.jobid u }))
        ≡ (ok polled, h)
      → settled polled.lifecycle ≡ true
      → is_some (run_with env manager sleep (suc n) on_spawn w).0 ≡ true
  run_with-ends manager sleep n on_spawn w u snap polled h single spawned poll done =
      let start : Handle W = record { snapshot = snap; world = on_spawn snap.jobid u } in
      let ends =
        wait_loop-ends (refresh (handle_services env)) (λ s. settled s.lifecycle) sleep n 0 start h
          polled poll done in
      ap (λ q. is_some q.0)
        (run_with-spawned manager sleep (suc n) on_spawn w u snap single spawned)
      ∙ after_wait-some snap.jobid (wait_terminal (handle_services env) sleep (suc n) start).0
          (wait_terminal (handle_services env) sleep (suc n) start).1 ends

-- ===== src/Sbatch/Handle/Amid.antt =====
-- `refresh_with_sacct` with other clones of the handle at work between its two parts.
use slurm_async_runner.Prelude.{
  none, not, ◌&&◌, ok, ◌≡◌, refl, ◌⊎◌, inl, inr, Bool-cases, is_some, arith,
}
use slurm_async_runner.Dispatcher.{◌>>◌, >>=-inv}
use slurm_async_runner.Status.State
use slurm_async_runner.Runner.{JobOutcome}
use slurm_async_runner.Sbatch.Handle.{
  Handle, Services, SbatchJobSnapshot, publish, sacct_outcome, record_outcome, finalize, refresh,
  refresh_with_sacct_amid, is_finished, settled, is_unknown, reappeared, finished_with,
}
use slurm_async_runner.Sbatch.Handle.Effects.{Post, Post-outside, Post-weaker, of_Post}
use slurm_async_runner.Sbatch.Handle.Refresh.{Published, Kept, publish_post}
use slurm_async_runner.Sbatch.Handle.Finalize.{IsConcluded, none_of}

module _ {W : Type 0} (services : Services W) where
  -- The second part concludes the snapshot that it was given, and writes it over whatever the channel
  -- holds, or it leaves both as they are.
  abbrev pub Concludes :
      SbatchJobSnapshot → SbatchJobSnapshot → SbatchJobSnapshot → Handle W → Type 0
  Concludes a held new v =
      IsConcluded a new × ((v.snapshot ≡ new) ⊎ ((new ≡ a) × (v.snapshot ≡ held)))

  published :
      (u : Handle W) (a new : SbatchJobSnapshot)
      → IsConcluded a new
      → Post (publish services new) u (Concludes a u.snapshot) (Kept u.snapshot)
  published u a new c =
      Post-weaker (publish services new) u (Published (IsConcluded a)) (Concludes a u.snapshot)
        (Kept u.snapshot) (Kept u.snapshot) (λ s v p. (p.1, inl p.0)) (λ v e. e)
        (publish_post services u new (IsConcluded a) c)

  record_outcome-Concludes :
      (u : Handle W) (a : SbatchJobSnapshot) (o : JobOutcome)
      → a.lifecycle.finished ≡ none
      → Post (record_outcome services a o) u (Concludes a u.snapshot) (Kept u.snapshot)
  unfolding record_outcome
  record_outcome-Concludes u a o n =
      elim (Bool-cases (is_unknown o.status.state && not (is_some o.exit_code))) [
        | inl e ↦ rw e ((refl, inl refl), inr (refl, refl))
        | inr e ↦
            elim (Bool-cases
              (not (is_unknown o.status.state) && not (State.is_terminal o.status.state))) [
                | inl f ↦
                    rw (e, f)
                      (published u a (reappeared o.status (services.now u.world) a)
                        (refl, inl refl))
                | inr f ↦
                    rw (e, f)
                      (published u a (finished_with o (services.now u.world) a)
                        (refl, inr (n, _, refl, ground arith)))
              ]
      ]

  finalize-Concludes :
      (u : Handle W) (a : SbatchJobSnapshot)
      → Post (finalize services a) u (Concludes a u.snapshot) (Kept u.snapshot)
  unfolding finalize
  finalize-Concludes u a = elim (Bool-cases (is_finished a.lifecycle)) [
    | inl e ↦ rw e ((refl, inl refl), inr (refl, refl))
    | inr e ↦ elim (Bool-cases (settled a.lifecycle)) [
      | inl f ↦
          rw (e, f)
            (Post-outside (sacct_outcome services a a.array_task_id) (record_outcome services a) u
              (Concludes a u.snapshot) (Kept u.snapshot)
              (λ o w.
                record_outcome-Concludes (record u { world = w }) a o
                  (none_of a.lifecycle.finished e))
              (λ w. refl))
      | inr f ↦ rw (e, f) ((refl, inl refl), inr (refl, refl))
    ]
  ]

  -- Whatever other clones do between the two parts: where the call succeeds, it returns the snapshot that
  -- its own refresh gave, or a conclusion of it, and the channel holds that, over what was published in
  -- between, or else what was published in between.
  pub refresh_with_sacct_amid-ok :
      (others : Handle W → Handle W) (h h' : Handle W) (snap : SbatchJobSnapshot)
      → refresh_with_sacct_amid services others h ≡ (ok snap, h')
      → (a : SbatchJobSnapshot) × (k : Handle W) × (refresh services h ≡ (ok a, k))
        × Concludes a (others k).snapshot snap h'
  unfolding refresh_with_sacct_amid
  refresh_with_sacct_amid-ok others h h' snap e =
      let (a, k, p, q) =
        >>=-inv (refresh services) (λ s. (λ v. (ok tt, others v)) >> finalize services s) h h' snap
          e in
      (
        a,
        k,
        p,
        of_Post (finalize services a) (others k) h' snap (Concludes a (others k).snapshot)
            (Kept (others k).snapshot) (finalize-Concludes (others k) a) q,
      )

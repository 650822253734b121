-- ===== src/Sbatch/Handle/Refresh.antt =====
-- What a refresh does to the snapshot.
use mathlib.Core.Path.{subst}
use slurm_async_runner.Prelude.{
  ℕ, List, [], ◌∷◌, Option, none, some, ok, err, ◌≡◌, refl, sym, ap, ◌⊎◌, inl, inr,
}
use slurm_async_runner.Prelude.Text.{Text}
use slurm_async_runner.Dispatcher.{◌>>◌, pure}
use slurm_async_runner.Status.{JobStatus}
use slurm_async_runner.Runner.{get}
use slurm_async_runner.Runner.Query.{
  query_job_states_via_qgroup_with, query_job_states_squeue_only_with, query_array_task_state_with,
}
use slurm_async_runner.Sbatch.Handle.{
  Handle, Services, SbatchJobSnapshot, or_else, send_replace, publish, refresh_task, refresh_squeue,
  refresh_job, refresh_from, refresh, seen,
}
use slurm_async_runner.Sbatch.Handle.Effects.{
  Post, Post-outside, Post-answered, Post-weaker, of_Post, of_Post_err,
}

-- The channel holds `new`, which is as it should be.
abbrev pub Published :
    {W : Type 0} → (SbatchJobSnapshot → Type 0) → SbatchJobSnapshot → Handle W → Type 0
Published Q new h = (h.snapshot ≡ new) × Q new

abbrev pub Kept : {W : Type 0} → SbatchJobSnapshot → Handle W → Type 0
Kept old h = h.snapshot ≡ old

-- What one lookup can make of a snapshot: everything but the observation is as it was.
abbrev pub IsSeen : SbatchJobSnapshot → SbatchJobSnapshot → Type 0
IsSeen old new = (o : Option JobStatus) × (t : ℕ) × (new ≡ seen o t old)

module _ {W : Type 0} (services : Services W) where
  pub publish_post :
      (h : Handle W) (new : SbatchJobSnapshot) (Q : SbatchJobSnapshot → Type 0)
      → Q new
      → Post (publish services new) h (Published Q) (Kept h.snapshot)
  unfolding publish
  publish_post h new Q q =
      Post-outside (services.save new) (λ _. send_replace new >> pure new) h (Published Q)
        (Kept h.snapshot) (λ _ w. (refl, q)) (λ w. refl)

  -- What a lookup finds of the job, none where the listings have no row of it: a task of an array by its
  -- own query; a job by `qgroup`, whose failure counts as no row, and by `squeue` where that has none.
  abbrev pub Finds : ℕ → Option ℕ → W → Option JobStatus → Type 0
  Finds jobid (some index) w o =
      (query_array_task_state_with services.capture jobid index w).0 ≡ ok o
  Finds jobid none w o =
      (qgroup : List (ℕ × JobStatus)) × (v : W) × (or_else
          (query_job_states_via_qgroup_with services.capture (jobid ∷ [])) [] w
        ≡ (ok qgroup, v))
      × (((s : JobStatus) × (get jobid qgroup ≡ some s) × (o ≡ some s))
          ⊎ ((get jobid qgroup ≡ none)
              × (squeue : List (ℕ × JobStatus)) × ((query_job_states_squeue_only_with
                    services.capture (jobid ∷ []) v).0
                  ≡ ok squeue)
              × (o ≡ get jobid squeue)))

  -- The snapshot with what a lookup in this world finds, at this time.
  abbrev pub IsObserved : SbatchJobSnapshot → ℕ → W → SbatchJobSnapshot → Type 0
  IsObserved old t w new =
      (o : Option JobStatus) × Finds old.jobid old.array_task_id w o × (new ≡ seen o t old)

  refresh_task_post :
      (h : Handle W) (t index : ℕ)
      → h.snapshot.array_task_id ≡ some index
      → Post
          (refresh_task services h.snapshot t index)
          h
          (Published (IsObserved h.snapshot t h.world))
          (Kept h.snapshot)
  unfolding refresh_task
  refresh_task_post h t index i =
      let query = query_array_task_state_with services.capture h.snapshot.jobid index in
      Post-answered query (λ task. publish services (seen task t h.snapshot)) h
        (Published (IsObserved h.snapshot t h.world)) (Kept h.snapshot)
        (λ task w q.
          publish_post (record h { world = w }) (seen task t h.snapshot)
            (IsObserved h.snapshot t h.world)
            (
              task,
              subst (λ x. Finds h.snapshot.jobid x h.world task) (sym i) (ap (λ r. r.0) q),
              refl,
            ))
        (λ w. refl)

  refresh_squeue_post :
      (h : Handle W) (t : ℕ) (w : W) (qgroup : List (ℕ × JobStatus)) (found : Option JobStatus)
      → h.snapshot.array_task_id ≡ none
      → or_else (query_job_states_via_qgroup_with services.capture (h.snapshot.jobid ∷ [])) [] w
        ≡ (ok qgroup, h.world)
      → get h.snapshot.jobid qgroup ≡ found
      → Post
          (refresh_squeue services h.snapshot t found)
          h
          (Published (IsObserved h.snapshot t w))
          (Kept h.snapshot)
  unfolding refresh_squeue
  refresh_squeue_post h t w qgroup (some s) i q g =
      publish_post h (seen (some s) t h.snapshot) (IsObserved h.snapshot t w) (
        some s,
        subst (λ x. Finds h.snapshot.jobid x w (some s)) (sym i)
            (qgroup, h.world, q, inl (s, g, refl)),
        refl,
      )
  refresh_squeue_post h t w qgroup none i q g =
      let query = query_job_states_squeue_only_with services.capture (h.snapshot.jobid ∷ []) in
      Post-answered query
        (λ squeue. publish services (seen (get h.snapshot.jobid squeue) t h.snapshot)) h
        (Published (IsObserved h.snapshot t w)) (Kept h.snapshot)
        (λ squeue v a.
          publish_post (record h { world = v }) (seen (get h.snapshot.jobid squeue) t h.snapshot)
            (IsObserved h.snapshot t w)
            (
              get h.snapshot.jobid squeue,
              subst (λ x. Finds h.snapshot.jobid x w (get h.snapshot.jobid squeue)) (sym i)
                  (qgroup, h.world, q, inr (g, squeue, ap (λ r. r.0) a, refl)),
              refl,
            ))
        (λ v. refl)

  refresh_job_post :
      (h : Handle W) (t : ℕ)
      → h.snapshot.array_task_id ≡ none
      → Post
          (refresh_job services h.snapshot t)
          h
          (Published (IsObserved h.snapshot t h.world))
          (Kept h.snapshot)
  unfolding refresh_job
  refresh_job_post h t i =
      let query =
        or_else (query_job_states_via_qgroup_with services.capture (h.snapshot.jobid ∷ [])) [] in
      Post-answered query
        (λ qgroup. refresh_squeue services h.snapshot t (get h.snapshot.jobid qgroup)) h
        (Published (IsObserved h.snapshot t h.world)) (Kept h.snapshot)
        (λ qgroup w q.
          refresh_squeue_post (record h { world = w }) t h.world qgroup
            (get h.snapshot.jobid qgroup) i q refl)
        (λ w. refl)

  refresh_from_post :
      (h : Handle W) (t : ℕ) (task : Option ℕ)
      → h.snapshot.array_task_id ≡ task
      → Post
          (refresh_from services h.snapshot t task)
          h
          (Published (IsObserved h.snapshot t h.world))
          (Kept h.snapshot)
  unfolding refresh_from
  refresh_from_post h t none i = refresh_job_post h t i
  refresh_from_post h t (some index) i = refresh_task_post h t index i

  refresh-IsObserved :
      (h : Handle W)
      → Post
          (refresh services)
          h
          (Published (IsObserved h.snapshot (services.now h.world) h.world))
          (Kept h.snapshot)
  unfolding refresh
  refresh-IsObserved h = refresh_from_post h (services.now h.world) h.snapshot.array_task_id refl

  -- Which of the lookups was made, and when, is not always of interest.
  pub refresh_post :
      (h : Handle W) → Post (refresh services) h (Published (IsSeen h.snapshot)) (Kept h.snapshot)
  refresh_post h =
      Post-weaker (refresh services) h
        (Published (IsObserved h.snapshot (services.now h.world) h.world))
        (Published (IsSeen h.snapshot)) (Kept h.snapshot) (Kept h.snapshot)
        (λ new u p. (p.0, (p.1.0, services.now h.world, p.1.2))) (λ u e. e) (refresh-IsObserved h)

  -- A refresh that succeeds returns what the watch channel holds from then on, and that is the old
  -- snapshot with what the lookup found, at the time before it: the state of the task in its own query;
  -- for a job, its state in `qgroup`, or, where that fails or has no row of the job, in `squeue`. Where
  -- the lookup found nothing, it records that the job has left the listings. Nothing else changes.
  pub refresh-ok :
      (h h' : Handle W) (snap : SbatchJobSnapshot)
      → refresh services h ≡ (ok snap, h')
      → (h'.snapshot ≡ snap)
        × ((o : Option JobStatus) × Finds h.snapshot.jobid h.snapshot.array_task_id h.world o
            × (snap ≡ seen o (services.now h.world) h.snapshot))
  refresh-ok h h' snap e =
      of_Post (refresh services) h h' snap
        (Published (IsObserved h.snapshot (services.now h.world) h.world)) (Kept h.snapshot)
        (refresh-IsObserved h) e

  -- A refresh that fails, in a query or in the store, leaves the watch channel as it was.
  pub refresh-err :
      (h h' : Handle W) (e : Text) → refresh services h ≡ (err e, h') → h'.snapshot ≡ h.snapshot
  refresh-err h h' x e =
      of_Post_err (refresh services) h h' x (Published (IsSeen h.snapshot)) (Kept h.snapshot)
        (refresh_post h) e

-- ===== src/Sbatch/Handle/Finalize.antt =====
-- What the resolution through sacct does to the snapshot.
use mathlib.Core.Path.{subst}
use slurm_async_runner.Prelude.{
  ℕ, Option, none, some, Bool, true, false, not, ◌&&◌, ◌||◌, Result, ok, err, ◌≡◌, refl, ap, ◌∙◌,
  ◌⊎◌, inl, inr, Bool-cases, is_some, arith,
}
use slurm_async_runner.Prelude.Text.{Text}
use slurm_async_runner.Dispatcher.{pure}
use slurm_async_runner.Status.{JobStatus}
use slurm_async_runner.Status.State
use slurm_async_runner.Runner.{JobOutcome}
use slurm_async_runner.Sbatch.Handle.{
  Handle, Services, SbatchJobSnapshot, FinishedInfo, sacct_outcome, record_outcome, finalize,
  refresh, refresh_with_sacct, refresh_with_sacct_amid, seen, is_finished, settled, is_unknown,
  reappeared, finished_with,
}
use slurm_async_runner.Sbatch.Handle.Effects.{
  Post, PostOf, Post-bind, Post-outside, Post-weaker, of_Post,
}
use slurm_async_runner.Sbatch.Handle.Refresh.{Published, Kept, IsSeen, publish_post, refresh_post}

-- A conclusion that may be recorded: a terminal state, or a state that is not known with an exit code.
abbrev pub is_conclusive : FinishedInfo → Bool
is_conclusive f =
    State.is_terminal f.final_state || (is_unknown f.final_state && is_some f.exit_code)

abbrev pub FinishedChange : Option FinishedInfo → Option FinishedInfo → Type 0
FinishedChange old new =
    (new ≡ old) ⊎ ((old ≡ none) × (f : FinishedInfo) × (new ≡ some f) × (is_conclusive f ≡ true))

-- Only the lifecycle changes, and what finished the job only from nothing to a conclusion.
abbrev pub IsConcluded : SbatchJobSnapshot → SbatchJobSnapshot → Type 0
IsConcluded old new =
    (new ≡ record old { lifecycle = new.lifecycle })
    × FinishedChange old.lifecycle.finished new.lifecycle.finished

pub none_of : {A : Type 0} (o : Option A) → is_some o ≡ false → o ≡ none
none_of none h = refl
none_of (some a) h = cc

IsConcluded-seen :
    (o : Option JobStatus) (t : ℕ) (old new : SbatchJobSnapshot)
    → IsConcluded (seen o t old) new
    → IsConcluded old new
IsConcluded-seen none t old new c = c
IsConcluded-seen (some s) t old new c = c

finished-seen :
    (o : Option JobStatus) (t : ℕ) (old : SbatchJobSnapshot)
    → (seen o t old).lifecycle.finished ≡ old.lifecycle.finished
finished-seen none t old = refl
finished-seen (some s) t old = refl

module _ {W : Type 0} (services : Services W) where
  -- The snapshot stays as it is.
  unchanged :
      (h : Handle W)
      → Post (pure h.snapshot) h (Published (IsConcluded h.snapshot)) (Kept h.snapshot)
  unchanged h = (refl, (refl, inl refl))

  record_post :
      (h : Handle W) (o : JobOutcome)
      → h.snapshot.lifecycle.finished ≡ none
      → Post
          (record_outcome services h.snapshot o)
          h
          (Published (IsConcluded h.snapshot))
          (Kept h.snapshot)
  unfolding record_outcome
  record_post h o n = elim (Bool-cases (is_unknown o.status.state && not (is_some o.exit_code))) [
    | inl e ↦ rw e (unchanged h)
    | inr e ↦
        elim (Bool-cases
          (not (is_unknown o.status.state) && not (State.is_terminal o.status.state))) [
            | inl f ↦
                rw (e, f)
                  (publish_post services h (reappeared o.status (services.now h.world) h.snapshot)
                    (IsConcluded h.snapshot) (refl, inl refl))
            | inr f ↦
                rw (e, f)
                  (publish_post services h (finished_with o (services.now h.world) h.snapshot)
                    (IsConcluded h.snapshot) (refl, inr (n, _, refl, ground arith)))
          ]
  ]

  finalize_post :
      (h : Handle W)
      → Post (finalize services h.snapshot) h (Published (IsConcluded h.snapshot)) (Kept h.snapshot)
  unfolding finalize
  finalize_post h = elim (Bool-cases (is_finished h.snapshot.lifecycle)) [
    | inl e ↦ rw e (unchanged h)
    | inr e ↦ elim (Bool-cases (settled h.snapshot.lifecycle)) [
      | inl f ↦
          rw (e, f)
            (Post-outside (sacct_outcome services h.snapshot h.snapshot.array_task_id)
              (record_outcome services h.snapshot) h (Published (IsConcluded h.snapshot))
              (Kept h.snapshot)
              (λ o w.
                record_post (record h { world = w }) o (none_of h.snapshot.lifecycle.finished e))
              (λ w. refl))
      | inr f ↦ rw (e, f) (unchanged h)
    ]
  ]

  -- The second part, on what the first part returned.
  conclude :
      (h u : Handle W) (a : SbatchJobSnapshot)
      → u.snapshot ≡ a
      → IsSeen h.snapshot a
      → Post
          (finalize services a)
          u
          (Published (IsConcluded h.snapshot))
          (λ v. v.snapshot.lifecycle.finished ≡ h.snapshot.lifecycle.finished)
  conclude h u a p (o, t, q) =
      let at : Post (finalize services a) u (Published (IsConcluded u.snapshot)) (Kept u.snapshot) =
        subst
          (λ s. Post (finalize services s) u (Published (IsConcluded u.snapshot)) (Kept u.snapshot))
          p (finalize_post u) in
      let same : u.snapshot ≡ seen o t h.snapshot = p ∙ q in
      Post-weaker (finalize services a) u (Published (IsConcluded u.snapshot))
        (Published (IsConcluded h.snapshot)) (Kept u.snapshot)
        (λ v. v.snapshot.lifecycle.finished ≡ h.snapshot.lifecycle.finished)
        (λ new v c.
          (c.0, IsConcluded-seen o t h.snapshot new (subst (λ s. IsConcluded s new) same c.1)))
        (λ v k.
          ap (λ (s : SbatchJobSnapshot). s.lifecycle.finished) (k ∙ same)
          ∙ finished-seen o t h.snapshot)
        at

  with_sacct_post :
      (h : Handle W)
      → Post
          (refresh_with_sacct services)
          h
          (Published (IsConcluded h.snapshot))
          (λ u. u.snapshot.lifecycle.finished ≡ h.snapshot.lifecycle.finished)
  unfolding refresh_with_sacct refresh_with_sacct_amid
  with_sacct_post h =
      Post-bind (refresh services) (finalize services) h (Published (IsConcluded h.snapshot))
        (λ u. u.snapshot.lifecycle.finished ≡ h.snapshot.lifecycle.finished)
        (Post-weaker (refresh services) h (Published (IsSeen h.snapshot))
          (λ a u.
            Post (finalize services a) u (Published (IsConcluded h.snapshot))
              (λ v. v.snapshot.lifecycle.finished ≡ h.snapshot.lifecycle.finished))
          (Kept h.snapshot) (λ u. u.snapshot.lifecycle.finished ≡ h.snapshot.lifecycle.finished)
          (λ a u seen_it. conclude h u a seen_it.0 seen_it.1)
          (λ u e. ap (λ (s : SbatchJobSnapshot). s.lifecycle.finished) e) (refresh_post services h))

  -- `refresh_with_sacct`, on success and with no other clone of the handle in between: it returns what the watch channel holds from then on; of the
  -- snapshot only the lifecycle changes; and `finished` is as it was, or it was empty and holds a
  -- conclusion now: a terminal state, or a state that is not known together with an exit code.
  pub refresh_with_sacct-ok :
      (h h' : Handle W) (snap : SbatchJobSnapshot)
      → refresh_with_sacct services h ≡ (ok snap, h')
      → (h'.snapshot ≡ snap) × IsConcluded h.snapshot snap
  refresh_with_sacct-ok h h' snap e =
      of_Post (refresh_with_sacct services) h h' snap (Published (IsConcluded h.snapshot))
        (λ u. u.snapshot.lifecycle.finished ≡ h.snapshot.lifecycle.finished) (with_sacct_post h) e

  -- A job that is finished stays finished with the same state, reason, exit code and time, whatever
  -- the commands answer and whether `refresh_with_sacct` succeeds or fails, if no other clone of the
  -- handle comes in between its parts.
  pub refresh_with_sacct-finished :
      (h : Handle W) (f : FinishedInfo)
      → h.snapshot.lifecycle.finished ≡ some f
      → (refresh_with_sacct services h).1.snapshot.lifecycle.finished ≡ some f
  refresh_with_sacct-finished h f e =
      stays (refresh_with_sacct services h).0 (refresh_with_sacct services h).1 (with_sacct_post h)
    where
      stays :
          (r : Result Text SbatchJobSnapshot) (u : Handle W)
          → PostOf r
              (Published (IsConcluded h.snapshot))
              (λ v. v.snapshot.lifecycle.finished ≡ h.snapshot.lifecycle.finished)
              u
          → u.snapshot.lifecycle.finished ≡ some f
      stays (ok a) u (p, (q, inl same)) =
          ap (λ (s : SbatchJobSnapshot). s.lifecycle.finished) p ∙ same ∙ e
      stays (ok a) u (p, (q, inr new)) = cc
      stays (err x) u same = same ∙ e

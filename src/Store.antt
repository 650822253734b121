-- ===== src/Store.antt =====
-- src/store.rs: snapshots, and the operations of a store of them, over any world.
pub mod Memory
pub mod Envelope
pub mod Disk
use slurm_async_runner.Prelude.{
  ℕ, List, [], ◌∷◌, Option, none, some, Bool, true, false, if◌then◌else◌, keep, ◌==◌, Result, ok,
  err,
}
use slurm_async_runner.Prelude.Text.{Text}
use slurm_async_runner.Dispatcher.{M, ◌>>=◌, pure}

-- `JobSnapshot`: a uuid is its number.
pub record JobSnapshot (S : Type 0) : Type 0 where
  pub uuid : S → ℕ
  pub jobid : S → Option ℕ
  pub kind : Text

-- `JobStateStore`.
pub record JobStateStore (S W : Type 0) : Type 0 where
  pub save : S → M W (Unit {0})
  pub load : ℕ → M W (Option S)
  pub list : M W (List S)
  pub delete : ℕ → M W (Unit {0})

abbrev pub is_job : ℕ → Option ℕ → Bool
is_job j none = false
is_job j (some k) = k == j

-- `iter.find(p)`.
abbrev pub find : {S : Type 0} → (S → Bool) → List S → Option S
find p [] = none
find p (s ∷ ss) = if p s then some s else find p ss

module _ {S W : Type 0} (shape : JobSnapshot S) (store : JobStateStore S W) where
  unfoldable pub find_by_jobid : ℕ → M W (Option S)
  find_by_jobid j = do snaps ← store.list; pure (find (λ s. is_job j (shape.jobid s)) snaps)

  unfoldable pub find_all_by_jobid : ℕ → M W (List S)
  find_all_by_jobid j = do snaps ← store.list; pure (keep (λ s. is_job j (shape.jobid s)) snaps)

-- ===== src/Sbatch/Manager/Attach.antt =====
-- src/sbatch/manager.rs (`attach`, `attach_array_jobid`): from a stored snapshot to a handle.
use slurm_async_runner.Prelude.{
  ℕ, List, [], ◌∷◌, Option, none, some, Bool, true, false, if◌then◌else◌, Result, ok, err, ok_or,
  leb, length, keep, is_some,
}
use slurm_async_runner.Prelude.Text.{Text, text_eq}
use slurm_async_runner.Dispatcher.{Effect, ◌>>=◌, pure, lift, map_err}
use slurm_async_runner.Store.{find_all_by_jobid}
use slurm_async_runner.Store.Envelope.{Json, Serde, kind_key, as_text}
use slurm_async_runner.Sbatch.Handle.{SbatchJobSnapshot}
use slurm_async_runner.Sbatch.Manager.{
  Environment, SbatchAttachKey, by_uuid, by_job_id, by_file, SbatchAttachError, not_found,
  kind_mismatch, multiple_match, attach_io, sbatch_snapshot,
}

-- `Option<u32>`, where nothing comes first.
abbrev pub task_leb : Option ℕ → Option ℕ → Bool
task_leb none t = true
task_leb (some i) none = false
task_leb (some i) (some j) = leb i j

unfoldable pub insert_task : SbatchJobSnapshot → List SbatchJobSnapshot → List SbatchJobSnapshot
insert_task s [] = s ∷ []
insert_task s (t ∷ ts) =
    let rest = insert_task s ts in
    if task_leb s.array_task_id t.array_task_id then s ∷ t ∷ ts else t ∷ rest

-- `sort_by_key(|s| s.array_task_id)`, which is stable.
unfoldable pub sort_tasks : List SbatchJobSnapshot → List SbatchJobSnapshot
unfolding insert_task
sort_tasks [] = []
sort_tasks (s ∷ ss) = insert_task s (sort_tasks ss)

module _ {W Value : Type 0} (json : Json Value) (serde : Serde Value SbatchJobSnapshot)
    (env : Environment W) where
  -- The snapshots of a job, of which there may be one.
  unfoldable pub only_one : ℕ → List SbatchJobSnapshot → Result SbatchAttachError SbatchJobSnapshot
  only_one j [] = err (not_found (by_job_id j))
  only_one j (s ∷ []) = ok s
  only_one j (s ∷ t ∷ ss) = err (multiple_match j (length (s ∷ t ∷ ss)))

  unfoldable pub from_file : Value → Result SbatchAttachError SbatchJobSnapshot
  from_file value = elim (serde.from_value value) [ ok s ↦ ok s | err e ↦ err (attach_io e) ]

  -- A snapshot's file: a kind that is a string has to be `sbatch`; the version is not looked at.
  unfoldable pub check_kind : Option Text → Value → Result SbatchAttachError SbatchJobSnapshot
  unfolding from_file
  check_kind none value = from_file value
  check_kind (some k) value =
      if text_eq k (sbatch_snapshot.kind) then from_file value else err (kind_mismatch k)

  unfoldable pub attach : SbatchAttachKey → Effect SbatchAttachError W SbatchJobSnapshot
  unfolding only_one check_kind find_all_by_jobid
  attach (by_uuid u) = do
    found ← map_err attach_io (env.store.load u)
    lift (ok_or found (not_found (by_uuid u)))
  attach (by_job_id j) = do
    snaps ← map_err attach_io (find_all_by_jobid sbatch_snapshot env.store j)
    lift (only_one j snaps)
  attach (by_file path) = do
    bytes ← map_err attach_io (env.read path)
    value ← map_err attach_io (lift (json.from_slice bytes))
    lift (check_kind (as_text json serde sbatch_snapshot (json.get kind_key value)) value)

module _ {W : Type 0} (env : Environment W) where
  unfoldable pub attach_array_jobid : ℕ → Effect SbatchAttachError W (List SbatchJobSnapshot)
  unfolding sort_tasks find_all_by_jobid
  attach_array_jobid master_jobid = do
    snaps ← map_err attach_io (find_all_by_jobid sbatch_snapshot env.store master_jobid)
    pure (sort_tasks (keep (λ s. is_some s.array_task_id) snaps))

-- ===== src/JobManager.antt =====
-- src/job_manager.rs and src/handle.rs: what the two backends have in common, and how they fill it.
use mathlib.Core.Path.{subst}
use slurm_async_runner.Prelude.{ℕ, Option, some, Bool, ok, ◌≡◌, ap, ◌∙◌}
use slurm_async_runner.Prelude.Text.{Text, codes}
use slurm_async_runner.Prelude.Int.{ℤ}
use slurm_async_runner.Dispatcher.{Effect, ◌>>=◌, pure, >>=-inv, >>=-of_ok}
use slurm_async_runner.Store.Envelope.{Json, Serde}
use slurm_async_runner.Sbatch.Cmd.{SbatchCmd, SbatchSpawnError}
use slurm_async_runner.Sbatch.Handle.{SbatchJobSnapshot}
use slurm_async_runner.Sbatch.Handle
use slurm_async_runner.Sbatch.Manager.{SbatchAttachError}
use slurm_async_runner.Sbatch.Manager as SbatchManager
use slurm_async_runner.Sbatch.Manager.Attach as SbatchAttach
use slurm_async_runner.Sbatch.Manager.Attached as SbatchAttached
use slurm_async_runner.Tssrun.{TssrunCmd}
use slurm_async_runner.Tssrun.Handle.{TssrunJobSnapshot, System}
use slurm_async_runner.Tssrun.Handle as TssrunHandle
use slurm_async_runner.Tssrun.Manager.{TssrunSpawnError, TssrunAttachError}
use slurm_async_runner.Tssrun.Manager as TssrunManager
use slurm_async_runner.Tssrun.Manager.Attach as TssrunAttach

-- The reads of `JobHandleCommon`, on the snapshot that the handle holds, and `kind`.
pub record JobHandleCommon (S : Type 0) : Type 0 where
  pub uuid : S → ℕ
  pub jobid : S → Option ℕ
  pub is_running : S → Bool
  pub is_finished : S → Bool
  pub exit_code : S → Option ℤ
  pub kind : Text

-- `JobManager`: spawning and attaching give a handle, which is its snapshot here.
pub record JobManager (S E F W : Type 0) : Type 0 where
  pub spawn : Effect E W S
  pub attach_uuid : ℕ → Effect F W S
  pub attach_jobid : ℕ → Effect F W S

abbrev pub sbatch_handle : JobHandleCommon SbatchJobSnapshot
sbatch_handle = record {
  uuid = λ s. s.uuid;
  jobid = λ s. some s.jobid;
  is_running = λ s. Handle.is_running s.lifecycle;
  is_finished = λ s. Handle.is_finished s.lifecycle;
  exit_code = λ s. Handle.exit_code s.lifecycle;
  kind = codes "sbatch";
}

abbrev pub tssrun_handle : JobHandleCommon TssrunJobSnapshot
tssrun_handle = record {
  uuid = λ s. s.uuid;
  jobid = λ s. s.jobid;
  is_running = λ s. TssrunHandle.is_running s;
  is_finished = λ s. TssrunHandle.is_finished s;
  exit_code = λ s. TssrunHandle.exit_code s;
  kind = codes "tssrun";
}

module _ {W Value : Type 0} (json : Json Value) (serde : Serde Value SbatchJobSnapshot)
    (env : SbatchManager.Environment W) where
  abbrev pub sbatch_manager :
      SbatchCmd → JobManager SbatchJobSnapshot SbatchSpawnError SbatchAttachError W
  sbatch_manager cmd = record {
    spawn = SbatchManager.spawn env cmd;
    attach_uuid = λ u. SbatchAttach.attach json serde env (SbatchManager.by_uuid u);
    attach_jobid = λ j. SbatchAttach.attach json serde env (SbatchManager.by_job_id j);
  }

module _ {W Value : Type 0} (json : Json Value) (serde : Serde Value TssrunJobSnapshot)
    (env : TssrunManager.Environment W) where
  -- The handle's tasks go on in the background.
  abbrev snapshot_of :
      Effect TssrunSpawnError W System → Effect TssrunSpawnError W TssrunJobSnapshot
  snapshot_of m = do s ← m; pure s.shared.channel

  abbrev pub tssrun_manager :
      TssrunCmd → JobManager TssrunJobSnapshot TssrunSpawnError TssrunAttachError W
  tssrun_manager cmd = record {
    spawn = snapshot_of (TssrunManager.spawn_with env cmd);
    attach_uuid = λ u. TssrunManager.attach json serde env (TssrunManager.by_uuid u);
    attach_jobid = λ j. TssrunManager.attach json serde env (TssrunManager.by_job_id j);
  }

-- A job is found again by its uuid right behind its start.
pub record IsReattachable {S E F W : Type 0} (handle : JobHandleCommon S)
    (manager : JobManager S E F W) : Type 0 where
  pub attach-spawn :
      (w w' : W) (s : S)
      → manager.spawn w ≡ (ok s, w')
      → (manager.attach_uuid (handle.uuid s) w').0 ≡ ok s

-- What a client does that starts a job, drops the handle, and attaches again.
module _ {S E W : Type 0} (handle : JobHandleCommon S) (manager : JobManager S E E W)
    (law : IsReattachable handle manager) where
  abbrev start_and_attach : Effect E W S
  start_and_attach = do s ← manager.spawn; manager.attach_uuid (handle.uuid s)

  -- The second handle has the snapshot of the first.
  start_and_attach-spawn :
      (w w' : W) (s : S) → manager.spawn w ≡ (ok s, w') → (start_and_attach w).0 ≡ ok s
  start_and_attach-spawn w w' s h =
      ap (λ q. q.0) (>>=-of_ok manager.spawn (λ x. manager.attach_uuid (handle.uuid x)) w w' s h)
      ∙ law.attach-spawn w w' s h

module _ {W Value : Type 0} (json : Json Value) where
  -- The sbatch manager over a lawful store keeps the contract.
  pub sbatch_manager-IsReattachable :
      (serde : Serde Value SbatchJobSnapshot) (env : SbatchManager.Environment W) (cmd : SbatchCmd)
      → SbatchAttached.StoreIsLawful env
      → IsReattachable sbatch_handle (sbatch_manager json serde env cmd)
  sbatch_manager-IsReattachable serde env cmd law = record {
    attach-spawn = λ w w' s h. SbatchAttached.attach-spawn json serde env cmd w w' s law h;
  }

  -- The tssrun manager does so over a lawful store in which no save fails; a save that fails when the job
  -- starts is not an error there.
  pub tssrun_manager-IsReattachable :
      (serde : Serde Value TssrunJobSnapshot) (env : TssrunManager.Environment W) (cmd : TssrunCmd)
      → TssrunAttach.StoreIsLawful env
      → ((snap : TssrunJobSnapshot) (v : W) → (env.store.save snap v).0 ≡ ok tt)
      → IsReattachable tssrun_handle (tssrun_manager json serde env cmd)
  tssrun_manager-IsReattachable serde env cmd law saves = record {
    attach-spawn = λ w w' s h. again w w' s h;
  }
    where
      again :
          (w w' : W) (snap : TssrunJobSnapshot)
          → (tssrun_manager json serde env cmd).spawn w ≡ (ok snap, w')
          → ((tssrun_manager json serde env cmd).attach_uuid snap.uuid w').0 ≡ ok snap
      again w w' snap h =
          let (s, u, p, q) =
            >>=-inv (TssrunManager.spawn_with env cmd) (λ x. pure x.shared.channel) w w' snap h in
          let stored = TssrunAttach.spawn_with-stored env cmd w u s saves p in
          let found =
            TssrunAttach.attach-spawn_with json serde env cmd w u s s.shared.channel law p stored in
          let same : s.shared.channel ≡ snap = cc in
          let last : u ≡ w' = cc in
          subst
            (λ x. (TssrunManager.attach json serde env (TssrunManager.by_uuid x.uuid) w').0 ≡ ok x)
            same
            (subst
              (λ v.
                (TssrunManager.attach json serde env (TssrunManager.by_uuid s.shared.channel.uuid)
                  v).0
                ≡ ok s.shared.channel)
              last found)

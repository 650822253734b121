-- ===== src/Sbatch/Manager/OnDisk.antt =====
-- src/sbatch/manager.rs (`with_state_dir`, `with_state_store`): managers over the two stores.
use slurm_async_runner.Prelude.{ℕ, some, if◌then◌else◌, ok, ==_iff, ◌≡◌, refl, ap, ◌∙◌}
use slurm_async_runner.Prelude.Text.{Text}
use slurm_async_runner.Store.{JobStateStore}
use slurm_async_runner.Store.Envelope.{Json, Serde}
use slurm_async_runner.Store.Envelope.Laws.{JsonIsLawful, SerdeIsLawful}
use slurm_async_runner.Store.Disk.{FileSystem, on_disk, load}
use slurm_async_runner.Store.Disk.Laws.{FileSystemIsLawful, NamesAreLawful, load-save}
use slurm_async_runner.Sbatch.Cmd.{SbatchCmd}
use slurm_async_runner.Sbatch.Handle.{SbatchJobSnapshot}
use slurm_async_runner.Sbatch.Manager.{
  Environment, default_lifecycle, sbatch_snapshot, spawn, by_uuid,
}
use slurm_async_runner.Sbatch.Manager.Attach.{attach}
use slurm_async_runner.Sbatch.Manager.Attached.{loaded}
use slurm_async_runner.Sbatch.Manager.Spawn.{spawn-ok}

module _ {W : Type 0} (env : Environment W) where
  abbrev pub with_state_store : JobStateStore SbatchJobSnapshot W → Environment W
  with_state_store store = record env { store = store }

module _ {Value W : Type 0} (json : Json Value) (serde : Serde Value SbatchJobSnapshot)
    (fs : FileSystem W) (show_uuid : ℕ → Text) (env : Environment W) where
  abbrev pub with_state_dir : Text → Environment W
  with_state_dir root = with_state_store env (on_disk json serde sbatch_snapshot fs show_uuid root)

  -- With a state directory, a job that was submitted is attached to by its uuid with the snapshot of its
  -- submission: through the file, whose name differs for different uuids, and its JSON document. Of
  -- the serde impls it is enough that they read back snapshots of which nothing was observed.
  pub reattach :
      (root : Text) (read : SbatchJobSnapshot → SbatchJobSnapshot) (cmd : SbatchCmd) (w w' : W)
      (snap : SbatchJobSnapshot)
      → JsonIsLawful json
      → SerdeIsLawful json serde read
      → ((s : SbatchJobSnapshot) → s.lifecycle ≡ default_lifecycle → read s ≡ s)
      → FileSystemIsLawful fs
      → NamesAreLawful show_uuid
      → spawn (with_state_dir root) cmd w ≡ (ok snap, w')
      → (attach json serde (with_state_dir root) (by_uuid snap.uuid) w').0 ≡ ok snap
  reattach root read cmd w w' snap law serde_law fresh fs_law names h =
      let (argv, out, u, built, ran, good, named, path, uuid, time, fields, saved) =
        spawn-ok (with_state_dir root) cmd w w' snap h in
      let same : read snap ≡ snap = fresh snap (ap (λ s. s.lifecycle) fields) in
      loaded json serde (with_state_dir root) snap.uuid snap w' (
        load-save json law serde read serde_law sbatch_snapshot fs fs_law show_uuid root snap
          snap.uuid (env.new_uuid u).1 w' names saved
        ∙ ap
            (λ b.
              if b
              then ok (some (read snap))
              else (load json serde sbatch_snapshot fs show_uuid root snap.uuid
                  (env.new_uuid u).1).0)
            ((==_iff snap.uuid snap.uuid).1 refl)
        ∙ ap (λ s. ok (some s)) same)

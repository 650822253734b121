-- ===== src/Sbatch/Handle/Wait.antt =====
-- What `wait_terminal` returns.
use slurm_async_runner.Prelude.{ℕ, some, true, ok, ◌≡◌}
use slurm_async_runner.Polling.Laws.{polls, wait_loop-done}
use slurm_async_runner.Sbatch.Handle.{
  Handle, Services, SbatchJobSnapshot, refresh, settled, wait_terminal,
}
use slurm_async_runner.Sbatch.Handle.Refresh.{refresh-ok}

-- Where `wait_terminal` returns a snapshot, the watch channel holds it, and the job is settled in
-- it: it was observed in a terminal state, or it has left the listings.
pub wait_terminal-settled :
    {W : Type 0} (services : Services W) (sleep : Handle W → Handle W) (rounds : ℕ)
    (h h' : Handle W) (snap : SbatchJobSnapshot)
    → wait_terminal services sleep rounds h ≡ (some (ok snap), h')
    → (settled snap.lifecycle ≡ true) × (h'.snapshot ≡ snap)
wait_terminal-settled services sleep rounds h h' snap e =
    let (d, (n, p)) =
      wait_loop-done (refresh services) (λ s. settled s.lifecycle) sleep rounds 0 h h' snap e in
    (d, (refresh-ok services (polls (refresh services) sleep n h) h' snap p).0)

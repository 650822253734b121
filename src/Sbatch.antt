-- ===== src/Sbatch.antt =====
-- The sbatch side: its output, its arguments, the query cache and the handle of a submitted job.
pub mod Parse
pub mod Cmd
pub mod QueryCache
pub mod Handle
pub mod Manager

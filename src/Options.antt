-- ===== src/Options.antt =====
-- src/entities/slurm/sbatch_options: the textual options of a submission.
pub mod ArraySpec
pub mod TimeLimit
pub mod Mail
pub mod Resources
pub mod Signal
pub mod Dependency

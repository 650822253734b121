-- ===== src/Tests.antt =====
-- Runs of the theorems at concrete inputs.
mod Options
mod Runner
mod Handle
mod Cache
mod Export
pub mod Json
mod Stores
mod Submit
mod Tssrun

-- ===== src/Tests.antt =====
-- Sample jobs, runs of the operations on them, and the theorems at concrete inputs.
mod Samples
mod Witnesses
mod Runs
mod Clients
mod Wire
mod Tools
mod Whole
mod Races
mod Ends

-- ===== src/Bench.antt =====
-- lightway-expresslane-bench: the parts of the benchmark.
pub mod Panic
pub mod Rng
pub mod Pool
pub mod Schedule
pub mod Arms
pub mod Runner
pub mod Passes
pub mod Bounds
pub mod Totals
pub mod Scheduled
pub mod Layout
pub mod Fill
pub mod Sealed
pub mod Sent
pub mod Slot
pub mod Filled
pub mod Built
pub mod Visits
pub mod Recovers
pub mod Agree
pub mod Commits
pub mod Folds
pub mod Encrypts
pub mod Ready
pub mod Complete
pub mod Outcome
pub mod Run
pub mod Entries
pub mod Sampled
pub mod Gates
pub mod Families
pub mod Jobs
pub mod Final
pub mod Keyed
pub mod Valid
pub mod Startup
mod Examples

-- ===== src/RunnerPool/Reaping.antt =====
-- What a pass of internal/runnerpool/reap.go does, and what it does not do.
pub mod Candidates
pub mod Passes
pub mod Ceiling

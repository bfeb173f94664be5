-- ===== src/RunnerPool/Capacity.antt =====
-- What the snapshot of internal/runnerpool/pool.go promises about capacity.
pub mod Counts
pub mod Drain

-- ===== src/RunnerPool/Invariant.antt =====
-- What holds of the pool of internal/runnerpool between two critical sections.
pub mod Defs
pub mod Slots
pub mod Workers
pub mod Sections
pub mod Pools
pub mod Walks
pub mod Steps

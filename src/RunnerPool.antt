-- ===== src/RunnerPool.antt =====
-- internal/runnerpool: the pool of warm VMs. Each child is about one part of it.
pub mod Types
pub mod Options
pub mod Workers
pub mod Jobs
pub mod Recycle
pub mod Reap
pub mod Reconcile
pub mod Adopt
pub mod Status
pub mod Invariant
pub mod System
pub mod Fifo
pub mod Dispatch
pub mod CancelRun
pub mod IdleRecycle
pub mod AdoptedSlots
pub mod Capacity
pub mod Reaping
mod Examples

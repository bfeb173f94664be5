-- ===== src/Broker.antt =====
-- internal/broker: the drain of a job's status stream, and adoption.
pub mod Drain
pub mod Rounds
pub mod Resume
pub mod Outcome
pub mod Finish
pub mod Reuse
pub mod Adopt
pub mod Selection
pub mod Run
pub mod Reattached
pub mod Restart
mod Examples

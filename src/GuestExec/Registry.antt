-- ===== src/GuestExec/Registry.antt =====
-- The operations of internal/guestexec/registry.go on the registry and its executions.
pub mod Admission
pub mod Lifecycle
pub mod Streaming
pub mod System
pub mod Executions
pub mod Replay
pub mod Slots
pub mod Retry
pub mod Draining
pub mod Listing

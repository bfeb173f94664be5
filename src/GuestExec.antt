-- ===== src/GuestExec.antt =====
-- internal/guestexec: the guest's registry of executions.
pub mod Keys
pub mod Maps
pub mod Types
pub mod Log
pub mod Registry
mod Examples

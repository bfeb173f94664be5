-- ===== src/GuestExec/Registry/Executions.antt =====
-- The executions in the registry of internal/guestexec/registry.go, over all of a guest's life.
pub mod Terminal
pub mod Life
pub mod Exit
pub mod Steps

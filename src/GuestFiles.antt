-- ===== src/GuestFiles.antt =====
-- internal/guestsupervisor: the slot count and the boot token, in files that a rename replaces.
pub mod Files
pub mod Decimal
pub mod Slots
pub mod Token
pub mod Atomic
pub mod Seeded
pub mod Restart
mod Examples

-- ===== src/GuestAgent.antt =====
-- internal/guestagent and the messages of api/guest/v1/guest.proto.
pub mod Wire
pub mod Convert
pub mod Stream
pub mod RunJob
pub mod Idle
pub mod Exclusion
pub mod Homebrew
pub mod RunnerEnv
mod Examples

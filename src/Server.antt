-- ===== src/Server.antt =====
-- internal/server: the webhook, capacity and status handlers over the pool and the tracker.
pub mod Types
pub mod Images
pub mod Guards
pub mod Handlers
pub mod Properties
mod Examples

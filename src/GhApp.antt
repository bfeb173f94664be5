-- ===== src/GhApp.antt =====
-- internal/ghapp: the paged lists of the GitHub API, and what the broker makes of them.
pub mod Paging
pub mod Client
pub mod Pages
pub mod Snapshot
pub mod Returns
mod Examples

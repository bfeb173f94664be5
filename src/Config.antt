-- ===== src/Config.antt =====
-- internal/config: the configuration file, its defaults and its validation.
pub mod Load
pub mod Usable
mod Examples

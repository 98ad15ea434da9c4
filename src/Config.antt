-- ===== src/Config.antt =====
-- internal/config: the configuration, its defaults, what the environment sets, and its validation.
pub mod Types
pub mod Load
pub mod Validate
pub mod Fields
pub mod Laws

-- ===== src/Config.antt =====
-- internal/config/config.go: the configuration, its validation and its loading.
pub mod Types
pub mod Validate
pub mod WellFormed
pub mod Load
pub mod Loaded

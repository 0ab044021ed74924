-- ===== src/Config.antt =====
-- The configuration (internal/config/config.go).
pub mod Settings
pub mod Environment
pub mod Checked

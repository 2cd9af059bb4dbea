-- ===== src/Config.antt =====
-- src/config: the settings, their bounds, and the store that publishes them.
pub mod Settings
pub mod Store

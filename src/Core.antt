-- ===== src/Core.antt =====
-- core: the settings of the application.
pub mod Settings
pub mod Security
pub mod Tests

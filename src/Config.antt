-- ===== src/Config.antt =====
-- internal/config: the settings, and the templates that are chosen for the machine.
pub mod Types
pub mod Mode
pub mod Window
pub mod Tiers
pub mod Selector

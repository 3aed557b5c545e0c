-- ===== src/Settings.antt =====
-- gui_settings.py: the settings that the operator changes from the web page.
pub mod Store
pub mod Overrides
pub mod Kept
pub mod Changed
pub mod Saved
pub mod Coerce
pub mod Again
pub mod Typed
pub mod Schema
pub mod Together
pub mod Ordered
pub mod Examples

-- ===== src/Chip.antt =====
-- flask_app/chip_config.py: configuring the chips and arming a run.
pub mod State
pub mod Apply
pub mod Armed
pub mod Refused
pub mod Examples

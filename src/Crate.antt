-- ===== src/Crate.antt =====
-- hv_control.py: the server that sets the high voltage.
pub mod Voltages
pub mod Applied
pub mod Ramped
pub mod Server
pub mod Watched
pub mod Leaked
pub mod Monitored
pub mod Examples

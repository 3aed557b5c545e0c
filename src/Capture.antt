-- ===== src/Capture.antt =====
-- vmm_daq_control.py, the server that captures the data of the VMMs, and its client in DAQController.py.
pub mod Arming
pub mod Server
pub mod Client
pub mod Kept
pub mod Answered
pub mod Talked
pub mod Left
pub mod Switched
pub mod Quiet
pub mod Examples

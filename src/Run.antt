-- ===== src/Run.antt =====
-- daq_control.py and DAQController.py: the orchestration of a run.
pub mod World
pub mod SubRun
pub mod Control
pub mod Marked
pub mod Closed
pub mod Taken
pub mod Completed
pub mod Ends
pub mod Paired
pub mod Looped
pub mod Examples

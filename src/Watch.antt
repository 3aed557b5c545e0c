-- ===== src/Watch.antt =====
-- watcher_common.py: the subprocess that the watchers run beside the data acquisition.
pub mod Monitored
pub mod Ended
pub mod Examples

-- ===== src/Backup.antt =====
-- backup_watcher.py: the sync of sub-runs whose size has come to rest, and the sweep over all runs.
pub mod Polls
pub mod Copied
pub mod Sync
pub mod Examples

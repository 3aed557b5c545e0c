-- ===== src/Memory.antt =====
-- mem_guardian.py: the daemon that kills the largest compute process when memory runs out.
pub mod Guardian
pub mod Victims
pub mod Killed
pub mod Examples

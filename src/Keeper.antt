-- ===== src/Keeper.antt =====
-- session_lock.py: the keeper of the session lock.
pub mod Steps
pub mod Released
pub mod Examples

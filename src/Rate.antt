-- ===== src/Rate.antt =====
-- rate_guard.py: the guard that stops a run whose data rate is too high.
pub mod Rounds
pub mod Strikes
pub mod Examples

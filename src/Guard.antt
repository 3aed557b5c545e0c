-- ===== src/Guard.antt =====
-- capture_guard.py: the guard that stops a run whose captures are empty and starts a follow-up run.
pub mod Captures
pub mod Recover
pub mod Phases
pub mod Loop
pub mod Budget
pub mod Caused
pub mod Sorted
pub mod Continuation
pub mod Examples

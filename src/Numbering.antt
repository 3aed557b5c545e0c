-- ===== src/Numbering.antt =====
-- iterate_run_num.py: the number of the next run, which is never one that was handed out before.
pub mod Names
pub mod Fresh
pub mod Examples

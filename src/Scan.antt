-- ===== src/Scan.antt =====
-- config_scan.py: a scan over chip configurations, one run for each.
pub mod Hall
pub mod Point
pub mod Loop
pub mod Ready
pub mod Vouched
pub mod Accounted
pub mod Retake
pub mod Examples

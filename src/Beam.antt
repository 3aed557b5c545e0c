-- ===== src/Beam.antt =====
-- flask_app/beam_state.py: the SPS beam state, read from an image and tracked over time.
pub mod Columns
pub mod Covered
pub mod Tracker
pub mod Steady
pub mod Glitches
pub mod Examples

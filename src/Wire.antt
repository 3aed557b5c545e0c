-- ===== src/Wire.antt =====
-- Client.py and Server.py: messages with a length in front, over a stream of bytes.
pub mod Frame
pub mod Chunks
pub mod Framed
pub mod Examples

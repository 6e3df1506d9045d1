-- ===== src/Protocol.antt =====
-- The wire formats of the daemon: little-endian words, the frames of the manager and of the hook,
-- and the hook's health report.
pub mod Bytes
pub mod Commands
pub mod Frames
pub mod Records
pub mod Setting
pub mod Hook

-- ===== src/Persist.antt =====
-- The package internal/persist: the write-ahead log and its recovery.
pub mod Frames
pub mod Header
pub mod Codec
pub mod Effects
pub mod Scan
pub mod Files
pub mod Wal
pub mod Reservation
pub mod Recovery
pub mod Snapshot

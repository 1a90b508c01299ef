-- ===== src/Engine.antt =====
-- The package internal/engine, and the clock that it reads.
pub mod Clock
pub mod Prefix
pub mod Revision
pub mod History
pub mod Expiry
pub mod Watch
pub mod State
pub mod Conditions
pub mod Admission
pub mod Apply
pub mod Writer
pub mod OrderedKeys
pub mod Commands
pub mod Open
pub mod Reads
pub mod Snapshot
pub mod Scan

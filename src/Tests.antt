-- ===== src/Tests.antt =====
-- Concrete inputs, and the theorems at them.
mod Fixtures
mod Commits
mod Parts
mod Storage
mod Stored
mod Disk
mod Directory

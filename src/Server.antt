-- ===== src/Server.antt =====
-- The package internal/server: how an owner starts.
pub mod Replay

-- ===== src/Protocol.antt =====
-- The package internal/protocol: what goes over a connection.
pub mod Frame

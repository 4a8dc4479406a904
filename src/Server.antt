-- ===== src/Server.antt =====
-- The server around its reactors: include/server and src/server.
pub mod Metrics

-- ===== src/Net.antt =====
-- The server's connections.
pub mod Connection

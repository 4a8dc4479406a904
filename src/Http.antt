-- ===== src/Http.antt =====
-- The HTTP side of the servers: include/http and src/http.
pub mod Ctype
pub mod Request
pub mod Response
pub mod Names
pub mod Parser
pub mod Router
pub mod StaticFile
pub mod Handler
mod Tests

-- ===== src/Http/Parser.antt =====
-- include/http/HttpParser.hpp and src/http/HttpParser.cpp.
pub mod Defs
pub mod Outcome
pub mod Steps
pub mod Loop
pub mod Outcomes
pub mod Bounds
pub mod Total
pub mod Accepted
pub mod Session
mod Tests

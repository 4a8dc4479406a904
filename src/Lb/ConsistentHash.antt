-- ===== src/Lb/ConsistentHash.antt =====
-- include/lb/ConsistentHash.hpp and src/lb/ConsistentHash.cpp.
pub mod Defs
pub mod Walk
pub mod Routing
mod Tests

-- ===== src/Lb/BackendConfig.antt =====
-- src/lb/BackendConfig.cpp: the backends that a configuration file lists.
pub mod Defs
pub mod Valid
mod Tests

-- ===== src/Lb/HealthChecker.antt =====
-- HealthChecker: the probes of the backends over non-blocking sockets.
pub mod Defs
pub mod Start
pub mod Io
pub mod Events
pub mod Run
pub mod Hysteresis
pub mod Descriptors
pub mod Deadlines
pub mod Timeout
mod Tests

-- ===== src/Lb.antt =====
-- The load balancer's parts.
pub mod Backend
pub mod BackendConfig
pub mod ConsistentHash
pub mod Selection
pub mod HealthChecker
pub mod Connections

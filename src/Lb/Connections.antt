-- ===== src/Lb/Connections.antt =====
-- LoadBalancer.cpp: the table of connections and the backends that they hold.
pub mod Defs
pub mod Failover
pub mod Connect
pub mod Connected
pub mod Counted
pub mod Kept
pub mod Accounts
mod Tests

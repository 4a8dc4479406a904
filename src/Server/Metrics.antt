-- ===== src/Server/Metrics.antt =====
-- include/server/Metrics.hpp and server/Metrics.cpp: the counters and the latency histogram.
pub mod Defs
pub mod Tally
pub mod Percentiles
mod Tests

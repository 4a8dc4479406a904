-- ===== src/Worker.antt =====
-- include/worker/WorkerPool.hpp and worker/WorkerPool.cpp: the queue of jobs, the workers, and the
-- completions that go back to the reactors.
pub mod Defs
pub mod Sums
pub mod Run
pub mod Channels
pub mod Steps
pub mod Conserved
pub mod Wakes
mod Tests

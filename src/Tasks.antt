-- ===== src/Tasks.antt =====
-- include/task/TaskManager.hpp and task/TaskManager.cpp: the works that the handlers' calls become.
pub mod Defs
pub mod Sorted
mod Tests

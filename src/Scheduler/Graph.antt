-- ===== src/Scheduler/Graph.antt =====
-- The dependency graph inside src/scheduler/scheduler.cpp, and the invariant of its counters.
pub mod Degree
pub mod Counted
pub mod Changes

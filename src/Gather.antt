-- ===== src/Gather.antt =====
-- src/tasks/gather: the buffers that a task has received are joined to one.
pub mod Task
pub mod Offsets
pub mod Append
pub mod Filled
pub mod Run
mod Examples

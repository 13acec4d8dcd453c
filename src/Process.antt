-- ===== src/Process.antt =====
-- src/tasks/process: the tasks that call a processor of the client.
pub mod State
pub mod Calls
pub mod Commands
pub mod Bodies
pub mod Balance
pub mod Lifecycle
pub mod Throttle
pub mod Kept
pub mod Linked
pub mod Fresh
pub mod Runs
mod Examples

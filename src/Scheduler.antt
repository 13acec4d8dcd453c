-- ===== src/Scheduler.antt =====
-- src/scheduler: the scheduler of physical tasks and what it is made of.
pub mod TaskList
pub mod Locality
pub mod Synchronizer
pub mod State
pub mod Operations
pub mod Graph
pub mod Invariant
pub mod Enqueue
pub mod Decrement
pub mod Preservation
pub mod Dependency
pub mod Completion
pub mod Taking
pub mod Conservation
pub mod Stealing
pub mod Runnable
pub mod Steps
pub mod Order
pub mod Wake
pub mod LocalityManager
pub mod Mapping
pub mod Rounds
pub mod Placement
mod Examples

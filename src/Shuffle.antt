-- ===== src/Shuffle.antt =====
-- src/tasks/shuffle and src/common/hash_function.hpp: records are dealt out to partitions by the
-- hash of their keys, then sorted and grouped in each partition.
pub mod Hash
pub mod Task
pub mod Tasks
pub mod Partition
pub mod Dealt
pub mod Sums
pub mod Starts
pub mod Copied
pub mod Filling
pub mod Reading
pub mod RoundTrip
pub mod Dealing
mod Examples
mod DealingExamples
mod TasksExamples

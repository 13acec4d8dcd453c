-- ===== src/Memory.antt =====
-- src/memory: buffers of records and the memory that they lie in.
pub mod Arrays
pub mod Records
pub mod Bytes
pub mod Layout
pub mod Regions
pub mod Grouped
pub mod Manager
pub mod References
pub mod Lifetime
pub mod Locking
pub mod Release
mod Examples

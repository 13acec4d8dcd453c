-- ===== src/Graph.antt =====
-- src/api (the flow graph that a client builds), src/graph and src/tasks/logical_task_base.cpp (the
-- logical graph that is made of it).
pub mod FlowGraph
pub mod LogicalGraph
pub mod Builder
pub mod Edges
pub mod WellFormed
pub mod Client
pub mod Nodes
pub mod Physical
pub mod Bounded
pub mod Ordered
pub mod Launch
pub mod Running
pub mod Build
mod Examples
mod RunningExamples
mod ClientExamples

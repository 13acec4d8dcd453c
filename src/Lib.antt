-- ===== src/Lib.antt =====
-- m3bp (M3 for Batch Processing): a verification library for the engine that runs a flow graph of
-- processors on the cores of one machine. Paths are from the repository's root.
--
-- The parts and their files:
-- Scheduler (src/scheduler): tasks wait in a dependency graph until their predecessors have
--   completed, are pushed to per-worker or per-node queues, and are taken by workers.
--   TaskList (physical_task_list.cpp), Locality (locality.hpp, locality_option.hpp), Synchronizer
--   (scheduler_synchronizer.hpp), State, Operations and Taking (scheduler.cpp, scheduler.hpp,
--   cancellation_manager.cpp) hold the code; Graph, Invariant, Enqueue, Decrement, Preservation,
--   Dependency, Completion, Conservation, Stealing, Runnable, Steps, Order and Wake the proofs.
--   Threads are interleaved by critical section: Steps.Step has one constructor for each section
--   of Scheduler's methods, and `owed` and `running` say what the threads have in hand.
--   LocalityManager (locality_manager.cpp) gives each worker a node; Mapping, Rounds and Placement
--   show that its searches end, with fuel for one turn round the nodes and a step.
-- Memory (src/memory): the layout of buffers. Layout has the code of serialized_buffer.cpp,
--   Regions and Grouped the proofs. Manager has memory_manager.cpp, memory_object.cpp and
--   memory_reference.cpp, and the allocation of a block in src/system/topology.cpp; References,
--   Lifetime and Locking count owners and locks, Release is about the end of all references.
-- Graph: from the client's flow graph (FlowGraph: src/api/internal/flow_graph_impl.hpp, vertex.hpp
--   and the ports) the logical graph of tasks (LogicalGraph: src/graph/logical_graph.cpp and
--   src/tasks/logical_task_base.cpp) is built by Builder (src/graph/logical_graph_builder.cpp). The
--   proofs are in Edges, WellFormed (what is asked of a flow graph), Client (what a client can build), Nodes and Build. Physical is
--   create_physical_tasks of src/graph/logical_graph.cpp over the tasks of all components (AnyTask
--   stands for the virtual methods); Bounded, Ordered, Launch and Running are its proofs.
-- Process (src/tasks/process): what calls the client's processor. State and Calls have its life
--   cycle, Commands and Bodies its physical tasks in the scheduler; Balance and Lifecycle are about
--   the calls, Throttle, Kept, Linked, Fresh and Runs about the tasks. A processor is known by `raises`, the calls
--   that throw, and a task object by what the calls are given.
-- Gather (src/tasks/gather): Task is gather_logical_task.cpp, over arrays whose bounds are checked
--   (Memory.Arrays) and the records in them (Memory.Records); Offsets, Append, Filled and Run are
--   the proofs.
-- Shuffle: Hash is src/common/hash_function.hpp. Partition deals the records of a buffer out
--   (src/tasks/shuffle/shuffle_logical_task.cpp), over bytes (Memory.Bytes), and Reading finds them
--   again with the accessors of src/tasks/shuffle/msd_radix_sort.hpp. Dealt says what each partition
--   is to get; Sums, Starts, Copied and Filling are the three loops, RoundTrip and Dealing the whole.
--   Task and Tasks have the physical tasks of a shuffle, and of a value sort
--   (src/tasks/value_sort).
--   The loop that reads has the length of the partition as fuel: each round takes 16 bytes or more.
--
-- Conventions. `none` is a failed assert or an access out of range. std::size_t is a natural number
-- below 2 ^ 64, and sums and differences wrap where the code lets them. A pointer to a task is the
-- task, a null pointer is `none`. std::unordered_map is an association list (Prelude.Table).
-- What uniform_random_integer draws is an argument, bounded as std::uniform_int_distribution
-- documents. The processing units of the nodes, which hwloc reports, are an argument, and so is which sizes
-- `malloc` gives a block for. Other memory (of containers, of shared pointers) is never short.
--
-- Not modelled: the radix sort of a partition and the grouped buffer that it is written to, the
-- sorting of values (the body of src/tasks/value_sort), the loop and the threads of the workers
-- (src/context), the readers and writers of src/api, the rest of the topology (calls of hwloc), logging and
-- profiling (output only), the CMake build, the tests and examples.
pub mod Gather
pub mod Graph
pub mod Memory
pub mod Prelude
pub mod Process
pub mod Scheduler
pub mod Shuffle

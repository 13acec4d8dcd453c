-- ===== src/Scheduler/LocalityManager.antt =====
-- src/scheduler/locality_manager.cpp: the node of each worker and of each partition. The number of
-- processing units of each node, which hwloc reports, is an argument. The two `while` loops take
-- fuel, and `none` is out of fuel, an access out of range or a division by zero.
use m3bp.Prelude.{
  ℕ, zero, suc, ◌+◌, ◌-◌, ◌%◌, true, false, Option, none, some, List, [], ◌∷◌, ◌++◌, ◌==◌,
  if◌then◌else◌, ltb, ◌>>=◌, length, get_elem?, set, replicate,
}
use m3bp.Memory.Manager.{AffinityMode, no_affinity, compact, scatter}
use m3bp.Scheduler.Operations.{push_queue}
use m3bp.Scheduler.State.{Places}

pub record LocalityManager : Type 0 where
  pub max_concurrency : ℕ
  pub numa_node_count : ℕ
  pub thread_mapping : List ℕ
  pub partition_mapping : List ℕ
  pub node_to_worker : List (List ℕ)

-- What the loops over the threads fill.
pub record Assigned : Type 0 where
  pub threads : List ℕ
  pub workers : List (List ℕ)

unfoldable pub assign : (node i : ℕ) → Assigned → Option Assigned
assign node i a = do
  workers ← push_queue node i a.workers
  some (record { threads = a.threads ++ node ∷ []; workers = workers })

-- `while(j == pu_per_node[node])`: the next node once this one is full.
unfoldable pub next_compact : (fuel j node : ℕ) → List ℕ → Option (ℕ × ℕ)
next_compact zero j node pu_per_node = none
next_compact (suc fuel) j node pu_per_node = do
  units ← get_elem? pu_per_node node
  elim (j == units) [
    | true ↦ next_compact fuel 0 ((node + 1) % length pu_per_node) pu_per_node
    | false ↦ some (j, node)
  ]

-- One node after the other, with `left` threads to go. One turn and one step are enough to find a
-- node with room.
unfoldable pub compact_loop : (left i j node : ℕ) → List ℕ → Assigned → Option Assigned
compact_loop zero i j node pu_per_node a = some a
compact_loop (suc left) i j node pu_per_node a = do
  r ← next_compact (length pu_per_node + 1) j node pu_per_node
  a' ← assign r.1 i a
  compact_loop left (i + 1) (r.0 + 1) r.1 pu_per_node a'

-- `while(remains[node] == 0)`.
unfoldable pub next_scatter : (fuel node : ℕ) → List ℕ → Option ℕ
next_scatter zero node remains = none
next_scatter (suc fuel) node remains = do
  units ← get_elem? remains node
  elim (units == 0) [
    | true ↦ next_scatter fuel ((node + 1) % length remains) remains
    | false ↦ some node
  ]

-- `std::accumulate` from an `int`: the sum is kept in 32 bits, and sign-extended in the end.
abbrev pub accumulate : ℕ → List ℕ → ℕ
accumulate sum [] = sum
accumulate sum (n ∷ ns) = accumulate ((sum + n) % 4294967296) ns

abbrev pub from_int : ℕ → ℕ
from_int sum = if ltb sum 2147483648 then sum else sum + 18446744069414584320

unfoldable pub total_pu_count : List ℕ → ℕ
total_pu_count pu_per_node = from_int (accumulate 0 pu_per_node)

abbrev pub use_unit : ℕ → List ℕ → Option (List ℕ)
use_unit node remains = do units ← get_elem? remains node; some (set remains node (units - 1))

-- Round the nodes, one unit of each at a time, starting anew when all units are taken.
unfoldable pub scatter_loop : (total left i node : ℕ) → List ℕ → List ℕ → Assigned → Option Assigned
scatter_loop total zero i node pu_per_node remains a = some a
scatter_loop total (suc left) i node pu_per_node remains a = elim (total == 0) [
  | true ↦ none
  | false ↦
      let anew = i % total == 0 in
      let units = if anew then pu_per_node else remains in
      (do
        at ← next_scatter (length units + 1) (if anew then 0 else node) units
        a' ← assign at i a
        units' ← use_unit at units
        scatter_loop total left (i + 1) ((at + 1) % length pu_per_node) pu_per_node units' a')
]

unfoldable pub partition_loop : (left i num_threads : ℕ) → List ℕ → Option (List ℕ)
partition_loop zero i num_threads threads = some []
partition_loop (suc left) i num_threads threads = do
  node ← get_elem? threads (i % num_threads)
  rest ← partition_loop left (i + 1) num_threads threads
  some (node ∷ rest)

-- The last loop of the constructor.
unfoldable pub with_partitions :
    (num_threads num_partitions : ℕ) → List ℕ → Assigned → Option LocalityManager
unfolding partition_loop
with_partitions num_threads num_partitions pu_per_node a = do
  partitions ← partition_loop num_partitions 0 num_threads a.threads
  some (record {
    max_concurrency = num_threads;
    numa_node_count = length pu_per_node;
    thread_mapping = a.threads;
    partition_mapping = partitions;
    node_to_worker = a.workers;
  })

-- The constructor, for the affinity and the two numbers of the configuration.
unfoldable pub new_locality_manager :
    AffinityMode → (num_threads num_partitions : ℕ) → List ℕ → Option LocalityManager
unfolding assign next_compact compact_loop next_scatter total_pu_count scatter_loop with_partitions
new_locality_manager affinity num_threads num_partitions pu_per_node =
    let nobody : Assigned = record { threads = []; workers = replicate (length pu_per_node) [] } in
    elim affinity [
      | no_affinity ↦ some (record {
        max_concurrency = num_threads;
        numa_node_count = 1;
        thread_mapping = [];
        partition_mapping = [];
        node_to_worker = [];
      })
      | compact ↦
          compact_loop num_threads 0 0 0 pu_per_node nobody
          >>= with_partitions num_threads num_partitions pu_per_node
      | scatter ↦
          scatter_loop (total_pu_count pu_per_node) num_threads 0 0 pu_per_node pu_per_node nobody
          >>= with_partitions num_threads num_partitions pu_per_node
    ]

unfoldable pub thread_node : LocalityManager → ℕ → Option ℕ
thread_node l worker_id = elim l.thread_mapping [
  | [] ↦ some 0
  | n ∷ ns ↦ get_elem? (n ∷ ns) worker_id
]

unfoldable pub partition_node : LocalityManager → ℕ → Option ℕ
partition_node l partition_id = elim l.partition_mapping [
  | [] ↦ some 0
  | n ∷ ns ↦ get_elem? (n ∷ ns) partition_id
]

-- A worker of a node, with the number that `uniform_random_integer` draws.
unfoldable pub random_worker_from_node : (draw node : ℕ) → LocalityManager → Option ℕ
random_worker_from_node draw node l = elim l.node_to_worker [
  | [] ↦ some draw
  | w ∷ ws ↦ do workers ← get_elem? (w ∷ ws) node; get_elem? workers draw
]

-- What the scheduler uses of it.
abbrev pub places_of : LocalityManager → Places
places_of l = record {
  max_concurrency = l.max_concurrency;
  node_count = l.numa_node_count;
  thread_mapping = thread_node l;
}

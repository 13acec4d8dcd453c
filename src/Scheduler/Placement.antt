-- ===== src/Scheduler/Placement.antt =====
-- The places that src/scheduler/locality_manager.cpp gives to the scheduler.
use native.Mathlib.Nat.{mod-lt, mod-eq_of_lt}
use m3bp.Prelude.{
  ℕ, zero, suc, ◌+◌, ◌%◌, ◌<◌, ◌≡◌, refl, ap, some, List, [], ◌∷◌, length, get_elem?, replicate,
  arith, length-replicate,
}
use m3bp.Memory.Manager.{AffinityMode, no_affinity, compact, scatter}
use m3bp.Scheduler.Invariant.{IsPlaces}
use m3bp.Scheduler.LocalityManager.{
  LocalityManager, Assigned, partition_loop, with_partitions, new_locality_manager, thread_node,
  places_of,
}
use m3bp.Scheduler.LocalityManager.{partition_node}
use m3bp.Scheduler.Mapping.{total, total_pu_count_lem, total_found, AllBelow, IsAssigned}
use m3bp.Scheduler.Rounds.{compact_loop_lem, scatter_loop_lem}

below_node :
    (n : ℕ) (nodes : List ℕ) (i : ℕ)
    → i < length nodes
    → AllBelow n nodes
    → (node : ℕ) × (get_elem? nodes i ≡ some node) × (node < n)
below_node n [] i h all = elim h [ ]
below_node n (x ∷ nodes) zero h all = (x, refl, all.0)
below_node n (x ∷ nodes) (suc i) h all = below_node n nodes i (omega arith) all.1

-- A lookup in a mapping that is not empty.
node_of :
    (n : ℕ) (nodes : List ℕ) (i : ℕ)
    → i < length nodes
    → AllBelow n nodes
    → (node : ℕ) × (elim nodes [ [] ↦ some 0 | x ∷ xs ↦ get_elem? (x ∷ xs) i ] ≡ some node)
      × (node < n)
node_of n [] i h all = elim h [ ]
node_of n (x ∷ nodes) i h all = below_node n (x ∷ nodes) i h all

partition_loop_lem :
    (left i num_threads n : ℕ) (threads : List ℕ)
    → 0 < num_threads
    → length threads ≡ num_threads
    → AllBelow n threads
    → (ps : List ℕ) × (partition_loop left i num_threads threads ≡ some ps)
      × (length ps ≡ left)
      × AllBelow n ps
unfolding partition_loop
partition_loop_lem zero i num_threads n threads pos size all = ([], refl, refl, tt)
partition_loop_lem (suc left) i num_threads n threads pos size all =
    let (node, e, below) =
      below_node n threads (i % num_threads) (omega (arith, mod-lt i pos, size)) all in
    let (ps, f, size', all') = partition_loop_lem left (i + 1) num_threads n threads pos size all in
    (node ∷ ps, rw (e, f) refl, ap suc size', (below, all'))

-- Each worker and each partition has a node that exists.
pub record Placed (num_partitions : ℕ) (l : LocalityManager) : Type 0 where
  pub workers : IsPlaces (places_of l)
  pub partitions :
      (p : ℕ)
      → p < num_partitions
      → (node : ℕ) × (partition_node l p ≡ some node) × (node < l.numa_node_count)

with_partitions-Placed :
    (num_threads num_partitions : ℕ) (pu : List ℕ) (a : Assigned)
    → 0 < num_threads
    → IsAssigned (length pu) (0 + num_threads) a
    → (l : LocalityManager) × (with_partitions num_threads num_partitions pu a ≡ some l)
      × Placed num_partitions l
      × (l.max_concurrency ≡ num_threads)
unfolding with_partitions thread_node partition_node
with_partitions-Placed num_threads num_partitions pu a pos ok =
    let (ps, e, size, all) =
      partition_loop_lem num_partitions 0 num_threads (length pu) a.threads pos
        (omega (arith, ok.all)) ok.nodes in
    (
      record {
        max_concurrency = num_threads;
        numa_node_count = length pu;
        thread_mapping = a.threads;
        partition_mapping = ps;
        node_to_worker = a.workers;
      },
      rw e refl,
      record {
        workers = record {
          mapped = λ w h. node_of (length pu) a.threads w (omega (arith, ok.all)) ok.nodes;
        };
        partitions = λ p h. node_of (length pu) ps p (omega (arith, size)) all;
      },
      refl,
    )

nobody-IsAssigned : (n : ℕ) → IsAssigned n 0 (record { threads = []; workers = replicate n [] })
nobody-IsAssigned n = record { nodes = tt; all = refl; shaped = length-replicate n [] }

-- With at least one thread and one processing unit, and fewer units than 2 ^ 31, which an `int`
-- holds, whatever the affinity, the constructor comes
-- to an end and gives the scheduler places that exist, for each worker and each partition.
pub new_locality_manager-Placed :
    (affinity : AffinityMode) (num_threads num_partitions : ℕ) (pu_per_node : List ℕ)
    → 0 < num_threads
    → 0 < total pu_per_node
    → total pu_per_node < 2147483648
    → (l : LocalityManager) × (new_locality_manager affinity num_threads num_partitions pu_per_node
        ≡ some l)
      × Placed num_partitions l
      × (l.max_concurrency ≡ num_threads)
unfolding new_locality_manager thread_node partition_node
new_locality_manager-Placed no_affinity num_threads num_partitions pu pos units small = (
  record {
    max_concurrency = num_threads;
    numa_node_count = 1;
    thread_mapping = [];
    partition_mapping = [];
    node_to_worker = [];
  },
  refl,
  record {
    workers = record { mapped = λ w h. (0, refl, omega arith) };
    partitions = λ p h. (0, refl, omega arith);
  },
  refl,
)
new_locality_manager-Placed compact num_threads num_partitions pu pos units small =
    let (t, c, low, e, some_units) = total_found pu units in
    let (a, f, ok) =
      compact_loop_lem num_threads 0 0 0 t c pu _ (omega arith) low e some_units
        (nobody-IsAssigned (length pu)) in
    rw f (with_partitions-Placed num_threads num_partitions pu a pos ok)
new_locality_manager-Placed scatter num_threads num_partitions pu pos units small =
    let (t, c, low, e, some_units) = total_found pu units in
    let (a, f, ok) =
      scatter_loop_lem num_threads 0 0 pu pu _ (omega arith) refl units
        (λ ne. absurd (ne (mod-eq_of_lt units))) (nobody-IsAssigned (length pu)) in
    rw (total_pu_count_lem pu small)
      (rw f (with_partitions-Placed num_threads num_partitions pu a pos ok))

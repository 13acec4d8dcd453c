-- ===== src/Scheduler/Examples.antt =====
-- Runs of the scheduler on two small graphs, and its theorems at them.
use m3bp.Prelude.{
  ℕ, ◌+◌, ◌-◌, ◌<◌, get_elem?, ◌≡◌, ◌≤◌, ◌⊎◌, refl, true, false, Option, none, some, List, [], ◌∷◌,
  arith, inr, count, wrap_suc, wrap_pred, ◌>>=◌, ap,
}
use m3bp.Prelude.Table.{find, put, erase, emplace}
use m3bp.Scheduler.Locality.{Locality, any_worker}
use m3bp.Scheduler.Synchronizer.{notify, notify_all, wake_one}
use m3bp.Scheduler.State.{PhysicalTask, PhysicalVertex, Places, Scheduler}
use m3bp.Memory.Manager.{scatter}
use m3bp.Scheduler.LocalityManager.{LocalityManager, new_locality_manager}
use m3bp.Scheduler.Placement.{Placed, new_locality_manager-Placed}
use m3bp.Scheduler.TaskList.{pop_front, pop_back}
use m3bp.Scheduler.Operations.{
  init, push_queue, enqueue_unstealable, enqueue_stealable, target_worker, enqueue,
  decrement_predecessor_count, create_physical_task, add_dependency, commit_task, decrement_all,
  remove_completed, finish_task, notify_task_completion, notify_exception,
}
use m3bp.Scheduler.Taking.{
  pop_queue, take_unstealable_task, take_local_stealable_task, steal_loop, steal_task, sleep_round,
  take_runnable_task, Outcome,
}
use m3bp.Scheduler.Invariant.{IsPlaces, Inv, queued, queue_ids}
use m3bp.Scheduler.Decrement.{Draws}
use m3bp.Scheduler.Preservation.{init-Inv, commit_task-Inv}
use m3bp.Scheduler.Steps.{
  World, created, linked, committed, decremented, taken_local, removed, Reach, here, next,
  Reach-Inv, Step-Inv,
}
use m3bp.Scheduler.Order.{
  start, holders, successor_waits, holders-le-one, ready_is_held, all_completed,
}
use m3bp.Scheduler.Wake.{sleepers, wake_one_lem}
use m3bp.Scheduler.Completion.{notify_task_completion-Inv}
use m3bp.Scheduler.Dependency.{add_dependency-Inv}
use m3bp.Scheduler.Runnable.{Result, take_runnable_task_lem}
use m3bp.Scheduler.Conservation.{Took}
use m3bp.Scheduler.Stealing.{steal_task_lem}

-- Two workers on one node.
abbrev two_workers : Places
two_workers = record { max_concurrency = 2; node_count = 1; thread_mapping = λ _. some 0 }

two_workers-IsPlaces : IsPlaces two_workers
two_workers-IsPlaces = record { mapped = λ w h. (0, refl, omega arith) }

-- All that a run computes with.
program : Unit {0}
unfolding init push_queue enqueue_unstealable enqueue_stealable target_worker enqueue
    decrement_predecessor_count create_physical_task add_dependency commit_task decrement_all
    remove_completed finish_task notify_task_completion notify_exception find put erase emplace
    notify notify_all wake_one pop_front pop_back pop_queue take_unstealable_task
    take_local_stealable_task steal_loop steal_task sleep_round take_runnable_task count queue_ids
program = tt

abbrev first : ℕ → ℕ
first _ = 0

abbrev two_tasks : Scheduler
two_tasks =
    (create_physical_task 5 8 any_worker
      (create_physical_task 5 7 any_worker (init two_workers)).0).0

abbrev or_init : Option Scheduler → Scheduler
or_init none = init two_workers
or_init (some s) = s

-- Task 1 waits for task 0; both are committed, 1 first.
abbrev chained : Scheduler
chained = or_init (add_dependency 0 1 two_tasks)

abbrev committed_chain : Scheduler
committed_chain = or_init (commit_task first 1 chained >>= commit_task first 0)

abbrev view : Scheduler → List ℕ × ℕ
view s = (queued s, s.unfinished_task_count)

abbrev worker : Locality
worker = record { self_thread_id = 0; self_node_id = 0 }

abbrev taken : Option (Outcome × Scheduler) → Scheduler
taken none = init two_workers
taken (some r) = r.1

-- Task 0 runs alone; its completion queues task 1.
abbrev chain_running : Scheduler
chain_running = taken (take_runnable_task worker committed_chain)

chain_run :
    (view committed_chain ≡ (0 ∷ [], 2))
    × (view chain_running ≡ ([], 2))
    × (view (or_init (notify_task_completion first 0 chain_running)) ≡ (1 ∷ [], 1))
unfolding program
chain_run = (refl, refl, refl)

abbrev world : List ℕ → List ℕ → Scheduler → World
world owed running s = record { owed = owed; running = running; scheduler = s }

abbrev one_task : Scheduler
one_task = (create_physical_task 5 7 any_worker (init two_workers)).0

Reach-one : Reach (start two_workers) (world (0 ∷ []) [] one_task)
unfolding program
Reach-one = next here (created 5 7 any_worker (omega arith) (inr (refl, refl)))

Reach-two : Reach (start two_workers) (world (1 ∷ 0 ∷ []) [] two_tasks)
unfolding program
Reach-two = next Reach-one (created 5 8 any_worker (omega arith) (inr (refl, refl)))

abbrev waiting_vertex : PhysicalVertex
waiting_vertex = record {
  predecessor_count = 1;
  successors = [];
  locality_option = any_worker;
  physical_task = some (record { logical_task_id = 5; physical_task_id = 1; command = 8 });
}

Reach-chained : Reach (start two_workers) (world (1 ∷ 0 ∷ []) [] chained)
unfolding program
Reach-chained =
    next Reach-two (linked 0 1 waiting_vertex chained refl (omega arith) (omega arith) refl)

abbrev first_vertex : PhysicalVertex
first_vertex = record {
  predecessor_count = 1;
  successors = 1 ∷ [];
  locality_option = any_worker;
  physical_task = some (record { logical_task_id = 5; physical_task_id = 0; command = 7 });
}

successor_waits_example : holders 1 (world (1 ∷ 0 ∷ []) [] chained) ≡ 0
unfolding program
successor_waits_example =
    successor_waits two_workers-IsPlaces Reach-chained 0 1 first_vertex refl (omega arith)

holders-le-one_example : holders 1 (world (1 ∷ 0 ∷ []) [] chained) ≤ 1
holders-le-one_example = holders-le-one two_workers-IsPlaces Reach-chained 1

-- One task from its commit to its end.
abbrev one_counted : Scheduler
one_counted = record one_task { unfinished_task_count = 1 }

abbrev one_ready : Scheduler
one_ready = or_init (decrement_predecessor_count first 0 one_counted)

abbrev one_vertex : PhysicalVertex
one_vertex = record {
  predecessor_count = 0;
  successors = [];
  locality_option = any_worker;
  physical_task = none;
}

abbrev the_task : PhysicalTask
the_task = record { logical_task_id = 5; physical_task_id = 0; command = 7 }

abbrev one_taken : Scheduler
one_taken = record one_ready { stealable_queues = [] ∷ [] }

abbrev one_removed : Scheduler
one_removed = record one_taken { vertices = [] }

first-Draws : (s : Scheduler) → 0 < s.places.max_concurrency → Draws first s
first-Draws s h k = h

Reach-ready : Reach (start two_workers) (world [] [] one_ready)
unfolding program
Reach-ready =
    next (next Reach-one committed)
      (decremented first 0 [] one_ready (first-Draws one_counted (omega arith)) (λ a. refl) refl)

no_predecessors :
    (p : ℕ) (u : PhysicalVertex) → find p one_ready.vertices ≡ some u → count 0 u.successors ≡ 0
unfolding program
no_predecessors p u e = ground (
  arith,
  ap {B = ℕ} (λ (o : Option PhysicalVertex). elim o [ none ↦ 0 | some v ↦ count 0 v.successors ]) e,
)

ready_is_held_example : holders 0 (world [] [] one_ready) ≡ 1
unfolding program
ready_is_held_example =
    ready_is_held two_workers-IsPlaces Reach-ready 0 one_vertex refl refl no_predecessors

Reach-end : Reach (start two_workers) (world [] [] one_removed)
unfolding program
Reach-end =
    next (next Reach-ready (taken_local worker the_task one_taken (omega arith, omega arith) refl))
      (removed 0 [] [] one_removed (λ a. refl) refl)

no_edges :
    (p k : ℕ) (v : PhysicalVertex)
    → find p one_removed.vertices ≡ some v
    → 0 < count k v.successors
    → p < k
unfolding program
no_edges p k v e h = ground arith

all_completed_example : find 0 one_removed.vertices ≡ none
unfolding program
all_completed_example =
    all_completed two_workers-IsPlaces Reach-end (λ n. n) no_edges (λ a. refl) (λ a. refl) 0

Inv-at : {w : World} → Reach (start two_workers) w → Inv w.owed w.running w.scheduler
Inv-at r = Reach-Inv r (init-Inv two_workers two_workers-IsPlaces)

Step-Inv_example : Inv (1 ∷ 0 ∷ []) [] chained
unfolding program
Step-Inv_example =
    Step-Inv {w = world (1 ∷ 0 ∷ []) [] two_tasks} {u = world (1 ∷ 0 ∷ []) [] chained}
      (linked 0 1 waiting_vertex chained refl (omega arith) (omega arith) refl) (Inv-at Reach-two)

Reach-taken : Reach (start two_workers) (world [] (0 ∷ []) one_taken)
unfolding program
Reach-taken =
    next Reach-ready (taken_local worker the_task one_taken (omega arith, omega arith) refl)

notify_task_completion-Inv_example :
    (s' : Scheduler) × (notify_task_completion first 0 one_taken ≡ some s')
    × Inv [] [] s'
    × (s'.unfinished_task_count ≡ wrap_pred one_taken.unfinished_task_count)
unfolding program
notify_task_completion-Inv_example =
    notify_task_completion-Inv first 0 [] [] one_taken (first-Draws one_taken (omega arith))
      (Inv-at Reach-taken)

commit_task-Inv_example :
    (s' : Scheduler) × (commit_task first 0 one_task ≡ some s')
    × Inv [] [] s'
    × (s'.unfinished_task_count ≡ wrap_suc one_task.unfinished_task_count)
unfolding program
commit_task-Inv_example =
    commit_task-Inv first 0 [] [] one_task (first-Draws one_task (omega arith)) (Inv-at Reach-one)

add_dependency-Inv_example :
    (s' : Scheduler) × (add_dependency 0 1 two_tasks ≡ some s')
    × Inv (1 ∷ 0 ∷ []) [] s'
    × ((find 0 two_tasks.vertices ≡ none) × (s' ≡ two_tasks)
        ⊎ (v' : PhysicalVertex) × (find 1 s'.vertices ≡ some v') × (v'.predecessor_count ≡ 1 + 1))
unfolding program
add_dependency-Inv_example =
    add_dependency-Inv 0 1 waiting_vertex (1 ∷ 0 ∷ []) [] two_tasks (Inv-at Reach-two) refl
      (omega arith) (omega arith)

take_runnable_task_lem_example :
    (o : Outcome) × (s' : Scheduler) × (take_runnable_task worker one_ready ≡ some (o, s'))
    × Result [] [] worker o s'
unfolding program
take_runnable_task_lem_example =
    take_runnable_task_lem [] [] worker one_ready (Inv-at Reach-ready) (omega arith, omega arith)

steal_task_lem_example :
    (r : Option PhysicalTask) × (s' : Scheduler) × (steal_task worker one_ready ≡ some (r, s'))
    × Took r one_ready s'
    × (r ≡ none → (t : ℕ) → t < 1 → get_elem? one_ready.stealable_queues t ≡ some [])
unfolding program
steal_task_lem_example = steal_task_lem worker one_ready (Inv-at Reach-ready).shaped (omega arith)

wake_one_lem_example :
    sleepers (wake_one 3 0 2 3 (true ∷ false ∷ true ∷ [])) ≡ sleepers (true ∷ false ∷ true ∷ []) - 1
wake_one_lem_example = wake_one_lem 2 (true ∷ false ∷ true ∷ []) (omega arith)

-- Six workers and eight partitions on two nodes, of three units and one.
new_locality_manager-Placed_example :
    (l : LocalityManager) × (new_locality_manager scatter 6 8 (3 ∷ 1 ∷ []) ≡ some l)
    × Placed 8 l
    × (l.max_concurrency ≡ 6)
new_locality_manager-Placed_example =
    new_locality_manager-Placed scatter 6 8 (3 ∷ 1 ∷ []) (omega arith) (omega arith) (omega arith)

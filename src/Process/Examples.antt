-- ===== src/Process/Examples.antt =====
-- A process task with two workers and room for one command at a time.
use m3bp.Prelude.{
  ℕ, zero, suc, ◌+◌, ◌≡◌, refl, sym, subst, Bool, true, false, Option, none, some, List, [], ◌∷◌,
  length, get_elem?, arith, inr, get_or,
}
use m3bp.Prelude.Table.{find, put, emplace}
use m3bp.Graph.FlowGraph.{InputPort, undefined}
use m3bp.Scheduler.Locality.{Locality, any_worker}
use m3bp.Scheduler.Synchronizer.{wake_one, notify}
use m3bp.Scheduler.State.{PhysicalVertex, Places, Scheduler}
use m3bp.Scheduler.Operations.{
  decrement_predecessor_count, enqueue, enqueue_stealable, enqueue_unstealable, target_worker,
  push_queue, init, create_physical_task, add_dependency, commit_task,
}
use m3bp.Scheduler.Invariant.{IsPlaces}
use m3bp.Scheduler.Preservation.{init-Inv}
use m3bp.Scheduler.Steps.{World, created, linked, Reach, here, next, Reach-Inv}
use m3bp.Scheduler.Order.{start}
use m3bp.Process.State.{Call, ProcessTask, new_process_task}
use m3bp.Process.Calls.{Ran, returned, after, run, thread_local_cancel, finalize_thread}
use m3bp.Process.Commands.{
  Command, create_physical_tasks, commit_process_command, notify_completion,
  after_global_initialize,
}
use m3bp.Process.Balance.{IsBalanced, begun, ended}
use m3bp.Process.Lifecycle.{run-IsBalanced, finalize_thread-IsBalanced, thread_local_cancel_pairs}
use m3bp.Process.Throttle.{Throttled, commit_process_command-Throttled, notify_completion-Throttled}
use m3bp.Process.Linked.{AllBetween}
use m3bp.Process.Runs.{IsOpen, after_global_initialize-IsOpen}

abbrev the_port : InputPort
the_port = record { name = []; movement = undefined; value_comparator = none }

abbrev fresh_task : ProcessTask
fresh_task = new_process_task (the_port ∷ []) [] 1 2

abbrev second_worker : Locality
second_worker = record { self_thread_id = 1; self_node_id = 0 }

-- No call raises.
abbrev calm : Call → Bool
calm _ = false

no_flags : (w : ℕ) → get_or (false ∷ false ∷ []) w false ≡ false
no_flags zero = refl
no_flags (suc zero) = refl
no_flags (suc (suc w)) = refl

fresh_task-IsBalanced : IsBalanced calm fresh_task
unfolding new_process_task
fresh_task-IsBalanced = record { threads = λ w. rw (no_flags w) refl; whole = refl; in_order = tt }

abbrev two_workers : Places
two_workers = record { max_concurrency = 2; node_count = 1; thread_mapping = λ _. some 0 }

two_workers-IsPlaces : IsPlaces two_workers
two_workers-IsPlaces = record { mapped = λ w h. (0, refl, omega arith) }

finalize_thread-IsBalanced_example :
    (r : Ran) × (finalize_thread calm second_worker (some 5 ∷ []) false fresh_task ≡ some r)
    × IsBalanced calm (after r)
    × (get_elem? (after r).thread_local_initialized 1 ≡ some false)
unfolding new_process_task
finalize_thread-IsBalanced_example =
    finalize_thread-IsBalanced calm second_worker fresh_task fresh_task-IsBalanced (some 5 ∷ [])
      (omega arith) false false refl

-- The run has set the worker's part up.
abbrev or_fresh : Option Ran → ProcessTask
or_fresh none = fresh_task
or_fresh (some r) = after r

abbrev in_use : ProcessTask
in_use = or_fresh (run calm second_worker 0 (some 5 ∷ []) fresh_task)

in_use-IsBalanced : IsBalanced calm in_use
unfolding new_process_task
in_use-IsBalanced =
    let (r, e, ok) =
      run-IsBalanced calm second_worker fresh_task fresh_task-IsBalanced (some 5 ∷ []) (omega arith)
        false 0 refl in
    subst (λ (o : Option Ran). IsBalanced calm (or_fresh o)) (sym e) ok

thread_local_cancel_pairs_example :
    (r : Ran) × (thread_local_cancel calm second_worker in_use ≡ some r)
    × (begun calm 1 (after r).calls ≡ ended 1 (after r).calls)
    × (thread_local_cancel calm second_worker (after r) ≡ some (returned (after r)))
unfolding new_process_task run
thread_local_cancel_pairs_example =
    thread_local_cancel_pairs calm second_worker in_use true in_use-IsBalanced (λ _. omega arith)
      refl

-- The three tasks of the logical task, and the edges between them.
program : Unit {0}
unfolding new_process_task create_physical_tasks init create_physical_task add_dependency find put
    emplace commit_task decrement_predecessor_count enqueue enqueue_stealable enqueue_unstealable
    target_worker push_queue wake_one notify commit_process_command notify_completion
    after_global_initialize
program = tt

abbrev number : Command → ℕ
number _ = 7

abbrev first : ℕ → ℕ
first _ = 0

abbrev or_empty : Option (ProcessTask × Scheduler) → ProcessTask × Scheduler
or_empty none = (fresh_task, init two_workers)
or_empty (some r) = r

abbrev laid_out : ProcessTask × Scheduler
laid_out = or_empty (create_physical_tasks number fresh_task (init two_workers))

abbrev world : List ℕ → Scheduler → World
world owed s = record { owed = owed; running = []; scheduler = s }

abbrev or_init : Option Scheduler → Scheduler
or_init none = init two_workers
or_init (some s) = s

abbrev fresh_vertex : ℕ → PhysicalVertex
fresh_vertex id = record {
  predecessor_count = 1;
  successors = [];
  locality_option = any_worker;
  physical_task =
      some (record { logical_task_id = 18446744073709551615; physical_task_id = id; command = 7 });
}

abbrev added : ℕ → Scheduler
added zero = init two_workers
added (suc n) = (create_physical_task 18446744073709551615 7 any_worker (added n)).0

Reach-added : Reach (start two_workers) (world (2 ∷ 1 ∷ 0 ∷ []) (added 3))
unfolding program
Reach-added =
    next
      (next (next here (created 18446744073709551615 7 any_worker (omega arith) (inr (refl, refl))))
        (created 18446744073709551615 7 any_worker (omega arith) (inr (refl, refl))))
      (created 18446744073709551615 7 any_worker (omega arith) (inr (refl, refl)))

abbrev entered : Scheduler
entered = or_init (add_dependency 0 1 (added 3))

Reach-laid_out : Reach (start two_workers) (world (2 ∷ 1 ∷ 0 ∷ []) laid_out.1)
unfolding program
Reach-laid_out =
    next
      (next Reach-added (linked 0 1 (fresh_vertex 1) entered refl (omega arith) (omega arith) refl))
      (linked 1 2 (fresh_vertex 2) laid_out.1 refl (omega arith) (omega arith) refl)

laid_out-IsOpen : IsOpen 2 1 0 (2 ∷ 1 ∷ 0 ∷ []) [] laid_out.0 laid_out.1
unfolding program
laid_out-IsOpen = record {
  throttled = record {
    inv = Reach-Inv Reach-laid_out (init-Inv two_workers two_workers-IsPlaces);
    share = refl;
    small = omega arith;
    full = λ some_wait. absurd (omega arith);
  };
  barrier_waits = (
    2,
    omega arith,
    record {
      vertex = record (fresh_vertex 1) { predecessor_count = 2; successors = 2 ∷ [] };
      found = refl;
      waiting = omega arith;
      at_most = omega arith;
    },
  );
  identifiers = omega arith;
}

abbrev entry_vertex : PhysicalVertex
entry_vertex = record {
  predecessor_count = 1;
  successors = 1 ∷ [];
  locality_option = any_worker;
  physical_task =
      some (record { logical_task_id = 18446744073709551615; physical_task_id = 0; command = 7 });
}

after_global_initialize-IsOpen_example :
    (t' : ProcessTask) × (s' : Scheduler) × (after_global_initialize number first 2 laid_out.0
        laid_out.1
      ≡ some (t', s'))
    × IsOpen 0 1 1 (2 ∷ 1 ∷ 0 ∷ []) [] t' s'
    × (length t'.task_queue + 1 ≡ 2)
    × AllBetween 0 1 3 2 s'
    × (s'.created_task_count ≡ 5)
unfolding program
after_global_initialize-IsOpen_example =
    after_global_initialize-IsOpen number first 2 1 0 (2 ∷ 1 ∷ 0 ∷ []) [] entry_vertex laid_out.0
      laid_out.1 (λ k. omega arith) laid_out-IsOpen refl

-- One more task, whose commit is left to the process task.
abbrev with_command : Scheduler
with_command = (create_physical_task 18446744073709551615 7 any_worker laid_out.1).0

with_command-Throttled : Throttled 1 0 (3 ∷ 2 ∷ 1 ∷ 0 ∷ []) [] laid_out.0 with_command
unfolding program
with_command-Throttled = record {
  inv =
      Reach-Inv
        (next Reach-laid_out
          (created 18446744073709551615 7 any_worker (omega arith) (inr (refl, refl))))
        (init-Inv two_workers two_workers-IsPlaces);
  share = refl;
  small = omega arith;
  full = λ some_wait. absurd (omega arith);
}

commit_process_command-Throttled_example :
    (t' : ProcessTask) × (s' : Scheduler) × (commit_process_command first 3 laid_out.0 with_command
      ≡ some (t', s'))
    × Throttled 1 1 (2 ∷ 1 ∷ 0 ∷ []) [] t' s'
    × (t'.task_queue ≡ [])
    × (commit_task first 3 with_command ≡ some s')
unfolding program
commit_process_command-Throttled_example =
    commit_process_command-Throttled first 3 1 0 (2 ∷ 1 ∷ 0 ∷ []) [] laid_out.0 with_command
      (λ k. omega arith) with_command-Throttled

-- The two commands of above, of which the second waits; the first completes.
abbrev both : ProcessTask × Scheduler
both = or_empty (after_global_initialize number first 2 laid_out.0 laid_out.1)

both-IsOpen : IsOpen 0 1 1 (2 ∷ 1 ∷ 0 ∷ []) [] both.0 both.1
unfolding program
both-IsOpen =
    let (t, s, e, h, _, _, _) =
      after_global_initialize-IsOpen number first 2 1 0 (2 ∷ 1 ∷ 0 ∷ []) [] entry_vertex laid_out.0
        laid_out.1 (λ k. omega arith) laid_out-IsOpen refl in
    subst
      (λ (o : Option (ProcessTask × Scheduler)).
        IsOpen 0 1 1 (2 ∷ 1 ∷ 0 ∷ []) [] (or_empty o).0 (or_empty o).1)
      (sym e) h

notify_completion-Throttled_example :
    (t' : ProcessTask) × (s' : Scheduler) × (notify_completion first both.0 both.1 ≡ some (t', s'))
    × Throttled 1 1 (2 ∷ 1 ∷ 0 ∷ []) [] t' s'
    × (t'.task_queue ≡ [])
unfolding program
notify_completion-Throttled_example =
    notify_completion-Throttled first 1 0 (2 ∷ 1 ∷ 0 ∷ []) [] both.0 both.1 (λ k. omega arith)
      both-IsOpen.throttled

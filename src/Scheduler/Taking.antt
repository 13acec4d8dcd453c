-- ===== src/Scheduler/Taking.antt =====
-- How a worker takes a task in src/scheduler/scheduler.cpp. Each pop is a critical section of its
-- own; the functions below put them in the order of the code. `none` is an access out of range.
use m3bp.Prelude.{
  ℕ, zero, suc, ◌+◌, ◌%◌, Option, none, some, List, [], ◌∷◌, ◌||◌, length, if◌then◌else◌, ◌>>=◌,
}
use m3bp.Scheduler.TaskList.{pop_front, pop_back}
use m3bp.Scheduler.Locality.{Locality}
use m3bp.Scheduler.Synchronizer.{set_is_sleeping, reset_is_sleeping}
use m3bp.Scheduler.State.{PhysicalTask, Scheduler}
use m3bp.Scheduler.Operations.{is_finished, is_cancelled}

-- One pop of the queue with index `i`.
unfoldable pub pop_queue {ℓ} :
    {A : Type ℓ}
    → (List A → Option A × List A)
    → ℕ
    → List (List A)
    → Option (Option A × List (List A))
pop_queue pop i [] = none
pop_queue pop zero (q ∷ qs) = let (task, q') = pop q in some (task, q' ∷ qs)
pop_queue pop (suc i) (q ∷ qs) = do r ← pop_queue pop i qs; some (r.0, q ∷ r.1)

unfoldable pub take_unstealable_task :
    Locality → Scheduler → Option (Option PhysicalTask × Scheduler)
take_unstealable_task locality s = do
  r ← pop_queue pop_front locality.self_thread_id s.unstealable_queues
  some (r.0, record s { unstealable_queues = r.1 })

unfoldable pub take_local_stealable_task :
    Locality → Scheduler → Option (Option PhysicalTask × Scheduler)
take_local_stealable_task locality s = do
  r ← pop_queue pop_back locality.self_node_id s.stealable_queues
  some (r.0, record s { stealable_queues = r.1 })

-- The loop over the nodes, with `left` of its rounds to go.
unfoldable pub steal_loop :
    (left i nid node_count : ℕ) → Scheduler → Option (Option PhysicalTask × Scheduler)
steal_loop zero i nid node_count s = some (none, s)
steal_loop (suc left) i nid node_count s = do
  r ← pop_queue pop_front ((nid + i) % node_count) s.stealable_queues
  elim r.0 [
    | some task ↦ some (some task, record s { stealable_queues = r.1 })
    | none ↦ steal_loop left (i + 1) nid node_count (record s { stealable_queues = r.1 })
  ]

unfoldable pub steal_task : Locality → Scheduler → Option (Option PhysicalTask × Scheduler)
steal_task locality s =
    let node_count = length s.stealable_queues in
    steal_loop node_count 0 locality.self_node_id node_count s

-- How a call of `take_runnable_task` goes on: it returns, or it blocks in `wait`.
pub data Outcome : Type 0 where
  returns : Option PhysicalTask → Outcome
  waits : Outcome

-- The second attempt tries, and on a miss goes on with the next.
abbrev pub or_else :
    Option (Option PhysicalTask × Scheduler)
    → (Scheduler → Option (Outcome × Scheduler))
    → (Option PhysicalTask → Scheduler → Scheduler)
    → Option (Outcome × Scheduler)
or_else attempt next leave = do
  r ← attempt
  elim r.0 [ some task ↦ some (returns (some task), leave (some task) r.1) | none ↦ next r.1 ]

-- `sync.reset_is_sleeping()` on the way out of the loop.
abbrev pub awake : Locality → Scheduler → Scheduler
awake locality s = record s {
  synchronizers = reset_is_sleeping locality.self_thread_id s.synchronizers;
}

-- One round of the `while(true)` loop, from `set_is_sleeping` to `wait`.
unfoldable pub sleep_round : Locality → Scheduler → Option (Outcome × Scheduler)
sleep_round locality s =
    let asleep : Scheduler = record s {
      synchronizers = set_is_sleeping locality.self_thread_id s.synchronizers;
    } in
    if is_finished asleep || is_cancelled asleep
    then some (returns none, awake locality asleep)
    else or_else (take_unstealable_task locality asleep)
        (λ t. or_else (steal_task locality t) (λ u. some (waits, u)) (λ _ u. awake locality u))
        (λ _ t. awake locality t)

unfoldable pub take_runnable_task : Locality → Scheduler → Option (Outcome × Scheduler)
take_runnable_task locality s =
    or_else (take_unstealable_task locality s)
      (λ t.
        or_else (take_local_stealable_task locality t)
          (λ u. or_else (steal_task locality u) (sleep_round locality) (λ _ v. v)) (λ _ u. u))
      (λ _ t. t)

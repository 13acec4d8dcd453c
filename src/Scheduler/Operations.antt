-- ===== src/Scheduler/Operations.antt =====
-- The operations of src/scheduler/scheduler.cpp on the dependency graph. Each is one or more
-- critical sections; `none` is a failed `assert` or an access out of range. `draw` gives, for a
-- task that is queued, what `uniform_random_integer` returned.
use m3bp.Prelude.{
  ℕ, Bool, true, false, Option, none, some, List, [], ◌∷◌, ◌++◌, ◌==◌, if◌then◌else◌, replicate,
  wrap_suc, wrap_pred, ◌>>=◌, zero, suc,
}
use m3bp.Prelude.Table.{find, put, erase, emplace}
use m3bp.Scheduler.TaskList.{push_back}
use m3bp.Scheduler.Locality.{LocalityOption, has_recommendation}
use m3bp.Scheduler.Synchronizer.{notify, notify_all, wake_one}
use m3bp.Scheduler.State.{PhysicalTask, PhysicalVertex, Places, Scheduler}

unfoldable pub init : Places → Scheduler
init places = record {
  places = places;
  synchronizers = replicate places.max_concurrency false;
  stealable_queues = replicate places.node_count [];
  unstealable_queues = replicate places.max_concurrency [];
  vertices = [];
  created_task_count = 0;
  unfinished_task_count = 0;
  exception = none;
}

-- `queues[i].push_back(task)`.
unfoldable pub push_queue {ℓ} : {A : Type ℓ} → ℕ → A → List (List A) → Option (List (List A))
push_queue i task [] = none
push_queue zero task (q ∷ qs) = some (push_back task q ∷ qs)
push_queue (suc i) task (q ∷ qs) = do qs' ← push_queue i task qs; some (q ∷ qs')

unfoldable pub enqueue_unstealable : ℕ → PhysicalTask → Scheduler → Option Scheduler
enqueue_unstealable w task s = do
  queues ← push_queue w task s.unstealable_queues
  some (record s { unstealable_queues = queues; synchronizers = (notify w s.synchronizers).1 })

unfoldable pub enqueue_stealable : ℕ → PhysicalTask → Scheduler → Option Scheduler
enqueue_stealable w task s = do
  node ← s.places.thread_mapping w
  queues ← push_queue node task s.stealable_queues
  some (record s {
    stealable_queues = queues;
    synchronizers = wake_one s.places.max_concurrency 0 w s.places.max_concurrency s.synchronizers;
  })

-- The worker at which a task is queued.
unfoldable pub target_worker : ℕ → LocalityOption → ℕ
target_worker draw option =
    if option.is_stealable
    then if has_recommendation option then option.recommended_worker else draw
    else option.recommended_worker

unfoldable pub enqueue : ℕ → LocalityOption → PhysicalTask → Scheduler → Option Scheduler
unfolding target_worker
enqueue draw option task s =
    if option.is_stealable
    then enqueue_stealable (target_worker draw option) task s
    else enqueue_unstealable (target_worker draw option) task s

-- `--(it->second->predecessor_count)`, and when that leaves zero the task is moved to its queue.
unfoldable pub decrement_predecessor_count : (ℕ → ℕ) → ℕ → Scheduler → Option Scheduler
decrement_predecessor_count draw id s = do
  v ← find id s.vertices
  let remains = wrap_pred v.predecessor_count
  if remains == 0
      then (do
        task ← v.physical_task
        let moved = record v { predecessor_count = remains; physical_task = none }
        enqueue (draw id) v.locality_option task (record s { vertices = put id moved s.vertices }))
      else some
          (record s { vertices = put id (record v { predecessor_count = remains }) s.vertices })

unfoldable pub create_physical_task : ℕ → ℕ → LocalityOption → Scheduler → Scheduler × ℕ
create_physical_task logical_task_id command option s =
    let id = s.created_task_count in
    let task : PhysicalTask = record {
      logical_task_id = logical_task_id;
      physical_task_id = id;
      command = command;
    } in
    let vertex : PhysicalVertex = record {
      predecessor_count = 1;
      successors = [];
      locality_option = option;
      physical_task = some task;
    } in
    (record s { vertices = emplace id vertex s.vertices; created_task_count = wrap_suc id }, id)

-- A predecessor that is gone has completed: then there is nothing to wait for. The successor is
-- looked up again after the predecessor is written, since both may be one vertex.
unfoldable pub add_dependency : ℕ → ℕ → Scheduler → Option Scheduler
add_dependency predecessor successor s = elim (find predecessor s.vertices) [
  | none ↦ some s
  | some p ↦ do
    let linked =
        put predecessor (record p { successors = p.successors ++ successor ∷ [] }) s.vertices
    v ← find successor linked
    some (record s {
      vertices =
          put successor (record v { predecessor_count = wrap_suc v.predecessor_count }) linked;
    })
]

unfoldable pub commit_task : (ℕ → ℕ) → ℕ → Scheduler → Option Scheduler
commit_task draw id s =
    decrement_predecessor_count draw id
      (record s { unfinished_task_count = wrap_suc s.unfinished_task_count })

-- The loop over the successors of a completed task.
unfoldable pub decrement_all : (ℕ → ℕ) → List ℕ → Scheduler → Option Scheduler
decrement_all draw [] s = some s
decrement_all draw (id ∷ ids) s = do
  s' ← decrement_predecessor_count draw id s
  decrement_all draw ids s'

-- The three parts of `notify_task_completion`: the vertex goes, its successors are released one
-- by one, and the last task to finish wakes everybody.
unfoldable pub remove_completed : ℕ → Scheduler → Option (List ℕ × Scheduler)
remove_completed id s = do
  v ← find id s.vertices
  some (v.successors, record s { vertices = erase id s.vertices })

unfoldable pub finish_task : Scheduler → Scheduler
finish_task s =
    let remains = wrap_pred s.unfinished_task_count in
    record s {
      unfinished_task_count = remains;
      synchronizers = if remains == 0 then notify_all s.synchronizers else s.synchronizers;
    }

unfoldable pub notify_task_completion : (ℕ → ℕ) → ℕ → Scheduler → Option Scheduler
notify_task_completion draw id s = do
  removed ← remove_completed id s
  s' ← decrement_all draw removed.0 removed.1
  some (finish_task s')

-- src/scheduler/cancellation_manager.cpp: the first exception is kept, and everybody is woken.
unfoldable pub notify_exception : ℕ → Scheduler → Scheduler
notify_exception e s = record s {
  exception = elim s.exception [ none ↦ some e | some first ↦ some first ];
  synchronizers = notify_all s.synchronizers;
}

abbrev pub is_finished : Scheduler → Bool
is_finished s = s.unfinished_task_count == 0

abbrev pub is_cancelled : Scheduler → Bool
is_cancelled s = elim s.exception [ none ↦ false | some _ ↦ true ]

-- ===== src/Scheduler/Invariant.antt =====
-- What holds of the scheduler of src/scheduler/scheduler.cpp between critical sections.
use m3bp.Prelude.{
  ℕ, ◌+◌, ◌<◌, ◌≡◌, ◌⊎◌, refl, true, false, Option, none, some, List, [], ◌∷◌, ◌++◌, ◌==◌, count,
  if◌then◌else◌, length,
}
use m3bp.Prelude.Table.{find}
use m3bp.Scheduler.Locality.{LocalityOption, has_recommendation}
use m3bp.Scheduler.State.{PhysicalTask, PhysicalVertex, Places, Scheduler}
use m3bp.Scheduler.Graph.Counted.{Table, IsCounted}

abbrev pub task_ids : List PhysicalTask → List ℕ
task_ids [] = []
task_ids (t ∷ ts) = t.physical_task_id ∷ task_ids ts

unfoldable pub queue_ids : List (List PhysicalTask) → List ℕ
queue_ids [] = []
queue_ids (q ∷ qs) = task_ids q ++ queue_ids qs

pub queue_ids-nil : queue_ids [] ≡ []
unfolding queue_ids
queue_ids-nil = refl

pub queue_ids-cons :
    (q : List PhysicalTask) (qs : List (List PhysicalTask))
    → queue_ids (q ∷ qs) ≡ task_ids q ++ queue_ids qs
unfolding queue_ids
queue_ids-cons q qs = refl

-- The tasks in the queues, by their identifiers.
abbrev pub queued : Scheduler → List ℕ
queued s = queue_ids s.stealable_queues ++ queue_ids s.unstealable_queues

-- 1 if the vertex is there and its task was released, else 0.
unfoldable pub released : ℕ → Table → ℕ
released id m = elim (find id m) [ none ↦ 0 | some v ↦ if v.predecessor_count == 0 then 1 else 0 ]

pub released-none : (id : ℕ) (m : Table) → find id m ≡ none → released id m ≡ 0
unfolding released
released-none id m e = rw (e, released)

pub released-some :
    (id : ℕ) (v : PhysicalVertex) (m : Table)
    → find id m ≡ some v
    → released id m ≡ (if v.predecessor_count == 0 then 1 else 0)
unfolding released
released-some id v m e = rw (e, released)

-- There are workers, and each stands on a node.
pub record IsPlaces (p : Places) : Type 0 where
  pub mapped :
      (w : ℕ) → w < p.max_concurrency → (n : ℕ) × (p.thread_mapping w ≡ some n) × (n < p.node_count)

-- A recommended worker exists; only a stealable task may go without.
abbrev pub IsPlaceable : Places → LocalityOption → Type 0
IsPlaceable p option =
    (option.recommended_worker < p.max_concurrency)
    ⊎ ((option.is_stealable ≡ true) × (has_recommendation option ≡ false))

pub record IsShaped (s : Scheduler) : Type 0 where
  pub workers : length s.unstealable_queues ≡ s.places.max_concurrency
  pub nodes : length s.stealable_queues ≡ s.places.node_count
  pub flags : length s.synchronizers ≡ s.places.max_concurrency

-- The dependency graph and the counters have no part in it.
pub IsShaped-books :
    (s : Scheduler) (m : Table) (created unfinished : ℕ) (exception : Option ℕ)
    → IsShaped s
    → IsShaped (record s {
      vertices = m;
      created_task_count = created;
      unfinished_task_count = unfinished;
      exception = exception;
    })
IsShaped-books s m created unfinished exception h = record {
  workers = h.workers;
  nodes = h.nodes;
  flags = h.flags;
}

-- `owed` are the decrements that are still to be made, `running` the tasks that workers hold.
pub record Inv (owed running : List ℕ) (s : Scheduler) : Type 0 where
  pub counters : IsCounted owed s.vertices
  pub fresh :
      (id : ℕ) (v : PhysicalVertex) → find id s.vertices ≡ some v → id < s.created_task_count
  pub placeable :
      (id : ℕ) (v : PhysicalVertex)
      → find id s.vertices ≡ some v
      → IsPlaceable s.places v.locality_option
  pub places : IsPlaces s.places
  pub shaped : IsShaped s
  pub once : (id : ℕ) → count id (queued s) + count id running ≡ released id s.vertices

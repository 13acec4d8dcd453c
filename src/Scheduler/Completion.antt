-- ===== src/Scheduler/Completion.antt =====
-- `notify_task_completion` of src/scheduler/scheduler.cpp keeps the scheduler's invariant.
use m3bp.Prelude.{
  ℕ, ◌+◌, ◌≡◌, ◌∙◌, subst, refl, Option, none, some, List, ◌∷◌, ◌++◌, arith, ◌==◌, if◌then◌else◌,
  count-cons, ap, wrap_pred, inl, inr, Option-cases,
}
use m3bp.Prelude.Table.{find, find-erase, erase}
use m3bp.Scheduler.Synchronizer.{length-notify_all}
use m3bp.Scheduler.State.{PhysicalVertex, Scheduler}
use m3bp.Scheduler.Graph.Changes.{erase-IsCounted}
use m3bp.Scheduler.Operations.{
  remove_completed, finish_task, notify_task_completion, notify_exception,
}
use m3bp.Scheduler.Invariant.{released, released-none, released-some, IsShaped-books, Inv}
use m3bp.Scheduler.Decrement.{Draws}
use m3bp.Scheduler.Preservation.{decrement_all-Inv}

-- The vertex of a task that a worker holds is there, with nothing left to wait for.
pub running-released :
    (id : ℕ) (owed running : List ℕ) (s : Scheduler)
    → Inv owed (id ∷ running) s
    → (v : PhysicalVertex) × (find id s.vertices ≡ some v) × (v.predecessor_count ≡ 0)
running-released id owed running s inv = elim (Option-cases (find id s.vertices)) [
  | inl gone ↦
      absurd
        (ground (arith, inv.once id, count-cons id id running, released-none id s.vertices gone))
  | inr (v, e) ↦
      (v, e, ground (arith, inv.once id, count-cons id id running, released-some id v s.vertices e))
]

module _ (id : ℕ) (owed running : List ℕ) (s : Scheduler) (inv : Inv owed (id ∷ running) s)
    (v : PhysicalVertex) (e : find id s.vertices ≡ some v) (done : v.predecessor_count ≡ 0) where
  left_found :
      (a : ℕ) → find a (erase id s.vertices) ≡ (if id == a then none else find a s.vertices)
  left_found a = find-erase id a s.vertices inv.counters.distinct

  left_released :
      (a : ℕ)
      → released a (erase id s.vertices) + (if a == id then 1 else 0) ≡ released a s.vertices
  unfolding released
  left_released a = ground (arith, left_found a)

  -- The vertex is gone, and a decrement is owed to each of its successors.
  pub removed-Inv : Inv (v.successors ++ owed) running (record s { vertices = erase id s.vertices })
  removed-Inv = record {
    counters = erase-IsCounted id owed v s.vertices inv.counters e done;
    fresh = λ a u f. ground (arith, left_found a, inv.fresh a u);
    placeable = λ a u f. inv.placeable a u (ground (arith, left_found a));
    places = inv.places;
    shaped = IsShaped-books s _ _ _ _ inv.shaped;
    once = λ a. omega (arith, inv.once a, count-cons a id running, left_released a);
  }

pub finish_task-Inv :
    (owed running : List ℕ) (s : Scheduler) → Inv owed running s → Inv owed running (finish_task s)
unfolding finish_task
finish_task-Inv owed running s inv = record {
  counters = inv.counters;
  fresh = inv.fresh;
  placeable = inv.placeable;
  places = inv.places;
  shaped = record {
    workers = inv.shaped.workers;
    nodes = inv.shaped.nodes;
    flags = ground (arith, inv.shaped.flags, length-notify_all s.synchronizers);
  };
  once = inv.once;
}

-- A worker that has run a task can report it: the vertex is there, no assert fails, the decrements
-- of its successors are made, and one task less is unfinished.
pub notify_task_completion-Inv :
    (draw : ℕ → ℕ) (id : ℕ) (owed running : List ℕ) (s : Scheduler)
    → Draws draw s
    → Inv owed (id ∷ running) s
    → (s' : Scheduler) × (notify_task_completion draw id s ≡ some s')
      × Inv owed running s'
      × (s'.unfinished_task_count ≡ wrap_pred s.unfinished_task_count)
unfolding notify_task_completion remove_completed finish_task
notify_task_completion-Inv draw id owed running s draws inv =
    let (v, e, done) = running-released id owed running s inv in
    let (t, f, i, b) =
      decrement_all-Inv draw v.successors owed running (record s { vertices = erase id s.vertices })
        draws (removed-Inv id owed running s inv v e done) in
    (
      finish_task t,
      rw (e, f) refl,
      finish_task-Inv owed running t i,
      ap wrap_pred b.unfinished_same,
    )

-- The critical section in which the vertex goes.
pub remove_completed-Inv :
    (id : ℕ) (owed running ids : List ℕ) (s s' : Scheduler)
    → Inv owed (id ∷ running) s
    → remove_completed id s ≡ some (ids, s')
    → Inv (ids ++ owed) running s'
unfolding remove_completed
remove_completed-Inv id owed running ids s s' inv e =
    let (v, f, done) = running-released id owed running s inv in
    let g : ◌≡◌ {A = Option (List ℕ × Scheduler)}
        (some (v.successors, record s { vertices = erase id s.vertices })) (some (ids, s')) =
      rw f at e in
    let same_ids : v.successors ≡ ids = cc in
    let same_s : record s { vertices = erase id s.vertices } ≡ s' = cc in
    subst (λ l. Inv (l ++ owed) running s') same_ids
      (subst (Inv (v.successors ++ owed) running) same_s
        (removed-Inv id owed running s inv v f done))

-- An exception wakes everybody and leaves the graph alone.
pub notify_exception-Inv :
    (e : ℕ) (owed running : List ℕ) (s : Scheduler)
    → Inv owed running s
    → Inv owed running (notify_exception e s)
unfolding notify_exception
notify_exception-Inv e owed running s inv = record {
  counters = inv.counters;
  fresh = inv.fresh;
  placeable = inv.placeable;
  places = inv.places;
  shaped = record {
    workers = inv.shaped.workers;
    nodes = inv.shaped.nodes;
    flags = length-notify_all s.synchronizers ∙ inv.shaped.flags;
  };
  once = inv.once;
}

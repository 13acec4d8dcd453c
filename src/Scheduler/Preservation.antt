-- ===== src/Scheduler/Preservation.antt =====
-- The public operations of src/scheduler/scheduler.cpp on the dependency graph keep the
-- scheduler's invariant, and none of their asserts fails.
use m3bp.Prelude.{
  ℕ, zero, suc, ◌+◌, ◌<◌, ◌≡◌, sym, subst, refl, false, none, some, List, [], ◌∷◌, ◌++◌, arith,
  ◌==◌, count, if◌then◌else◌, word, length-replicate, replicate, count-append, count-nil, ap,
  wrap_suc, inl, inr, Bool-cases, Option-cases,
}
use m3bp.Prelude.Table.{find, find-nil, find-cons, emplace-none}
use m3bp.Scheduler.Locality.{LocalityOption}
use m3bp.Scheduler.State.{PhysicalVertex, Places, Scheduler}
use m3bp.Scheduler.Graph.Degree.{indegree-nil}
use m3bp.Scheduler.Graph.Counted.{Table, IsCounted, IsCounted-respects}
use m3bp.Scheduler.Graph.Changes.{create-IsCounted}
use m3bp.Scheduler.Operations.{init, create_physical_task, decrement_all, commit_task}
use m3bp.Scheduler.Invariant.{
  queue_ids, queue_ids-nil, queue_ids-cons, released, released-none, IsPlaces, IsPlaceable,
  IsShaped-books, Inv,
}
use m3bp.Scheduler.Decrement.{
  SameBooks, SameBooks-refl, SameBooks-trans, Draws, decrement_predecessor_count-Inv,
}

count-queue_ids_empty : (a n : ℕ) → count a (queue_ids (replicate n [])) ≡ 0
count-queue_ids_empty a zero = rw queue_ids-nil (count-nil a)
count-queue_ids_empty a (suc n) = rw queue_ids-cons (count-queue_ids_empty a n)

pub init-Inv : (places : Places) → IsPlaces places → Inv [] [] (init places)
unfolding init
init-Inv places h = record {
  counters = record {
    distinct = tt;
    live = λ id p. absurd (omega (arith, count-nil id, indegree-nil id));
    counted = λ id v e. ground (arith, find-nil PhysicalVertex id);
    small = λ id v e. ground (arith, find-nil PhysicalVertex id);
    held = λ id v e. absurd (ground (arith, find-nil PhysicalVertex id));
  };
  fresh = λ id v e. ground (arith, find-nil PhysicalVertex id);
  placeable = λ id v e. absurd (ground (arith, find-nil PhysicalVertex id));
  places = h;
  shaped = record {
    workers = length-replicate places.max_concurrency [];
    nodes = length-replicate places.node_count [];
    flags = length-replicate places.max_concurrency false;
  };
  once = λ id. omega (
    arith,
    count-append id (queue_ids (replicate places.node_count []))
        (queue_ids (replicate places.max_concurrency [])),
    count-queue_ids_empty id places.node_count,
    count-queue_ids_empty id places.max_concurrency,
    count-nil id,
    released-none id [] (find-nil PhysicalVertex id),
  );
}

-- A new task has its own identifier, and one decrement is owed to it: that of its commit.
module _ (owed running : List ℕ) (s : Scheduler) (inv : Inv owed running s)
    (logical_task_id command : ℕ) (option : LocalityOption)
    (room : s.created_task_count + 1 < word) where
  fresh_id : find s.created_task_count s.vertices ≡ none
  fresh_id = elim (Option-cases (find s.created_task_count s.vertices)) [
    | inl e ↦ e
    | inr (v, e) ↦ absurd (omega (arith, inv.fresh s.created_task_count v e))
  ]

  abbrev new_vertex : PhysicalVertex
  new_vertex = record {
    predecessor_count = 1;
    successors = [];
    locality_option = option;
    physical_task = some (record {
      logical_task_id = logical_task_id;
      physical_task_id = s.created_task_count;
      command = command;
    });
  }

  module _ (m : Table) (table : m ≡ (s.created_task_count, new_vertex) ∷ s.vertices) where
    new_found :
        (a : ℕ)
        → find a m ≡ (if s.created_task_count == a then some new_vertex else find a s.vertices)
    new_found a = rw table (find-cons a s.created_task_count new_vertex s.vertices)

    new_released : (a : ℕ) → released a m ≡ released a s.vertices
    unfolding released
    new_released a = ground (arith, new_found a, fresh_id)

    created-Inv :
        IsPlaceable s.places option
        → Inv
            (s.created_task_count ∷ owed)
            running
            (record s { vertices = m; created_task_count = wrap_suc s.created_task_count })
    created-Inv placeable = record {
      counters = subst (IsCounted (s.created_task_count ∷ owed)) (sym table) (
          create-IsCounted s.created_task_count owed new_vertex s.vertices inv.counters fresh_id
            refl refl (_, refl, refl));
      fresh = λ a u f. ground (arith, new_found a, inv.fresh a u);
      placeable = λ a u f. elim (Bool-cases (s.created_task_count == a)) [
        | inl hit ↦
            let e : new_vertex ≡ u = ground (arith, new_found a) in
            subst (λ x. IsPlaceable s.places x.locality_option) e placeable
        | inr miss ↦ inv.placeable a u (ground (arith, new_found a))
      ];
      places = inv.places;
      shaped = IsShaped-books s _ _ _ _ inv.shaped;
      once = λ a. omega (arith, inv.once a, new_released a);
    }

  pub create_physical_task-Inv :
      IsPlaceable s.places option
      → let (s', id) = create_physical_task logical_task_id command option s in
        Inv (id ∷ owed) running s' × (find id s.vertices ≡ none)
  unfolding create_physical_task
  create_physical_task-Inv placeable =
      (created-Inv _ (emplace-none _ _ s.vertices fresh_id) placeable, fresh_id)

-- The decrements that a completed task owes are made.
pub decrement_all-Inv :
    (draw : ℕ → ℕ) (ids owed running : List ℕ) (s : Scheduler)
    → Draws draw s
    → Inv (ids ++ owed) running s
    → (s' : Scheduler) × (decrement_all draw ids s ≡ some s') × Inv owed running s' × SameBooks s s'
unfolding decrement_all
decrement_all-Inv draw [] owed running s draws inv = (s, refl, inv, SameBooks-refl s)
decrement_all-Inv draw (id ∷ ids) owed running s draws inv =
    let (t, e, i, b) = decrement_predecessor_count-Inv draw id (ids ++ owed) running s draws inv in
    let (u, f, j, c) =
      decrement_all-Inv draw ids owed running t
        (λ k. omega (arith, draws k, ap (λ (p : Places). p.max_concurrency) b.places_same)) i in
    (u, rw e f, j, SameBooks-trans s t u b c)

pub Inv-respects :
    (xs ys running : List ℕ) (s : Scheduler)
    → ((a : ℕ) → count a xs ≡ count a ys)
    → Inv xs running s
    → Inv ys running s
Inv-respects xs ys running s same inv = record {
  counters = IsCounted-respects xs ys s.vertices same inv.counters;
  fresh = inv.fresh;
  placeable = inv.placeable;
  places = inv.places;
  shaped = inv.shaped;
  once = inv.once;
}

-- The decrement of `commit_task` was owed since the task was created.
pub commit_task-Inv :
    (draw : ℕ → ℕ) (id : ℕ) (owed running : List ℕ) (s : Scheduler)
    → Draws draw s
    → Inv (id ∷ owed) running s
    → (s' : Scheduler) × (commit_task draw id s ≡ some s')
      × Inv owed running s'
      × (s'.unfinished_task_count ≡ wrap_suc s.unfinished_task_count)
unfolding commit_task
commit_task-Inv draw id owed running s draws inv =
    let (t, e, i, b) =
      decrement_predecessor_count-Inv draw id owed running
        (record s { unfinished_task_count = wrap_suc s.unfinished_task_count }) draws
        (record {
          counters = inv.counters;
          fresh = inv.fresh;
          placeable = inv.placeable;
          places = inv.places;
          shaped = IsShaped-books s _ _ _ _ inv.shaped;
          once = inv.once;
        }) in
    (t, e, i, b.unfinished_same)

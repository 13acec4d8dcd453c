-- ===== src/Scheduler/Enqueue.antt =====
-- The queueing half of `decrement_predecessor_count` in src/scheduler/scheduler.cpp: pushing a task
-- and waking a worker.
use m3bp.Prelude.{
  ℕ, zero, suc, ◌+◌, ◌<◌, ◌≡◌, refl, Bool, true, false, some, List, [], ◌∷◌, ◌++◌, arith, ◌==◌,
  count, if◌then◌else◌, length, length-set, count-cons, count-append, count-nil, ap, ◌%◌, inl, inr,
}
use m3bp.Scheduler.Locality.{LocalityOption}
use m3bp.Scheduler.Synchronizer.{notify, wake_one}
use m3bp.Scheduler.State.{PhysicalTask, Places, Scheduler}
use m3bp.Scheduler.Operations.{
  push_queue, enqueue_unstealable, enqueue_stealable, enqueue, target_worker,
}
use m3bp.Scheduler.Invariant.{
  queued, queue_ids, task_ids, IsPlaces, IsPlaceable, IsShaped, queue_ids-cons,
}

target_worker-lt :
    (p : Places) (draw : ℕ) (option : LocalityOption)
    → draw < p.max_concurrency
    → IsPlaceable p option
    → target_worker draw option < p.max_concurrency
unfolding target_worker
target_worker-lt p draw option d (inl h) = ground arith
target_worker-lt p draw option d (inr h) = ground arith

count-snoc :
    (a : ℕ) (q : List PhysicalTask) (t : PhysicalTask)
    → count a (task_ids (q ++ t ∷ []))
      ≡ count a (task_ids q) + (if a == t.physical_task_id then 1 else 0)
count-snoc a [] t = ground (arith, count-cons a t.physical_task_id [], count-nil a)
count-snoc a (x ∷ q) t = omega (
  arith,
  count-cons a x.physical_task_id (task_ids (q ++ t ∷ [])),
  count-cons a x.physical_task_id (task_ids q),
  count-snoc a q t,
)

-- A queue in range takes the task at its end, and the others stay.
push_queue_lem :
    (i : ℕ) (t : PhysicalTask) (qs : List (List PhysicalTask))
    → i < length qs
    → (rs : List (List PhysicalTask)) × (push_queue i t qs ≡ some rs)
      × (length rs ≡ length qs)
      × ((a : ℕ)
          → count a (queue_ids rs)
            ≡ count a (queue_ids qs) + (if a == t.physical_task_id then 1 else 0))
unfolding push_queue
push_queue_lem i t [] h = elim h [ ]
push_queue_lem zero t (q ∷ qs) h = (
  (q ++ t ∷ []) ∷ qs,
  refl,
  refl,
  λ a.
      rw (queue_ids-cons, queue_ids-cons)
        (omega (
          arith,
          count-append a (task_ids (q ++ t ∷ [])) (queue_ids qs),
          count-append a (task_ids q) (queue_ids qs),
          count-snoc a q t,
        )),
)
push_queue_lem (suc i) t (q ∷ qs) h =
    let (rs, e, l, n) = push_queue_lem i t qs (omega arith) in
    (
      q ∷ rs,
      rw e,
      ap suc l,
      λ a.
          rw (queue_ids-cons, queue_ids-cons)
            (omega (
              arith,
              count-append a (task_ids q) (queue_ids rs),
              count-append a (task_ids q) (queue_ids qs),
              n a,
            )),
    )

length-wake_one :
    (left i w n : ℕ) (flags : List Bool) → length (wake_one left i w n flags) ≡ length flags
unfolding wake_one notify
length-wake_one zero i w n flags = refl
length-wake_one (suc left) i w n flags = ground (
  arith,
  length-wake_one left (i + 1) w n (notify ((w + i) % n) flags).1,
  length-set flags ((w + i) % n) false,
)

-- What `enqueue` does: it cannot fail, it touches queues and flags alone, and the task is in the
-- queues once more than before.
pub record Enqueued (t : PhysicalTask) (s s' : Scheduler) : Type 0 where
  pub places_same : s'.places ≡ s.places
  pub vertices_same : s'.vertices ≡ s.vertices
  pub created_same : s'.created_task_count ≡ s.created_task_count
  pub unfinished_same : s'.unfinished_task_count ≡ s.unfinished_task_count
  pub exception_same : s'.exception ≡ s.exception
  pub shaped : IsShaped s'
  pub counts :
      (a : ℕ)
      → count a (queued s') ≡ count a (queued s) + (if a == t.physical_task_id then 1 else 0)

module _ (s : Scheduler) (t : PhysicalTask) (places : IsPlaces s.places) (shaped : IsShaped s) where
  enqueue_unstealable_lem :
      (w : ℕ)
      → w < s.places.max_concurrency
      → (s' : Scheduler) × (enqueue_unstealable w t s ≡ some s') × Enqueued t s s'
  unfolding enqueue_unstealable notify
  enqueue_unstealable_lem w h =
      let (rs, e, l, n) = push_queue_lem w t s.unstealable_queues (omega (arith, shaped.workers)) in
      (
        record s { unstealable_queues = rs; synchronizers = (notify w s.synchronizers).1 },
        rw e,
        record {
          places_same = refl;
          vertices_same = refl;
          created_same = refl;
          unfinished_same = refl;
          exception_same = refl;
          shaped = record {
            workers = omega (arith, l, shaped.workers);
            nodes = shaped.nodes;
            flags = omega (arith, length-set s.synchronizers w false, shaped.flags);
          };
          counts = λ a. omega (
            arith,
            n a,
            count-append a (queue_ids s.stealable_queues) (queue_ids rs),
            count-append a (queue_ids s.stealable_queues) (queue_ids s.unstealable_queues),
          );
        },
      )

  enqueue_stealable_lem :
      (w : ℕ)
      → w < s.places.max_concurrency
      → (s' : Scheduler) × (enqueue_stealable w t s ≡ some s') × Enqueued t s s'
  unfolding enqueue_stealable
  enqueue_stealable_lem w h =
      let (node, at_node, in_range) = places.mapped w h in
      let (rs, e, l, n) = push_queue_lem node t s.stealable_queues (omega (arith, shaped.nodes)) in
      (
        record s {
          stealable_queues = rs;
          synchronizers =
              wake_one s.places.max_concurrency 0 w s.places.max_concurrency s.synchronizers;
        },
        rw (at_node, e),
        record {
          places_same = refl;
          vertices_same = refl;
          created_same = refl;
          unfinished_same = refl;
          exception_same = refl;
          shaped = record {
            workers = shaped.workers;
            nodes = omega (arith, l, shaped.nodes);
            flags = omega (
              arith,
              length-wake_one s.places.max_concurrency 0 w s.places.max_concurrency s.synchronizers,
              shaped.flags,
            );
          };
          counts = λ a. omega (
            arith,
            n a,
            count-append a (queue_ids rs) (queue_ids s.unstealable_queues),
            count-append a (queue_ids s.stealable_queues) (queue_ids s.unstealable_queues),
          );
        },
      )

  pub enqueue_lem :
      (draw : ℕ) (option : LocalityOption)
      → draw < s.places.max_concurrency
      → IsPlaceable s.places option
      → (s' : Scheduler) × (enqueue draw option t s ≡ some s') × Enqueued t s s'
  unfolding enqueue
  enqueue_lem draw option d h =
      let w = target_worker draw option in
      let in_range = target_worker-lt s.places draw option d h in
      elim option.is_stealable
        as (λ b.
          (s' : Scheduler) × ((if b then enqueue_stealable w t s else enqueue_unstealable w t s)
            ≡ some s')
          × Enqueued t s s') [
            | true ↦ enqueue_stealable_lem w in_range
            | false ↦ enqueue_unstealable_lem w in_range
          ]

-- ===== src/Scheduler/Conservation.antt =====
-- Taking a task from the queues of src/scheduler/scheduler.cpp loses none and makes none up.
use m3bp.Prelude.{
  ℕ, zero, suc, ◌+◌, ◌<◌, ◌≡◌, ◌∙◌, refl, Option, none, some, List, [], ◌∷◌, arith, ◌==◌, count,
  if◌then◌else◌, length, count-cons, count-append, count-nil, ap, get_elem?,
}
use m3bp.Scheduler.TaskList.{pop_front, pop_back}
use m3bp.Scheduler.Locality.{Locality}
use m3bp.Scheduler.State.{PhysicalTask, Scheduler}
use m3bp.Scheduler.Invariant.{task_ids, queue_ids, queue_ids-cons, queued, IsShaped}
use m3bp.Scheduler.Taking.{pop_queue, take_unstealable_task}

abbrev pub one_of : Option PhysicalTask → ℕ → ℕ
one_of none a = 0
one_of (some t) a = if a == t.physical_task_id then 1 else 0

-- A pop takes one task or finds the deque empty.
pub record Pops (pop : List PhysicalTask → Option PhysicalTask × List PhysicalTask) : Type 0 where
  pub takes :
      (q : List PhysicalTask) (a : ℕ)
      → count a (task_ids q) ≡ count a (task_ids (pop q).1) + one_of (pop q).0 a
  pub misses : (q : List PhysicalTask) → (pop q).0 ≡ none → (q ≡ []) × ((pop q).1 ≡ [])

pub pop_front-Pops : Pops pop_front
unfolding pop_front
pop_front-Pops = record { takes = takes; misses = misses }
  where
    takes :
        (q : List PhysicalTask) (a : ℕ)
        → count a (task_ids q) ≡ count a (task_ids (pop_front q).1) + one_of (pop_front q).0 a
    takes [] a = omega (arith, count-nil a)
    takes (t ∷ q) a = omega (arith, count-cons a t.physical_task_id (task_ids q))

    misses : (q : List PhysicalTask) → (pop_front q).0 ≡ none → (q ≡ []) × ((pop_front q).1 ≡ [])
    misses [] e = (refl, refl)
    misses (t ∷ q) e = cc

pop_back_takes :
    (q : List PhysicalTask) (a : ℕ)
    → count a (task_ids q) ≡ count a (task_ids (pop_back q).1) + one_of (pop_back q).0 a
unfolding pop_back
pop_back_takes [] a = omega (arith, count-nil a)
pop_back_takes (t ∷ []) a = omega (arith, count-cons a t.physical_task_id [])
pop_back_takes (t ∷ u ∷ q) a = omega (
  arith,
  count-cons a t.physical_task_id (task_ids (u ∷ q)),
  count-cons a t.physical_task_id (task_ids (pop_back (u ∷ q)).1),
  pop_back_takes (u ∷ q) a,
)

pop_back_misses : (q : List PhysicalTask) → (pop_back q).0 ≡ none → (q ≡ []) × ((pop_back q).1 ≡ [])
unfolding pop_back
pop_back_misses [] e = (refl, refl)
pop_back_misses (t ∷ []) e = cc
pop_back_misses (t ∷ u ∷ q) e = absurd (ground (arith, pop_back_misses (u ∷ q) e))

pub pop_back-Pops : Pops pop_back
pop_back-Pops = record { takes = pop_back_takes; misses = pop_back_misses }

-- A pop of a queue in range.
pub record Popped (i : ℕ) (r : Option PhysicalTask) (qs rs : List (List PhysicalTask))
    : Type 0 where
  pub length_same : length rs ≡ length qs
  pub counts : (a : ℕ) → count a (queue_ids qs) ≡ count a (queue_ids rs) + one_of r a
  pub missed : r ≡ none → (rs ≡ qs) × (get_elem? qs i ≡ some [])

module _ (pop : List PhysicalTask → Option PhysicalTask × List PhysicalTask) (pops : Pops pop) where
  pub pop_queue_lem :
      (i : ℕ) (qs : List (List PhysicalTask))
      → i < length qs
      → (r : Option PhysicalTask) × (rs : List (List PhysicalTask)) × (pop_queue pop i qs
          ≡ some (r, rs))
        × Popped i r qs rs
  unfolding pop_queue
  pop_queue_lem i [] h = elim h [ ]
  pop_queue_lem zero (q ∷ qs) h = (
    (pop q).0,
    (pop q).1 ∷ qs,
    refl,
    record {
      length_same = refl;
      counts = λ a.
          rw (queue_ids-cons, queue_ids-cons)
            (omega (
              arith,
              pops.takes q a,
              count-append a (task_ids q) (queue_ids qs),
              count-append a (task_ids (pop q).1) (queue_ids qs),
            ));
      missed = λ e. let (f, g) = pops.misses q e in (ground (arith, f, g), ground (arith, f));
    },
  )
  pop_queue_lem (suc i) (q ∷ qs) h =
      let (r, rs, e, p) = pop_queue_lem i qs (omega arith) in
      (
        r,
        q ∷ rs,
        rw e refl,
        record {
          length_same = ap suc p.length_same;
          counts = λ a.
              rw (queue_ids-cons, queue_ids-cons)
                (omega (
                  arith,
                  p.counts a,
                  count-append a (task_ids q) (queue_ids qs),
                  count-append a (task_ids q) (queue_ids rs),
                ));
          missed =
              λ f. let (g, k) = p.missed f in (ap (λ (l : List (List PhysicalTask)). q ∷ l) g, k);
        },
      )

-- What taking does to the scheduler: the tasks taken move from the queues to the worker.
pub record Took (r : Option PhysicalTask) (s s' : Scheduler) : Type 0 where
  pub places_same : s'.places ≡ s.places
  pub flags_same : s'.synchronizers ≡ s.synchronizers
  pub vertices_same : s'.vertices ≡ s.vertices
  pub created_same : s'.created_task_count ≡ s.created_task_count
  pub unfinished_same : s'.unfinished_task_count ≡ s.unfinished_task_count
  pub exception_same : s'.exception ≡ s.exception
  pub shaped : IsShaped s'
  pub counts : (a : ℕ) → count a (queued s) ≡ count a (queued s') + one_of r a
  pub missed : r ≡ none → s' ≡ s

pub take_unstealable_task_lem :
    (locality : Locality) (s : Scheduler)
    → IsShaped s
    → locality.self_thread_id < s.places.max_concurrency
    → (r : Option PhysicalTask) × (s' : Scheduler) × (take_unstealable_task locality s
        ≡ some (r, s'))
      × Took r s s'
      × (r ≡ none → get_elem? s.unstealable_queues locality.self_thread_id ≡ some [])
unfolding take_unstealable_task
take_unstealable_task_lem locality s shaped h =
    let (r, rs, e, p) =
      pop_queue_lem pop_front pop_front-Pops locality.self_thread_id s.unstealable_queues
        (omega (arith, shaped.workers)) in
    (
      r,
      record s { unstealable_queues = rs },
      rw e refl,
      record {
        places_same = refl;
        flags_same = refl;
        vertices_same = refl;
        created_same = refl;
        unfinished_same = refl;
        exception_same = refl;
        shaped = record {
          workers = p.length_same ∙ shaped.workers;
          nodes = shaped.nodes;
          flags = shaped.flags;
        };
        counts = λ a. omega (
          arith,
          p.counts a,
          count-append a (queue_ids s.stealable_queues) (queue_ids s.unstealable_queues),
          count-append a (queue_ids s.stealable_queues) (queue_ids rs),
        );
        missed = λ f.
            ap (λ (q : List (List PhysicalTask)). record s { unstealable_queues = q })
              (p.missed f).0;
      },
      λ f. (p.missed f).1,
    )

-- The same for a pop of a stealable queue, by either end.
pub stealable_pop_lem :
    (pop : List PhysicalTask → Option PhysicalTask × List PhysicalTask) (i : ℕ) (s : Scheduler)
    → Pops pop
    → IsShaped s
    → i < length s.stealable_queues
    → (r : Option PhysicalTask) × (rs : List (List PhysicalTask)) × (pop_queue pop i
          s.stealable_queues
        ≡ some (r, rs))
      × Took r s (record s { stealable_queues = rs })
      × (r ≡ none → get_elem? s.stealable_queues i ≡ some [])
stealable_pop_lem pop i s pops shaped h =
    let (r, rs, e, p) = pop_queue_lem pop pops i s.stealable_queues h in
    (
      r,
      rs,
      e,
      record {
        places_same = refl;
        flags_same = refl;
        vertices_same = refl;
        created_same = refl;
        unfinished_same = refl;
        exception_same = refl;
        shaped = record {
          workers = shaped.workers;
          nodes = p.length_same ∙ shaped.nodes;
          flags = shaped.flags;
        };
        counts = λ a. omega (
          arith,
          p.counts a,
          count-append a (queue_ids s.stealable_queues) (queue_ids s.unstealable_queues),
          count-append a (queue_ids rs) (queue_ids s.unstealable_queues),
        );
        missed = λ f.
            ap (λ (q : List (List PhysicalTask)). record s { stealable_queues = q }) (p.missed f).0;
      },
      λ f. (p.missed f).1,
    )

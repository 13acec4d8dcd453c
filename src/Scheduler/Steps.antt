-- ===== src/Scheduler/Steps.antt =====
-- The scheduler of src/scheduler/scheduler.cpp run by any number of threads: each step is one
-- critical section, and any thread may make the next. The preconditions are what the callers in
-- src/tasks keep to.
use m3bp.Prelude.{
  ℕ, ◌+◌, ◌<◌, ◌≡◌, sym, ◌∙◌, subst, Bool, Option, some, List, ◌∷◌, ◌++◌, arith, count, word,
  length, wrap_suc,
}
use m3bp.Prelude.Table.{find}
use m3bp.Scheduler.Locality.{LocalityOption, Locality}
use m3bp.Scheduler.State.{PhysicalTask, PhysicalVertex, Scheduler}
use m3bp.Scheduler.Operations.{
  create_physical_task, add_dependency, decrement_predecessor_count, remove_completed, finish_task,
  notify_exception,
}
use m3bp.Scheduler.TaskList.{pop_front}
use m3bp.Scheduler.Taking.{pop_queue, take_unstealable_task, take_local_stealable_task}
use m3bp.Scheduler.Invariant.{IsPlaceable, Inv}
use m3bp.Scheduler.Decrement.{Draws, decrement_predecessor_count-Inv}
use m3bp.Scheduler.Preservation.{create_physical_task-Inv, Inv-respects}
use m3bp.Scheduler.Dependency.{add_dependency-Inv}
use m3bp.Scheduler.Completion.{finish_task-Inv, remove_completed-Inv, notify_exception-Inv}
use m3bp.Scheduler.Conservation.{Took, take_unstealable_task_lem, stealable_pop_lem, pop_front-Pops}
use m3bp.Scheduler.Stealing.{take_local_stealable_task_lem}
use m3bp.Scheduler.Runnable.{IsLocality, Took-Inv, flags-Inv}

-- `owed` and `running` are what the threads have in hand: decrements to be made, and tasks.
pub record World : Type 0 where
  pub owed : List ℕ
  pub running : List ℕ
  pub scheduler : Scheduler

-- Two lists hold the same numbers, as often.
abbrev pub SameItems : List ℕ → List ℕ → Type 0
SameItems xs ys = (a : ℕ) → count a xs ≡ count a ys

pub data Step (w : World) : World → Type 0 where
  created :
      (logical_task_id command : ℕ) (option : LocalityOption)
      → w.scheduler.created_task_count + 1 < word
      → IsPlaceable w.scheduler.places option
      → Step w (record w {
        owed = (create_physical_task logical_task_id command option w.scheduler).1 ∷ w.owed;
        scheduler = (create_physical_task logical_task_id command option w.scheduler).0;
      })
  linked :
      (p k : ℕ) (v : PhysicalVertex) (s : Scheduler)
      → find k w.scheduler.vertices ≡ some v
      → 0 < v.predecessor_count
      → v.predecessor_count + 1 < word
      → add_dependency p k w.scheduler ≡ some s
      → Step w (record w { scheduler = s })
  committed : Step w (record w {
    scheduler = record w.scheduler {
      unfinished_task_count = wrap_suc w.scheduler.unfinished_task_count;
    };
  })
  decremented :
      (draw : ℕ → ℕ) (id : ℕ) (rest : List ℕ) (s : Scheduler)
      → Draws draw w.scheduler
      → SameItems w.owed (id ∷ rest)
      → decrement_predecessor_count draw id w.scheduler ≡ some s
      → Step w (record w { owed = rest; scheduler = s })
  taken_own :
      (locality : Locality) (t : PhysicalTask) (s : Scheduler)
      → IsLocality locality w.scheduler
      → take_unstealable_task locality w.scheduler ≡ some (some t, s)
      → Step w (record w { running = t.physical_task_id ∷ w.running; scheduler = s })
  taken_local :
      (locality : Locality) (t : PhysicalTask) (s : Scheduler)
      → IsLocality locality w.scheduler
      → take_local_stealable_task locality w.scheduler ≡ some (some t, s)
      → Step w (record w { running = t.physical_task_id ∷ w.running; scheduler = s })
  stolen :
      (i : ℕ) (t : PhysicalTask) (qs : List (List PhysicalTask))
      → i < length w.scheduler.stealable_queues
      → pop_queue pop_front i w.scheduler.stealable_queues ≡ some (some t, qs)
      → Step w (record w {
        running = t.physical_task_id ∷ w.running;
        scheduler = record w.scheduler { stealable_queues = qs };
      })
  removed :
      (id : ℕ) (ids rest : List ℕ) (s : Scheduler)
      → SameItems w.running (id ∷ rest)
      → remove_completed id w.scheduler ≡ some (ids, s)
      → Step w (record { owed = ids ++ w.owed; running = rest; scheduler = s })
  finished : Step w (record w { scheduler = finish_task w.scheduler })
  flagged :
      (flags : List Bool)
      → length flags ≡ length w.scheduler.synchronizers
      → Step w (record w { scheduler = record w.scheduler { synchronizers = flags } })
  cancelled : (e : ℕ) → Step w (record w { scheduler = notify_exception e w.scheduler })

pub data Reach (w : World) : World → Type 0 where
  here : Reach w w
  next : {u v : World} → Reach w u → Step u v → Reach w v

abbrev pub WorldInv : World → Type 0
WorldInv w = Inv w.owed w.running w.scheduler

rotated : (owed xs ys : List ℕ) (s : Scheduler) → SameItems xs ys → Inv owed xs s → Inv owed ys s
rotated owed xs ys s same inv = record {
  counters = inv.counters;
  fresh = inv.fresh;
  placeable = inv.placeable;
  places = inv.places;
  shaped = inv.shaped;
  once = λ a. omega (arith, inv.once a, same a);
}

some_unique {ℓ} : {A : Type ℓ} (o : Option A) (a b : A) → o ≡ some a → o ≡ some b → a ≡ b
some_unique o a b e f = cc

some_pair_unique {ℓ κ} :
    {A : Type ℓ} {B : Type κ} (o : Option (A × B)) (a c : A) (b d : B)
    → o ≡ some (a, b)
    → o ≡ some (c, d)
    → (a ≡ c) × (b ≡ d)
some_pair_unique o a c b d e f =
    let h : ◌≡◌ {A = Option _} (some (a, b)) (some (c, d)) = sym e ∙ f in (cc, cc)

-- A section that took a task moves it to the running ones.
taken_section-Inv :
    (owed running : List ℕ) (r : Option PhysicalTask) (t : PhysicalTask) (s u v : Scheduler)
    (o : Option (Option PhysicalTask × Scheduler))
    → o ≡ some (r, u)
    → o ≡ some (some t, v)
    → Took r s u
    → Inv owed running s
    → Inv owed (t.physical_task_id ∷ running) v
taken_section-Inv owed running r t s u v o e f took inv =
    let (g, h) = some_pair_unique o r (some t) u v e f in
    subst (Inv owed (t.physical_task_id ∷ running)) h
      (Took-Inv owed running t s u (subst (λ x. Took x s u) g took) inv)

-- Every critical section keeps the invariant.
pub Step-Inv : {w u : World} → Step w u → WorldInv w → WorldInv u
Step-Inv {w = w} (created l c option room placeable) inv =
    (create_physical_task-Inv w.owed w.running w.scheduler inv l c option room placeable).0
Step-Inv {w = w} (linked p k v s e waiting room done) inv =
    let (s', f, i, _) = add_dependency-Inv p k v w.owed w.running w.scheduler inv e waiting room in
    subst (Inv w.owed w.running) (some_unique _ s' s f done) i
Step-Inv {w = w} committed inv = record {
  counters = inv.counters;
  fresh = inv.fresh;
  placeable = inv.placeable;
  places = inv.places;
  shaped = record {
    workers = inv.shaped.workers;
    nodes = inv.shaped.nodes;
    flags = inv.shaped.flags;
  };
  once = inv.once;
}
Step-Inv {w = w} (decremented draw id rest s draws same done) inv =
    let (s', f, i, _) =
      decrement_predecessor_count-Inv draw id rest w.running w.scheduler draws
        (Inv-respects w.owed (id ∷ rest) w.running w.scheduler same inv) in
    subst (Inv rest w.running) (some_unique _ s' s f done) i
Step-Inv {w = w} (taken_own locality t s at done) inv =
    let (r, s', f, took, _) = take_unstealable_task_lem locality w.scheduler inv.shaped at.0 in
    taken_section-Inv w.owed w.running r t w.scheduler s' s _ f done took inv
Step-Inv {w = w} (taken_local locality t s at done) inv =
    let (r, s', f, took) = take_local_stealable_task_lem locality w.scheduler inv.shaped at.1 in
    taken_section-Inv w.owed w.running r t w.scheduler s' s _ f done took inv
Step-Inv {w = w} (stolen i t qs at done) inv =
    let (r, rs, f, took, _) =
      stealable_pop_lem pop_front i w.scheduler pop_front-Pops inv.shaped at in
    let (g, h) = some_pair_unique _ r (some t) rs qs f done in
    subst
      (λ q.
        Inv w.owed (t.physical_task_id ∷ w.running) (record w.scheduler { stealable_queues = q }))
      h
      (Took-Inv w.owed w.running t w.scheduler _
        (subst (λ x. Took x w.scheduler (record w.scheduler { stealable_queues = rs })) g took) inv)
Step-Inv {w = w} (removed id ids rest s same done) inv =
    remove_completed-Inv id w.owed rest ids w.scheduler s
      (rotated w.owed w.running (id ∷ rest) w.scheduler same inv) done
Step-Inv {w = w} finished inv = finish_task-Inv w.owed w.running w.scheduler inv
Step-Inv {w = w} (flagged flags e) inv = flags-Inv w.owed w.running flags w.scheduler e inv
Step-Inv {w = w} (cancelled e) inv = notify_exception-Inv e w.owed w.running w.scheduler inv

pub Reach-Inv : {w u : World} → Reach w u → WorldInv w → WorldInv u
Reach-Inv here inv = inv
Reach-Inv (next r step) inv = Step-Inv step (Reach-Inv r inv)

-- ===== src/Scheduler/Runnable.antt =====
-- `take_runnable_task` of src/scheduler/scheduler.cpp as one undisturbed run.
use m3bp.Prelude.{
  ℕ, ◌+◌, ◌<◌, ◌≡◌, ◌∙◌, sym, subst, refl, Bool, true, false, Option, none, some, List, [], ◌∷◌,
  arith, length, length-set, inl, inr, Bool-cases, Option-cases, get_elem?, count, count-cons, ◌||◌,
  set, get_elem?-set_self,
}
use m3bp.Prelude.Table.{find}
use m3bp.Scheduler.Locality.{Locality}
use m3bp.Scheduler.State.{PhysicalTask, Scheduler}
use m3bp.Scheduler.Operations.{is_finished, is_cancelled}
use m3bp.Scheduler.Graph.Counted.{IsCounted}
use m3bp.Scheduler.Invariant.{IsPlaces, IsPlaceable, Inv, released, queued}
use m3bp.Scheduler.Taking.{
  take_unstealable_task, take_local_stealable_task, steal_task, Outcome, returns, waits, awake,
  sleep_round, take_runnable_task,
}
use m3bp.Scheduler.Conservation.{Took, take_unstealable_task_lem}
use m3bp.Scheduler.Stealing.{take_local_stealable_task_lem, steal_task_lem}

-- The worker stands where the scheduler knows it.
abbrev pub IsLocality : Locality → Scheduler → Type 0
IsLocality locality s =
    (locality.self_thread_id < s.places.max_concurrency)
    × (locality.self_node_id < s.places.node_count)

-- A task that was taken is run by its taker.
pub Took-Inv :
    (owed running : List ℕ) (t : PhysicalTask) (s s' : Scheduler)
    → Took (some t) s s'
    → Inv owed running s
    → Inv owed (t.physical_task_id ∷ running) s'
Took-Inv owed running t s s' took inv = record {
  counters = subst (IsCounted owed) (sym took.vertices_same) inv.counters;
  fresh = λ a v e. omega (
    arith,
    took.created_same,
    inv.fresh a v (subst (λ m. find a m ≡ some v) took.vertices_same e),
  );
  placeable = λ a v e.
      subst (λ p. IsPlaceable p v.locality_option) (sym took.places_same)
        (inv.placeable a v (subst (λ m. find a m ≡ some v) took.vertices_same e));
  places = subst IsPlaces (sym took.places_same) inv.places;
  shaped = took.shaped;
  once = λ a.
      subst (λ m. count a (queued s') + count a (t.physical_task_id ∷ running) ≡ released a m)
        (sym took.vertices_same)
        (omega (arith, took.counts a, inv.once a, count-cons a t.physical_task_id running));
}

-- The flags of the synchronizers have no part in the invariant but for their number.
pub flags-Inv :
    (owed running : List ℕ) (flags : List Bool) (s : Scheduler)
    → length flags ≡ length s.synchronizers
    → Inv owed running s
    → Inv owed running (record s { synchronizers = flags })
flags-Inv owed running flags s e inv = record {
  counters = inv.counters;
  fresh = inv.fresh;
  placeable = inv.placeable;
  places = inv.places;
  shaped = record {
    workers = inv.shaped.workers;
    nodes = inv.shaped.nodes;
    flags = e ∙ inv.shaped.flags;
  };
  once = inv.once;
}

-- Nothing is there for this worker to do.
pub record IsIdle (locality : Locality) (s : Scheduler) : Type 0 where
  pub own_empty : get_elem? s.unstealable_queues locality.self_thread_id ≡ some []
  pub all_empty : (t : ℕ) → t < s.places.node_count → get_elem? s.stealable_queues t ≡ some []

-- What holds when `take_runnable_task` returns or blocks.
abbrev pub Result : List ℕ → List ℕ → Locality → Outcome → Scheduler → Type 0
Result owed running locality (returns (some t)) s = Inv owed (t.physical_task_id ∷ running) s
Result owed running locality (returns none) s =
    Inv owed running s × ((is_finished s || is_cancelled s) ≡ true)
Result owed running locality waits s =
    Inv owed running s
    × ((is_finished s || is_cancelled s) ≡ false)
    × IsIdle locality s
    × (get_elem? s.synchronizers locality.self_thread_id ≡ some true)

module _ (owed running : List ℕ) (locality : Locality) where
  abbrev Goal : Option (Outcome × Scheduler) → Type 0
  Goal m = (o : Outcome) × (s' : Scheduler) × (m ≡ some (o, s')) × Result owed running locality o s'

  awake-Inv : (held : List ℕ) (s : Scheduler) → Inv owed held s → Inv owed held (awake locality s)
  awake-Inv held s inv =
      flags-Inv owed held _ s (length-set s.synchronizers locality.self_thread_id false) inv

  sleep_round_lem :
      (s : Scheduler) → Inv owed running s → IsLocality locality s → Goal (sleep_round locality s)
  unfolding sleep_round
  sleep_round_lem s inv at =
      let tid = locality.self_thread_id in
      let asleep : Scheduler = record s { synchronizers = set s.synchronizers tid true } in
      let i : Inv owed running asleep =
        flags-Inv owed running _ s (length-set s.synchronizers tid true) inv in
      let (r, t, e, took, missed) = take_unstealable_task_lem locality asleep i.shaped at.0 in
      let (q, u, f, stole, empty) = steal_task_lem locality asleep i.shaped at.1 in
      elim (Bool-cases (is_finished asleep || is_cancelled asleep)) [
        | inl stop ↦
            (returns none, awake locality asleep, rw stop refl, (awake-Inv running asleep i, stop))
        | inr go ↦ elim (Option-cases r) [
          | inr (x, g) ↦ (
            returns (some x),
            awake locality t,
            rw go (rw (e, g) refl),
            awake-Inv (x.physical_task_id ∷ running) t
                (Took-Inv owed running x asleep t (subst (λ y. Took y asleep t) g took) i),
          )
          | inl g ↦
              let e' : take_unstealable_task locality asleep ≡ some (none, asleep) =
                rw (g, took.missed g) at e in
              elim (Option-cases q) [
                | inr (x, k) ↦ (
                  returns (some x),
                  awake locality u,
                  rw go (rw e' (rw (f, k) refl)),
                  awake-Inv (x.physical_task_id ∷ running) u
                      (Took-Inv owed running x asleep u (subst (λ y. Took y asleep u) k stole) i),
                )
                | inl k ↦
                    let f' : steal_task locality asleep ≡ some (none, asleep) =
                      rw (k, stole.missed k) at f in
                    (
                      waits,
                      asleep,
                      rw go (rw e' (rw f' refl)),
                      (
                        i,
                        go,
                        record { own_empty = missed g; all_empty = empty k },
                        get_elem?-set_self s.synchronizers tid true
                            (omega (arith, at.0, inv.shaped.flags)),
                      ),
                    )
              ]
        ]
      ]

  -- A worker always gets an answer: it takes a task, which it then holds, or it leaves because all
  -- is finished or cancelled, or it blocks with its flag set, and then its own queue and the
  -- queues of all nodes are empty.
  pub take_runnable_task_lem :
      (s : Scheduler)
      → Inv owed running s
      → IsLocality locality s
      → Goal (take_runnable_task locality s)
  unfolding take_runnable_task
  take_runnable_task_lem s inv at =
      let (r, t, e, took, _) = take_unstealable_task_lem locality s inv.shaped at.0 in
      let (q, u, f, got) = take_local_stealable_task_lem locality s inv.shaped at.1 in
      let (p, v, h, stole, _) = steal_task_lem locality s inv.shaped at.1 in
      let (o, s', result, holds) = sleep_round_lem s inv at in
      elim (Option-cases r) [
        | inr (x, g) ↦ (
          returns (some x),
          t,
          rw (e, g) refl,
          Took-Inv owed running x s t (subst (λ y. Took y s t) g took) inv,
        )
        | inl g ↦
            let e' : take_unstealable_task locality s ≡ some (none, s) =
              rw (g, took.missed g) at e in
            elim (Option-cases q) [
              | inr (x, k) ↦ (
                returns (some x),
                u,
                rw e' (rw (f, k) refl),
                Took-Inv owed running x s u (subst (λ y. Took y s u) k got) inv,
              )
              | inl k ↦
                  let f' : take_local_stealable_task locality s ≡ some (none, s) =
                    rw (k, got.missed k) at f in
                  elim (Option-cases p) [
                    | inr (x, l) ↦ (
                      returns (some x),
                      v,
                      rw e' (rw f' (rw (h, l) refl)),
                      Took-Inv owed running x s v (subst (λ y. Took y s v) l stole) inv,
                    )
                    | inl l ↦
                        let h' : steal_task locality s ≡ some (none, s) =
                          rw (l, stole.missed l) at h in
                        (o, s', rw e' (rw f' (rw h' result)), holds)
                  ]
            ]
      ]

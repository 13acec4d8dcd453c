-- ===== src/Scheduler/Order.antt =====
-- What the dependencies of src/scheduler/scheduler.cpp promise, on every interleaving.
use m3bp.Prelude.{
  ℕ, zero, suc, ◌+◌, ◌<◌, ◌≡◌, ◌≤◌, none, some, [], arith, count, Option-cases, inl, inr,
  Bool-cases, ltb,
}
use m3bp.Prelude.Table.{find}
use m3bp.Scheduler.State.{PhysicalVertex, Places}
use m3bp.Scheduler.Operations.{init}
use m3bp.Scheduler.Graph.Degree.{indegree, count-le-indegree, indegree_pos}
use m3bp.Scheduler.Invariant.{IsPlaces, Inv, queued, released-none, released-some}
use m3bp.Scheduler.Preservation.{init-Inv}
use m3bp.Scheduler.Steps.{World, Reach, Reach-Inv}

-- How many queues and workers hold the task.
abbrev pub holders : ℕ → World → ℕ
holders id w = count id (queued w.scheduler) + count id w.running

abbrev pub start : Places → World
start places = record { owed = []; running = []; scheduler = init places }

module _ {places : Places} {w : World} (valid : IsPlaces places)
    (reach : Reach (start places) w) where
  reached : Inv w.owed w.running w.scheduler
  reached = Reach-Inv reach (init-Inv places valid)

  -- A task is never in two places: in two queues, in a queue and with a worker, or with two
  -- workers.
  pub holders-le-one : (id : ℕ) → holders id w ≤ 1
  holders-le-one id = elim (Option-cases (find id w.scheduler.vertices)) [
    | inl gone ↦ omega (arith, reached.once id, released-none id w.scheduler.vertices gone)
    | inr (v, e) ↦ ground (arith, reached.once id, released-some id v w.scheduler.vertices e)
  ]

  -- While a predecessor of a task has not completed, the task is in no queue and no worker runs it.
  pub successor_waits :
      (p id : ℕ) (v : PhysicalVertex)
      → find p w.scheduler.vertices ≡ some v
      → 0 < count id v.successors
      → holders id w ≡ 0
  successor_waits p id v e edge = elim (Option-cases (find id w.scheduler.vertices)) [
    | inl gone ↦ omega (arith, reached.once id, released-none id w.scheduler.vertices gone)
    | inr (u, f) ↦ ground (
      arith,
      reached.once id,
      released-some id u w.scheduler.vertices f,
      reached.counters.counted id u f,
      count-le-indegree id p v w.scheduler.vertices e,
    )
  ]

  -- Nor before its commit, or before a completed predecessor has been counted off.
  pub owed_waits : (id : ℕ) → 0 < count id w.owed → holders id w ≡ 0
  owed_waits id h = elim (Option-cases (find id w.scheduler.vertices)) [
    | inl gone ↦ omega (arith, reached.once id, released-none id w.scheduler.vertices gone)
    | inr (u, f) ↦ ground (
      arith,
      reached.once id,
      released-some id u w.scheduler.vertices f,
      reached.counters.counted id u f,
    )
  ]

  -- A task that is committed and has no predecessor left is in a queue or with a worker.
  pub ready_is_held :
      (id : ℕ) (v : PhysicalVertex)
      → find id w.scheduler.vertices ≡ some v
      → count id w.owed ≡ 0
      → ((p : ℕ) (u : PhysicalVertex)
          → find p w.scheduler.vertices ≡ some u
          → count id u.successors ≡ 0)
      → holders id w ≡ 1
  ready_is_held id v e nothing_owed no_predecessor =
      elim (Bool-cases (ltb 0 (indegree id w.scheduler.vertices))) [
        | inl some_edge ↦
            let (p, u, f, h) =
              indegree_pos id w.scheduler.vertices reached.counters.distinct (ground arith) in
            absurd (omega (arith, no_predecessor p u f))
        | inr no_edge ↦ ground (
          arith,
          reached.once id,
          released-some id v w.scheduler.vertices e,
          reached.counters.counted id v e,
        )
      ]

  -- The dependencies have no cycle if some number grows along each of them.
  module _ (rank : ℕ → ℕ)
      (ranked : (p k : ℕ) (v : PhysicalVertex)
        → find p w.scheduler.vertices ≡ some v
        → 0 < count k v.successors
        → rank p < rank k)
      (nothing_owed : (id : ℕ) → count id w.owed ≡ 0)
      (nothing_held : (id : ℕ) → holders id w ≡ 0) where
    descent :
        (n id : ℕ) (v : PhysicalVertex) → find id w.scheduler.vertices ≡ some v → ¬ (rank id < n)
    descent zero id v e h = elim h [ ]
    descent (suc n) id v e h = elim (Bool-cases (ltb 0 (indegree id w.scheduler.vertices))) [
      | inl some_edge ↦
          let (p, u, f, edge) =
            indegree_pos id w.scheduler.vertices reached.counters.distinct (ground arith) in
          descent n p u f (omega (arith, ranked p id u f edge))
      | inr no_edge ↦ ground (
        arith,
        reached.once id,
        nothing_owed id,
        nothing_held id,
        released-some id v w.scheduler.vertices e,
        reached.counters.counted id v e,
      )
    ]

    -- The scheduler cannot get stuck: if the dependencies have no cycle, and no decrement is owed
    -- and no task is queued or with a worker, then every task has completed.
    pub all_completed : (id : ℕ) → find id w.scheduler.vertices ≡ none
    all_completed id = elim (Option-cases (find id w.scheduler.vertices)) [
      | inl gone ↦ gone
      | inr (v, e) ↦ absurd (descent (suc (rank id)) id v e (omega arith))
    ]

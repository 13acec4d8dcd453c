-- ===== src/Scheduler/Stealing.antt =====
-- Stealing in src/scheduler/scheduler.cpp tries the queue of every node.
use native.Mathlib.Nat.{mod-lt, mod-eq_of_lt}
use m3bp.Prelude.{
  ℕ, zero, suc, ◌+◌, ◌-◌, ◌%◌, ◌<◌, ◌≡◌, subst, refl, Option, none, some, [], arith, ltb, length,
  inl, inr, Bool-cases, Option-cases, get_elem?,
}
use m3bp.Scheduler.TaskList.{pop_front, pop_back}
use m3bp.Scheduler.Locality.{Locality}
use m3bp.Scheduler.State.{PhysicalTask, Scheduler}
use m3bp.Scheduler.Invariant.{IsShaped}
use m3bp.Scheduler.Taking.{take_local_stealable_task, steal_loop, steal_task}
use m3bp.Scheduler.Conservation.{Took, stealable_pop_lem, pop_front-Pops, pop_back-Pops}

pub take_local_stealable_task_lem :
    (locality : Locality) (s : Scheduler)
    → IsShaped s
    → locality.self_node_id < s.places.node_count
    → (r : Option PhysicalTask) × (s' : Scheduler) × (take_local_stealable_task locality s
        ≡ some (r, s'))
      × Took r s s'
unfolding take_local_stealable_task
take_local_stealable_task_lem locality s shaped h =
    let (r, rs, e, t, _) =
      stealable_pop_lem pop_back locality.self_node_id s pop_back-Pops shaped
        (omega (arith, shaped.nodes)) in
    (r, record s { stealable_queues = rs }, rw e refl, t)

-- A whole turn round the nodes meets each of them.
pub turn : (nid t n : ℕ) → nid < n → t < n → (j : ℕ) × (j < n) × ((nid + j) % n ≡ t)
turn nid t n h k = elim (Bool-cases (ltb t nid)) [
  | inl before ↦
      let e : nid + (t + n - nid) ≡ t + n = ground arith in
      (t + n - nid, ground arith, rw e (grind arith))
  | inr after ↦
      let e : nid + (t - nid) ≡ t = ground arith in (t - nid, ground arith, rw e (mod-eq_of_lt k))
]

module _ (nid n : ℕ) (positive : 0 < n) where
  steal_loop_lem :
      (left i : ℕ) (s : Scheduler)
      → IsShaped s
      → length s.stealable_queues ≡ n
      → (r : Option PhysicalTask) × (s' : Scheduler) × (steal_loop left i nid n s ≡ some (r, s'))
        × Took r s s'
        × (r ≡ none
            → (j : ℕ) → j < left
            → get_elem? s.stealable_queues ((nid + (i + j)) % n) ≡ some [])
  unfolding steal_loop
  steal_loop_lem zero i s shaped size = (
    none,
    s,
    refl,
    record {
      places_same = refl;
      flags_same = refl;
      vertices_same = refl;
      created_same = refl;
      unfinished_same = refl;
      exception_same = refl;
      shaped = shaped;
      counts = λ a. omega arith;
      missed = λ _. refl;
    },
    λ _ j h. elim h [ ],
  )
  steal_loop_lem (suc left) i s shaped size =
      let (r, rs, e, took, missed) =
        stealable_pop_lem pop_front ((nid + i) % n) s pop_front-Pops shaped
          (rw size (mod-lt (nid + i) positive)) in
      elim (Option-cases r) [
        | inr (t, f) ↦ (
          some t,
          record s { stealable_queues = rs },
          rw (e, f) refl,
          subst (λ x. Took x s (record s { stealable_queues = rs })) f took,
          λ g. cc,
        )
        | inl f ↦
            let (q, s', g, took', missed') = steal_loop_lem left (i + 1) s shaped size in
            (
              q,
              s',
              rw (e, f, took.missed f) g,
              took',
              λ k. elim [
                | zero ↦ λ h. let now : i + 0 ≡ i = omega arith in rw now (missed f)
                | suc j ↦ λ h.
                    let later : i + suc j ≡ i + 1 + j = omega arith in
                    rw later (missed' k j (omega arith))
              ],
            )
      ]

-- Stealing fails only when the stealable queue of every node is empty.
pub steal_task_lem :
    (locality : Locality) (s : Scheduler)
    → IsShaped s
    → locality.self_node_id < s.places.node_count
    → (r : Option PhysicalTask) × (s' : Scheduler) × (steal_task locality s ≡ some (r, s'))
      × Took r s s'
      × (r ≡ none → (t : ℕ) → t < s.places.node_count → get_elem? s.stealable_queues t ≡ some [])
unfolding steal_task
steal_task_lem locality s shaped h =
    let n = length s.stealable_queues in
    let (r, s', e, took, missed) =
      steal_loop_lem locality.self_node_id n (omega (arith, shaped.nodes)) n 0 s shaped refl in
    (
      r,
      s',
      e,
      took,
      λ f t below.
          let (j, in_range, at) =
            turn locality.self_node_id t n (omega (arith, shaped.nodes))
              (omega (arith, shaped.nodes)) in
          let start : 0 + j ≡ j = omega arith in rw (start, at) at (missed f j in_range),
    )

-- ===== src/Process/Throttle.antt =====
-- The commands of a process task in src/tasks/process/process_task_base.cpp: how many are committed
-- and not completed, and those that wait in the queue with their commit owed to the scheduler.
use m3bp.Prelude.{
  ℕ, suc, ◌+◌, ◌<◌, ◌≡◌, refl, ap, subst, Bool, true, false, Option, some, List, [], ◌∷◌, ◌++◌,
  length, drop, ◌==◌, if◌then◌else◌, ◌>>=◌, arith, word, wrap_pred, wrap_suc, count, count-append,
  count-cons, count-nil, Bool-cases, inl, inr,
}
use m3bp.Scheduler.State.{Scheduler}
use m3bp.Scheduler.Operations.{commit_task}
use m3bp.Scheduler.Invariant.{Inv}
use m3bp.Scheduler.Decrement.{Draws}
use m3bp.Scheduler.Preservation.{commit_task-Inv, Inv-respects}
use m3bp.Process.State.{ProcessTask}
use m3bp.Process.Commands.{commit_process_command, drain_queue, notify_completion}

-- `active` commands are committed and not completed. `owed` are the decrements that others owe.
pub record Throttled (max active : ℕ) (owed running : List ℕ) (t : ProcessTask) (s : Scheduler)
    : Type 0 where
  pub inv : Inv (t.task_queue ++ owed) running s
  pub share : t.remaining_concurrency + active ≡ max
  pub small : max < word
  pub full : 0 < length t.task_queue → t.remaining_concurrency ≡ 0

-- Under the invariant, with draws in range, handing a new command over succeeds: it is committed if
-- fewer than the limit are active, and the queue stays; else it waits at the end of the queue, and
-- the scheduler stays. The limit is kept.
pub commit_process_command-Throttled :
    (draw : ℕ → ℕ) (task max active : ℕ) (owed running : List ℕ) (t : ProcessTask) (s : Scheduler)
    → Draws draw s
    → Throttled max active (task ∷ owed) running t s
    → (t' : ProcessTask) × (s' : Scheduler) × (commit_process_command draw task t s ≡ some (t', s'))
      × Throttled max (active + (if active == max then 0 else 1)) owed running t' s'
      × (t'.task_queue ≡ (if active == max then t.task_queue ++ task ∷ [] else t.task_queue))
      × ((if active == max then some s else commit_task draw task s) ≡ some s')
unfolding commit_process_command
commit_process_command-Throttled draw task max active owed running t s draws h =
    elim (Bool-cases (t.remaining_concurrency == 0)) [
      | inl full ↦
          let q = t.task_queue in
          let moved : (a : ℕ) → count a (q ++ task ∷ owed) ≡ count a ((q ++ task ∷ []) ++ owed) =
            λ a. omega (
              arith,
              count-append a q (task ∷ owed),
              count-append a (q ++ task ∷ []) owed,
              count-append a q (task ∷ []),
              count-cons a task owed,
              count-cons a task [],
              count-nil a,
            ) in
          (
            record t { task_queue = q ++ task ∷ [] },
            s,
            ground arith,
            record {
              inv =
                  Inv-respects (q ++ task ∷ owed) ((q ++ task ∷ []) ++ owed) running s moved h.inv;
              share = ground (arith, h.share);
              small = h.small;
              full = λ _. ground arith;
            },
            ground (arith, h.share),
            ground (arith, h.share),
          )
      | inr room ↦
          let q = t.task_queue in
          let start : Inv (task ∷ q ++ owed) running s =
            Inv-respects (q ++ task ∷ owed) (task ∷ q ++ owed) running s
              (λ a. omega (
                arith,
                count-append a q (task ∷ owed),
                count-append a q owed,
                count-cons a task owed,
                count-cons a task (q ++ owed),
              ))
              h.inv in
          let (s', e, i, _) = commit_task-Inv draw task (q ++ owed) running s draws start in
          (
            record t { remaining_concurrency = wrap_pred t.remaining_concurrency },
            s',
            ground (arith, e),
            record {
              inv = i;
              share = ground (arith, h.share, h.small);
              small = h.small;
              full = λ some_wait. absurd (ground (arith, h.full some_wait));
            },
            ground (arith, h.share),
            ground (arith, h.share, e),
          )
    ]

abbrev pub is_empty : List ℕ → Bool
is_empty [] = true
is_empty (x ∷ xs) = false

-- With no concurrency left the queue stays.
drain_none :
    (draw : ℕ → ℕ) (queue : List ℕ) (s : Scheduler)
    → drain_queue draw queue 0 s ≡ some (queue, 0, s)
unfolding drain_queue
drain_none draw [] s = refl
drain_none draw (x ∷ queue) s = refl

-- What `notify_completion` does with the outcome of its loop.
abbrev resumed : ProcessTask → Option (List ℕ × ℕ × Scheduler) → Option (ProcessTask × Scheduler)
resumed t o = do r ← o; some (record t { task_queue = r.0; remaining_concurrency = r.1 }, r.2)

drained :
    (draw : ℕ → ℕ) (max active : ℕ) (owed running queue : List ℕ) (t : ProcessTask) (s : Scheduler)
    → t.task_queue ≡ queue
    → Draws draw s
    → Throttled max (suc active) owed running t s
    → (t' : ProcessTask) × (s' : Scheduler) × (notify_completion draw t s ≡ some (t', s'))
      × Throttled max (active + (if is_empty queue then 0 else 1)) owed running t' s'
      × (t'.task_queue ≡ drop 1 queue)
unfolding notify_completion drain_queue
drained draw max active owed running [] t s waiting draws h = (
  record t { task_queue = []; remaining_concurrency = wrap_suc t.remaining_concurrency },
  s,
  rw waiting refl,
  record {
    inv = subst (λ (q : List ℕ). Inv (q ++ owed) running s) waiting h.inv;
    share = ground (arith, h.share, h.small);
    small = h.small;
    full = λ none_wait. absurd (omega arith);
  },
  refl,
)
drained draw max active owed running (x ∷ queue) t s waiting draws h =
    let start : Inv (x ∷ queue ++ owed) running s =
      subst (λ (q : List ℕ). Inv (q ++ owed) running s) waiting h.inv in
    let (s', e, i, _) = commit_task-Inv draw x (queue ++ owed) running s draws start in
    let none_left : t.remaining_concurrency ≡ 0 = h.full (rw waiting (omega arith)) in
    let step : drain_queue draw (x ∷ queue) 1 s ≡ some (queue, 0, s') =
      rw e (drain_none draw queue s') in
    let taken : drain_queue draw t.task_queue (wrap_suc t.remaining_concurrency) s
        ≡ some (queue, 0, s') =
      rw (waiting, none_left) step in
    (
      record t { task_queue = queue; remaining_concurrency = 0 },
      s',
      ap (resumed t) taken,
      record { inv = i; share = ground (arith, h.share); small = h.small; full = λ _. refl },
      refl,
    )

-- Under the invariant, with draws in range and a command active, its completion succeeds: the one
-- that has waited longest is committed in its place, and if none waits there is room for one more.
pub notify_completion-Throttled :
    (draw : ℕ → ℕ) (max active : ℕ) (owed running : List ℕ) (t : ProcessTask) (s : Scheduler)
    → Draws draw s
    → Throttled max (suc active) owed running t s
    → (t' : ProcessTask) × (s' : Scheduler) × (notify_completion draw t s ≡ some (t', s'))
      × Throttled max (active + (if is_empty t.task_queue then 0 else 1)) owed running t' s'
      × (t'.task_queue ≡ drop 1 t.task_queue)
notify_completion-Throttled draw max active owed running t s draws h =
    drained draw max active owed running t.task_queue t s refl draws h

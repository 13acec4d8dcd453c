-- ===== src/Process/Runs.antt =====
-- The commands that `after_global_initialize` creates (src/tasks/process), in the scheduler.
use m3bp.Prelude.{
  ℕ, zero, suc, ◌+◌, ◌<◌, ◌≡◌, refl, sym, ap, subst, ◌∙◌, false, true, Bool, Option, some, List, [],
  ◌∷◌, ◌++◌, length, length-append, ◌==◌, if◌then◌else◌, arith, word, wrap_pred, count-append,
  count-cons, Bool-cases, inl, inr, min,
}
use m3bp.Scheduler.Locality.{LocalityOption, any_worker}
use m3bp.Scheduler.State.{PhysicalVertex, Places, Scheduler}
use m3bp.Scheduler.Operations.{create_physical_task, commit_task}
use m3bp.Scheduler.Invariant.{IsPlaceable}
use m3bp.Scheduler.Decrement.{Draws}
use m3bp.Scheduler.Preservation.{Inv-respects}
use m3bp.Process.State.{ProcessTask}
use m3bp.Process.Commands.{
  Command, commit_process_command, create_run_task, create_input_tasks, after_global_initialize,
  input_process_run_command,
}
use m3bp.Process.Fresh.{created_lem, created-KeepsEdges, entered_lem, barred_lem}
use m3bp.Prelude.Table.{find}
use m3bp.Process.Linked.{
  IsLinked, KeepsEdges, KeepsEdges-refl, KeepsEdges-trans, IsLinked-kept, commit_task-KeepsEdges,
  between_lem, AllBetween,
}
use m3bp.Process.Throttle.{Throttled, commit_process_command-Throttled}
use m3bp.Process.Kept.{SameNames, Waits, bind_none, carried, commit_keeps}

-- What a commit of a command leaves: the names, and every task but the one committed.
record Committed (b n : ℕ) (t t' : ProcessTask) (s s' : Scheduler) : Type 0 where
  pub name_same : t'.task_id ≡ t.task_id
  pub entry_same : t'.entry_task ≡ t.entry_task
  pub barrier_same : t'.barrier_task ≡ t.barrier_task
  pub queue_grown :
      length t'.task_queue ≡ length t.task_queue + (if t.remaining_concurrency == 0 then 1 else 0)
  pub names : SameNames s s'
  pub waits : Waits b n s'

module _ (draw : ℕ → ℕ) (task b n : ℕ) (t t' : ProcessTask) (s s' : Scheduler)
    (other : (task == b) ≡ false) (w : Waits b n s) where
  outcome_of :
      (u : ProcessTask) (v : Scheduler)
      → ◌≡◌ {A = Option (ProcessTask × Scheduler)} (some (u, v)) (some (t', s'))
      → Committed b n t u s v
      → Committed b n t t' s s'
  outcome_of u v e c =
      carried (λ (x : ProcessTask × Scheduler). Committed b n t x.0 s x.1) (u, v) (t', s') e c

  commit_process_keeps :
      commit_process_command draw task t s ≡ some (t', s') → Committed b n t t' s s'
  unfolding commit_process_command
  commit_process_keeps e = elim (Bool-cases (t.remaining_concurrency == 0)) [
    | inl full ↦
        let waiting : ProcessTask = record t { task_queue = t.task_queue ++ task ∷ [] } in
        outcome_of waiting s (rw full at e) (record {
          name_same = refl;
          entry_same = refl;
          barrier_same = refl;
          queue_grown = rw full (length-append t.task_queue (task ∷ []));
          names = record { places_same = refl; created_same = refl };
          waits = w;
        })
    | inr room ↦
        let active : ProcessTask = record t {
          remaining_concurrency = wrap_pred t.remaining_concurrency;
        } in
        let (u, f, k) =
          bind_none (commit_task draw task s) (λ (x : Scheduler). some (active, x)) (t', s')
            (rw room at e) in
        let (names, same) = commit_keeps draw task b s u other f in
        outcome_of active u k (record {
          name_same = refl;
          entry_same = refl;
          barrier_same = refl;
          queue_grown = rw room (omega arith);
          names = names;
          waits = record {
            vertex = w.vertex;
            found = same ∙ w.found;
            waiting = w.waiting;
            at_most = w.at_most;
          };
        })
  ]

committed-KeepsEdges :
    (draw : ℕ → ℕ) (task : ℕ) (b : Bool) (s s' : Scheduler)
    → (if b then some s else commit_task draw task s) ≡ some s'
    → KeepsEdges s s'
committed-KeepsEdges draw task true s s' e = carried (KeepsEdges s) s s' e (KeepsEdges-refl s)
committed-KeepsEdges draw task false s s' e = commit_task-KeepsEdges draw task s s' e

-- What the creation of `left` more commands needs: room in the counter of the barrier, which
-- waits, and identifiers.
pub record IsOpen (left max active : ℕ) (owed running : List ℕ) (t : ProcessTask) (s : Scheduler)
    : Type 0 where
  pub throttled : Throttled max active owed running t s
  pub barrier_waits : (n : ℕ) × (n + left < word) × Waits t.barrier_task n s
  pub identifiers : s.created_task_count + left < word

module _ (object : Command → ℕ) (draw : ℕ → ℕ) (command : Command) (option : LocalityOption)
    (left max active : ℕ) (owed running : List ℕ) (u : PhysicalVertex) (t : ProcessTask)
    (s : Scheduler) where
  pub create_run_task-IsOpen :
      Draws draw s
      → IsPlaceable s.places option
      → IsOpen (suc left) max active owed running t s
      → find t.entry_task s.vertices ≡ some u
      → (t' : ProcessTask) × (s' : Scheduler) × (create_run_task object draw command option t s
          ≡ some (t', s'))
        × IsOpen left max (active + (if active == max then 0 else 1)) owed running t' s'
        × (s'.places ≡ s.places)
        × (length t'.task_queue ≡ length t.task_queue + (if active == max then 1 else 0))
        × (s'.created_task_count ≡ s.created_task_count + 1)
        × KeepsEdges s s'
        × IsLinked t.entry_task s.created_task_count s'
        × IsLinked s.created_task_count t.barrier_task s'
        × (t'.entry_task ≡ t.entry_task)
        × (t'.barrier_task ≡ t.barrier_task)
  unfolding create_run_task create_physical_task
  create_run_task-IsOpen draws placeable h present =
      let q = t.task_queue ++ owed in
      let (n, room, w) = h.barrier_waits in
      let b = t.barrier_task in
      let id = s.created_task_count in
      let (fresh₀, v, f, one) =
        created_lem t.task_id (object command) option b n q running s h.throttled.inv placeable
          (omega (arith, h.identifiers)) w in
      let (s₁, e₁, fresh₁) = entered_lem t.entry_task id b n q running s _ v fresh₀ f one in
      let (s₂, e₂, fresh₂) = barred_lem id b n q running s s₁ (omega (arith, room)) fresh₁ in
      let (t', s', e₃, throttled, _, committed) =
        commit_process_command-Throttled draw id max active owed running t s₂
          (λ k. omega (arith, draws k, ap (λ (p : Places). p.max_concurrency) fresh₂.places_same))
          (record {
            inv =
                Inv-respects (id ∷ q) (t.task_queue ++ id ∷ owed) running s₂
                  (λ a. omega (
                    arith,
                    count-append a t.task_queue (id ∷ owed),
                    count-append a t.task_queue owed,
                    count-cons a id owed,
                    count-cons a id q,
                  ))
                  fresh₂.inv;
            share = h.throttled.share;
            small = h.throttled.small;
            full = h.throttled.full;
          }) in
      let kept = commit_process_keeps draw id b (n + 1) t t' s₂ s' fresh₂.other fresh₂.waits e₃ in
      let (keeps, enters, bars) =
        between_lem t.entry_task id b u v s _ s₁ s₂ s'
          (created-KeepsEdges t.task_id (object command) option q running s h.throttled.inv
            placeable (omega (arith, h.identifiers)))
          present f e₁ e₂ (committed-KeepsEdges draw id (active == max) s₂ s' committed) in
      (
        t',
        s',
        rw (e₁, e₂) e₃,
        record {
          throttled = throttled;
          barrier_waits = (
            n + 1,
            omega (arith, room),
            subst (λ (x : ℕ). Waits x (n + 1) s') (sym kept.barrier_same) kept.waits,
          );
          identifiers = omega (arith, h.identifiers, kept.names.created_same, fresh₂.created_more);
        },
        kept.names.places_same ∙ fresh₂.places_same,
        kept.queue_grown ∙ ground (arith, h.throttled.share),
        kept.names.created_same ∙ fresh₂.created_more,
        keeps,
        enters,
        bars,
        kept.entry_same,
        kept.barrier_same,
      )

-- The loop of `after_global_initialize`.
pub create_input_tasks-IsOpen :
    (object : Command → ℕ) (draw : ℕ → ℕ) (left i max active : ℕ) (owed running : List ℕ)
    (u : PhysicalVertex) (t : ProcessTask) (s : Scheduler)
    → Draws draw s
    → IsOpen left max active owed running t s
    → find t.entry_task s.vertices ≡ some u
    → (t' : ProcessTask) × (s' : Scheduler) × (create_input_tasks object draw left i t s
        ≡ some (t', s'))
      × IsOpen 0 max (min max (active + left)) owed running t' s'
      × (length t'.task_queue + min max (active + left) ≡ length t.task_queue + active + left)
      × AllBetween t.entry_task t.barrier_task s.created_task_count left s'
      × (s'.created_task_count ≡ s.created_task_count + left)
      × KeepsEdges s s'
unfolding create_input_tasks
create_input_tasks-IsOpen object draw zero i max active owed running u t s draws h present =
    let same : active ≡ min max (active + 0) = omega (arith, h.throttled.share) in
    (
      t,
      s,
      refl,
      subst (λ (x : ℕ). IsOpen 0 max x owed running t s) same h,
      omega (arith, same),
      tt,
      omega arith,
      KeepsEdges-refl s,
    )
create_input_tasks-IsOpen object draw (suc left) i max active owed running u t s draws h present =
    let (t', s', e, h', places, grown, one_more, keeps, enters, bars, entry_same, barrier_same) =
      create_run_task-IsOpen object draw (input_process_run_command i) any_worker left max active
        owed running u t s draws (inr (refl, refl)) h present in
    let (u', present', _) = keeps.kept t.entry_task u present in
    let (t'', s'', e', h'', sum, between, more, keeps') =
      create_input_tasks-IsOpen object draw left (i + 1) max _ owed running u' t' s'
        (λ k. omega (arith, draws k, ap (λ (p : Places). p.max_concurrency) places)) h'
        (ap (λ (x : ℕ). find x s'.vertices) entry_same ∙ present') in
    let k = s.created_task_count in
    let same : min max (active + (if active == max then 0 else 1) + left)
        ≡ min max (active + suc left) =
      ground (arith, h.throttled.share) in
    (
      t'',
      s'',
      rw e e',
      subst (λ (x : ℕ). IsOpen 0 max x owed running t'' s'') same h'',
      ground (arith, same, sum, grown),
      (
        (
          IsLinked-kept t.entry_task k s' s'' keeps' enters,
          IsLinked-kept k t.barrier_task s' s'' keeps' bars,
        ),
        subst (λ (x : ℕ). AllBetween t.entry_task t.barrier_task x left s'') one_more
            (subst (λ (x : ℕ). AllBetween t.entry_task x s'.created_task_count left s'')
              barrier_same
              (subst (λ (x : ℕ). AllBetween x t'.barrier_task s'.created_task_count left s'')
                entry_same between)),
      ),
      omega (arith, one_more, more),
      KeepsEdges-trans s s' s'' keeps keeps',
    )

-- If the entry task has not completed and the barrier waits, with room in its counter and
-- identifiers left for `task_count` commands, and draws are in range, then
-- `after_global_initialize` succeeds and creates `task_count` tasks, each of which is a successor of
-- the entry task and has the barrier for a successor: as many as the limit leaves room for are
-- committed, the others wait in the queue, and the invariant holds.
pub after_global_initialize-IsOpen :
    (object : Command → ℕ) (draw : ℕ → ℕ) (task_count max active : ℕ) (owed running : List ℕ)
    (u : PhysicalVertex) (t : ProcessTask) (s : Scheduler)
    → Draws draw s
    → IsOpen task_count max active owed running t s
    → find t.entry_task s.vertices ≡ some u
    → (t' : ProcessTask) × (s' : Scheduler) × (after_global_initialize object draw task_count t s
        ≡ some (t', s'))
      × IsOpen 0 max (min max (active + task_count)) owed running t' s'
      × (length t'.task_queue + min max (active + task_count)
          ≡ length t.task_queue + active + task_count)
      × AllBetween t.entry_task t.barrier_task s.created_task_count task_count s'
      × (s'.created_task_count ≡ s.created_task_count + task_count)
unfolding after_global_initialize
after_global_initialize-IsOpen object draw task_count max active owed running u t s draws h
      present =
    let (t', s', e, h', sum, between, more, _) =
      create_input_tasks-IsOpen object draw task_count 0 max active owed running u t s draws h
        present in
    (t', s', e, h', sum, between, more)

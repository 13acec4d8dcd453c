-- ===== src/Shuffle/Tasks.antt =====
-- The tasks that src/tasks/shuffle/shuffle_logical_task.cpp creates while it runs, in the scheduler.
use m3bp.Prelude.{ℕ, suc, ◌+◌, ◌<◌, ◌≡◌, ap, ◌∙◌, some, List, arith, word}
use m3bp.Scheduler.Locality.{LocalityOption}
use m3bp.Scheduler.State.{PhysicalVertex, Places, Scheduler}
use m3bp.Scheduler.Operations.{create_physical_task}
use m3bp.Scheduler.Invariant.{Inv, IsPlaceable}
use m3bp.Scheduler.Decrement.{Draws}
use m3bp.Scheduler.Preservation.{commit_task-Inv}
use m3bp.Process.Kept.{Waits, commit_keeps}
use m3bp.Process.Fresh.{created_lem, created-KeepsEdges, entered_lem, barred_lem}
use m3bp.Prelude.Table.{find}
use m3bp.Process.Linked.{IsLinked, KeepsEdges, commit_task-KeepsEdges, between_lem}
use m3bp.Shuffle.Task.{commit_between}

-- The task `b` waits for at most `n` decrements, and there are identifiers for `left` more tasks.
pub record HasRoom (left b n : ℕ) (owed running : List ℕ) (s : Scheduler) : Type 0 where
  pub inv : Inv owed running s
  pub waits : Waits b n s
  pub counter : n + left < word
  pub identifiers : s.created_task_count + left < word

module _ (draw : ℕ → ℕ) (task_id command : ℕ) (option : LocalityOption) (before b n left : ℕ)
    (owed running : List ℕ) (u : PhysicalVertex) (s : Scheduler) where
  pub commit_between-HasRoom :
      Draws draw s
      → IsPlaceable s.places option
      → HasRoom (suc left) b n owed running s
      → find before s.vertices ≡ some u
      → (s' : Scheduler) × (commit_between draw task_id command option before b s ≡ some s')
        × HasRoom left b (n + 1) owed running s'
        × (s'.places ≡ s.places)
        × (s'.created_task_count ≡ s.created_task_count + 1)
        × KeepsEdges s s'
        × IsLinked before s.created_task_count s'
        × IsLinked s.created_task_count b s'
  unfolding commit_between create_physical_task
  commit_between-HasRoom draws placeable h present =
      let id = s.created_task_count in
      let (fresh₀, v, f, one) =
        created_lem task_id command option b n owed running s h.inv placeable
          (omega (arith, h.identifiers)) h.waits in
      let (s₁, e₁, fresh₁) = entered_lem before id b n owed running s _ v fresh₀ f one in
      let (s₂, e₂, fresh₂) =
        barred_lem id b n owed running s s₁ (omega (arith, h.counter)) fresh₁ in
      let (s', e₃, inv, _) =
        commit_task-Inv draw id owed running s₂
          (λ k. omega (arith, draws k, ap (λ (p : Places). p.max_concurrency) fresh₂.places_same))
          fresh₂.inv in
      let (names, same) = commit_keeps draw id b s₂ s' fresh₂.other e₃ in
      let w = fresh₂.waits in
      let (keeps, enters, bars) =
        between_lem before id b u v s _ s₁ s₂ s'
          (created-KeepsEdges task_id command option owed running s h.inv placeable
            (omega (arith, h.identifiers)))
          present f e₁ e₂ (commit_task-KeepsEdges draw id s₂ s' e₃) in
      (
        s',
        rw (e₁, e₂) e₃,
        record {
          inv = inv;
          waits = record {
            vertex = w.vertex;
            found = same ∙ w.found;
            waiting = w.waiting;
            at_most = w.at_most;
          };
          counter = omega (arith, h.counter);
          identifiers = omega (arith, h.identifiers, names.created_same, fresh₂.created_more);
        },
        names.places_same ∙ fresh₂.places_same,
        names.created_same ∙ fresh₂.created_more,
        keeps,
        enters,
        bars,
      )

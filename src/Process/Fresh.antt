-- ===== src/Process/Fresh.antt =====
-- A physical task that is created between two others, as src/tasks/process and src/tasks/shuffle do:
-- the calls of src/scheduler/scheduler.cpp before its commit.
use m3bp.Prelude.{
  ℕ, ◌+◌, ◌<◌, ◌≡◌, refl, sym, ap, subst, ◌∙◌, false, some, List, [], ◌∷◌, ◌==◌, if◌then◌else◌,
  arith, word, inl, inr, ==_refl,
}
use m3bp.Prelude.Table.{find, find-cons, emplace-none, emplace}
use m3bp.Scheduler.Locality.{LocalityOption}
use m3bp.Scheduler.State.{PhysicalVertex, Scheduler}
use m3bp.Scheduler.Operations.{create_physical_task, add_dependency}
use m3bp.Scheduler.Invariant.{Inv, IsPlaceable}
use m3bp.Scheduler.Preservation.{create_physical_task-Inv}
use m3bp.Scheduler.Dependency.{add_dependency-Inv}
use m3bp.Process.Kept.{Waits, add_dependency_keeps, add_dependency-SameNames}
use m3bp.Process.Linked.{KeepsEdges, create_physical_task-KeepsEdges}

-- A scheduler in which the task `id` is fresh, and the barrier waits.
pub record IsFresh (id b n : ℕ) (owed running : List ℕ) (s s' : Scheduler) : Type 0 where
  pub inv : Inv (id ∷ owed) running s'
  pub other : (id == b) ≡ false
  pub waits : Waits b n s'
  pub places_same : s'.places ≡ s.places
  pub created_more : s'.created_task_count ≡ s.created_task_count + 1

module _ (l c : ℕ) (option : LocalityOption) (b n : ℕ) (owed running : List ℕ) (s : Scheduler)
    (inv : Inv owed running s) (placeable : IsPlaceable s.places option)
    (room : s.created_task_count + 1 < word) (w : Waits b n s) where
  new_differs : (s.created_task_count == b) ≡ false
  new_differs = ground (arith, inv.fresh b w.vertex w.found)

  pub created_lem :
      let (s', id) = create_physical_task l c option s in
      IsFresh id b n owed running s s'
      × (v : PhysicalVertex) × (find id s'.vertices ≡ some v)
      × (v.predecessor_count ≡ 1)
  unfolding create_physical_task
  created_lem =
      let (inv', gone) = create_physical_task-Inv owed running s inv l c option room placeable in
      let id = s.created_task_count in
      let v : PhysicalVertex = record {
        predecessor_count = 1;
        successors = [];
        locality_option = option;
        physical_task = some (record { logical_task_id = l; physical_task_id = id; command = c });
      } in
      let found : (a : ℕ)
          → find a (emplace id v s.vertices) ≡ (if id == a then some v else find a s.vertices) =
        λ a. ap (find a) (emplace-none id v s.vertices gone) ∙ find-cons a id v s.vertices in
      (
        record {
          inv = inv';
          other = new_differs;
          waits = record {
            vertex = w.vertex;
            found = found b ∙ (rw new_differs w.found);
            waiting = w.waiting;
            at_most = w.at_most;
          };
          places_same = refl;
          created_more = omega (arith, room);
        },
        v,
        found id ∙ rw (==_refl id) refl,
        refl,
      )

-- No edge is lost.
pub created-KeepsEdges :
    (l c : ℕ) (option : LocalityOption) (owed running : List ℕ) (s : Scheduler)
    → Inv owed running s
    → IsPlaceable s.places option
    → s.created_task_count + 1 < word
    → KeepsEdges s (create_physical_task l c option s).0
unfolding create_physical_task
created-KeepsEdges l c option owed running s inv placeable room =
    create_physical_task-KeepsEdges l c option s
      (create_physical_task-Inv owed running s inv l c option room placeable).1

-- An edge from the entry task to a fresh task.
pub entered_lem :
    (p id b n : ℕ) (owed running : List ℕ) (s s₀ : Scheduler) (v : PhysicalVertex)
    → IsFresh id b n owed running s s₀
    → find id s₀.vertices ≡ some v
    → v.predecessor_count ≡ 1
    → (s₁ : Scheduler) × (add_dependency p id s₀ ≡ some s₁) × IsFresh id b n owed running s s₁
entered_lem p id b n owed running s s₀ v h f one =
    let (s₁, e, inv, _) =
      add_dependency-Inv p id v (id ∷ owed) running s₀ h.inv f (omega arith) (omega arith) in
    let (names, w) = add_dependency_keeps p id b n s₀ s₁ h.other e h.waits in
    (
      s₁,
      e,
      record {
        inv = inv;
        other = h.other;
        waits = w;
        places_same = names.places_same ∙ h.places_same;
        created_more = names.created_same ∙ h.created_more;
      },
    )

-- An edge from a fresh task to the barrier, which then waits for at most one more.
pub barred_lem :
    (id b n : ℕ) (owed running : List ℕ) (s s₁ : Scheduler)
    → n + 1 < word
    → IsFresh id b n owed running s s₁
    → (s₂ : Scheduler) × (add_dependency id b s₁ ≡ some s₂) × IsFresh id b (n + 1) owed running s s₂
barred_lem id b n owed running s s₁ room h =
    let w = h.waits in
    let (s₂, e, inv, outcome) =
      add_dependency-Inv id b w.vertex (id ∷ owed) running s₁ h.inv w.found w.waiting
        (omega (arith, w.at_most)) in
    let names = add_dependency-SameNames id b s₁ s₂ e in
    let waits : Waits b (n + 1) s₂ = elim outcome [
      | inl (gone, same) ↦ subst (Waits b (n + 1)) (sym same) (record {
        vertex = w.vertex;
        found = w.found;
        waiting = w.waiting;
        at_most = omega (arith, w.at_most);
      })
      | inr (v, f, more) ↦ record {
        vertex = v;
        found = f;
        waiting = omega arith;
        at_most = omega (arith, w.at_most);
      }
    ] in
    (
      s₂,
      e,
      record {
        inv = inv;
        other = h.other;
        waits = waits;
        places_same = names.places_same ∙ h.places_same;
        created_more = names.created_same ∙ h.created_more;
      },
    )

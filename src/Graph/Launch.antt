-- ===== src/Graph/Launch.antt =====
-- The first loop of `create_physical_tasks` in src/graph/logical_graph.cpp, by the class of the task.
use m3bp.Prelude.{
  ℕ, suc, ◌+◌, ◌<◌, ◌≤◌, ◌≡◌, refl, sym, subst, some, List, [], ◌∷◌, ◌++◌, ◌==◌, if◌then◌else◌,
  arith, word, count, count-cons, ==_refl,
}
use m3bp.Graph.LogicalGraph.{PhysicalSuccessor, entry, barrier, terminal}
use m3bp.Scheduler.Locality.{any_worker}
use m3bp.Scheduler.State.{Scheduler}
use m3bp.Scheduler.Operations.{create_physical_task, add_dependency}
use m3bp.Scheduler.Preservation.{Inv-respects}
use m3bp.Process.State.{ProcessTask}
use m3bp.Process.Commands.{
  global_initialize_command, process_barrier_command, global_finalize_command,
  create_physical_tasks,
}
use m3bp.Shuffle.Task.{
  no_command, shuffle_barrier_command, ShuffleTask, ValueSortTask, create_shuffle_tasks,
  create_value_sort_tasks,
}
use m3bp.Gather.Task.{GatherTask, create_gather_task}
use m3bp.Graph.Physical.{
  AnyTask, process_task, shuffle_task, gather_task, value_sort_task, Objects, create_any,
  successor_of,
}
use m3bp.Process.Linked.{IsLinked, IsLinked-kept}
use m3bp.Graph.Ordered.{size_of, IsInOrder, IsLaidOut}
use m3bp.Graph.Bounded.{Growing, Extends, Extends-trans, created-Growing, linked-Growing}

-- Three tasks in a row, as a process and a shuffle create them.
three_lem :
    (l a b c m ids : ℕ) (owed running : List ℕ) (s : Scheduler)
    → 0 < m
    → m + 2 < word
    → Growing m (suc (suc (suc ids))) owed running s
    → let (s₁, x) = create_physical_task l a any_worker s in
      let (s₂, y) = create_physical_task l b any_worker s₁ in
      let (s₃, z) = create_physical_task l c any_worker s₂ in
      (s₄ : Scheduler) × (s₅ : Scheduler) × (add_dependency x y s₃ ≡ some s₄)
      × (add_dependency y z s₄ ≡ some s₅)
      × Growing (m + 2) ids (z ∷ y ∷ x ∷ owed) running s₅
      × Extends 3 s s₅
      × IsLinked x y s₅
      × IsLinked y z s₅
three_lem l a b c m ids owed running s pos room h =
    let (s₁, x) = create_physical_task l a any_worker s in
    let (s₂, y) = create_physical_task l b any_worker s₁ in
    let (s₃, z) = create_physical_task l c any_worker s₂ in
    let (h₁, p₁) = created-Growing l a m (suc (suc ids)) owed running s pos h in
    let (h₂, p₂) = created-Growing l b m (suc ids) (x ∷ owed) running s₁ pos h₁ in
    let (h₃, p₃) = created-Growing l c m ids (y ∷ x ∷ owed) running s₂ pos h₂ in
    let is_x : 0 < count x (z ∷ y ∷ x ∷ owed) = ground (
      arith,
      count-cons x z (y ∷ x ∷ owed),
      count-cons x y (x ∷ owed),
      count-cons x x owed,
      ==_refl x,
    ) in
    let is_y : 0 < count y (z ∷ y ∷ x ∷ owed) =
      ground (arith, count-cons y z (y ∷ x ∷ owed), count-cons y y (x ∷ owed), ==_refl y) in
    let (s₄, e₄, h₄, p₄, l₄) =
      linked-Growing x y m ids (z ∷ y ∷ x ∷ owed) running s₃ is_x is_y (omega arith) h₃ in
    let (s₅, e₅, h₅, p₅, l₅) =
      linked-Growing y z (m + 1) ids (z ∷ y ∷ x ∷ owed) running s₄ is_y
        (ground (arith, count-cons z z (y ∷ x ∷ owed), ==_refl z)) (omega arith) h₄ in
    (
      s₄,
      s₅,
      e₄,
      e₅,
      subst (λ (k : ℕ). Growing k ids (z ∷ y ∷ x ∷ owed) running s₅) (omega arith) h₅,
      Extends-trans 1 2 3 s s₁ s₅ refl p₁ (
          Extends-trans 1 1 2 s₁ s₂ s₅ refl p₂
            (Extends-trans 1 0 1 s₂ s₃ s₅ refl p₃ (Extends-trans 0 0 0 s₃ s₄ s₅ refl p₄ p₅))),
      IsLinked-kept x y s₄ s₅ p₅.edges l₄,
      l₅,
    )

-- The commits that a task makes, in their order.
abbrev pub commits_of : AnyTask → List ℕ
commits_of (process_task t) = t.entry_task ∷ t.barrier_task ∷ t.terminal_task ∷ []
commits_of (shuffle_task t) = t.entry_task ∷ t.barrier_task ∷ t.terminal_task ∷ []
commits_of (gather_task t) = t.entry_task ∷ []
commits_of (value_sort_task t) = t.entry_task ∷ t.terminal_task ∷ []

-- Each successor of an edge is one of the tasks that are to be committed.
abbrev pub IsReady : AnyTask → Type 0
IsReady t = (w : PhysicalSuccessor) → 0 < count (successor_of w t) (commits_of t)

IsReady-intro :
    (t : AnyTask)
    → 0 < count (successor_of entry t) (commits_of t)
    → 0 < count (successor_of barrier t) (commits_of t)
    → 0 < count (successor_of terminal t) (commits_of t)
    → IsReady t
IsReady-intro t e b z entry = e
IsReady-intro t e b z barrier = b
IsReady-intro t e b z terminal = z

pub Growing-respects :
    (m m' ids ids' : ℕ) (owed owed' running : List ℕ) (s : Scheduler)
    → m ≤ m'
    → ids' ≤ ids
    → ((a : ℕ) → count a owed ≡ count a owed')
    → Growing m ids owed running s
    → Growing m' ids' owed' running s
Growing-respects m m' ids ids' owed owed' running s more fewer same h = record {
  inv = Inv-respects owed owed' running s same h.inv;
  bound = record { bounded = λ a v f. omega (arith, h.bound.bounded a v f) };
  identifiers = omega (arith, h.identifiers);
}

reversed :
    (x y z : ℕ) (owed : List ℕ) (a : ℕ) → count a (z ∷ y ∷ x ∷ owed) ≡ count a (x ∷ y ∷ z ∷ owed)
reversed x y z owed a = omega (
  arith,
  count-cons a z (y ∷ x ∷ owed),
  count-cons a y (x ∷ owed),
  count-cons a x owed,
  count-cons a x (y ∷ z ∷ owed),
  count-cons a y (z ∷ owed),
  count-cons a z owed,
)

three-IsReady :
    (x y z : ℕ)
    → (0 < count x (x ∷ y ∷ z ∷ []))
      × (0 < count y (x ∷ y ∷ z ∷ []))
      × (0 < count z (x ∷ y ∷ z ∷ []))
three-IsReady x y z = (
  omega (arith, count-cons x x (y ∷ z ∷ []), self x),
  omega (arith, count-cons y x (y ∷ z ∷ []), count-cons y y (z ∷ []), self y),
  omega (arith, count-cons z x (y ∷ z ∷ []), count-cons z y (z ∷ []), count-cons z z [], self z),
)
  where
    self : (k : ℕ) → ◌≡◌ {A = ℕ} (if k == k then 1 else 0) 1
    self k = ground arith

module _ (o : Objects) (m ids : ℕ) (owed running : List ℕ) (s : Scheduler) (pos : 0 < m)
    (room : m + 2 < word) (h : Growing m (suc (suc (suc ids))) owed running s) where
  abbrev Launched : AnyTask → Type 0
  Launched t =
      (t' : AnyTask) × (s' : Scheduler) × (create_any o t s ≡ some (t', s'))
      × Growing (m + 2) ids (commits_of t' ++ owed) running s'
      × IsReady t'
      × Extends (size_of t) s s'
      × IsInOrder t' s'
      × IsLaidOut t t'

  -- A process or a shuffle, whose tasks are made in a row.
  row_lem :
      (l a b c : ℕ) (t : AnyTask) (make : (x y z : ℕ) → AnyTask)
      → ((x y z : ℕ) → IsReady (make x y z))
      → ((x y z : ℕ) → commits_of (make x y z) ≡ x ∷ y ∷ z ∷ [])
      → size_of t ≡ 3
      → ((x y z : ℕ) → IsLaidOut t (make x y z))
      → ((x y z : ℕ) (s' : Scheduler)
          → IsLinked x y s'
          → IsLinked y z s'
          → IsInOrder (make x y z) s')
      → let (s₁, x) = create_physical_task l a any_worker s in
        let (s₂, y) = create_physical_task l b any_worker s₁ in
        let (s₃, z) = create_physical_task l c any_worker s₂ in
        ((s₄ s₅ : Scheduler)
          → add_dependency x y s₃ ≡ some s₄
          → add_dependency y z s₄ ≡ some s₅
          → create_any o t s ≡ some (make x y z, s₅))
        → Launched t
  row_lem l a b c t make ready commits size laid_out ordered run =
      let (s₁, x) = create_physical_task l a any_worker s in
      let (s₂, y) = create_physical_task l b any_worker s₁ in
      let (s₃, z) = create_physical_task l c any_worker s₂ in
      let (s₄, s₅, e₄, e₅, grown, extends, first, second) =
        three_lem l a b c m ids owed running s pos room h in
      let listed : Growing (m + 2) ids (x ∷ y ∷ z ∷ owed) running s₅ =
        Growing-respects (m + 2) (m + 2) ids ids (z ∷ y ∷ x ∷ owed) (x ∷ y ∷ z ∷ owed) running s₅
          (omega arith) (omega arith) (reversed x y z owed) grown in
      (
        make x y z,
        s₅,
        run s₄ s₅ e₄ e₅,
        subst (λ (q : List ℕ). Growing (m + 2) ids (q ++ owed) running s₅) (sym (commits x y z))
            listed,
        ready x y z,
        subst (λ (n : ℕ). Extends n s s₅) (sym size) extends,
        ordered x y z s₅ first second,
        laid_out x y z,
      )

  process_lem : (t : ProcessTask) → Launched (process_task t)
  unfolding create_any create_physical_tasks
  process_lem t =
      row_lem t.task_id (o.process global_initialize_command) (o.process process_barrier_command)
        (o.process global_finalize_command) (process_task t)
        (λ x y z. process_task (record t { entry_task = x; barrier_task = y; terminal_task = z }))
        (λ x y z.
          let (e, b, w) = three-IsReady x y z in
          IsReady-intro
            (process_task (record t { entry_task = x; barrier_task = y; terminal_task = z })) e b w)
        (λ x y z. refl) refl (λ x y z. refl) (λ x y z s' first second. (first, second))
        (λ s₄ s₅ e₄ e₅. rw (e₄, e₅) refl)

  shuffle_lem : (t : ShuffleTask) → Launched (shuffle_task t)
  unfolding create_any create_shuffle_tasks
  shuffle_lem t =
      row_lem t.task_id (o.shuffle no_command) (o.shuffle shuffle_barrier_command)
        (o.shuffle no_command) (shuffle_task t)
        (λ x y z. shuffle_task (record t { entry_task = x; barrier_task = y; terminal_task = z }))
        (λ x y z.
          let (e, b, w) = three-IsReady x y z in
          IsReady-intro
            (shuffle_task (record t { entry_task = x; barrier_task = y; terminal_task = z })) e b w)
        (λ x y z. refl) refl (λ x y z. refl) (λ x y z s' first second. (first, second))
        (λ s₄ s₅ e₄ e₅. rw (e₄, e₅) refl)

  gather_lem : (t : GatherTask) → Launched (gather_task t)
  unfolding create_any create_gather_task create_physical_task
  gather_lem t =
      let (grown, extends) =
        created-Growing t.task_id o.gather m (suc (suc ids)) owed running s pos h in
      let (s', x) = create_physical_task t.task_id o.gather any_worker s in
      let one : 0 < count x (x ∷ []) = ground (arith, count-cons x x [], ==_refl x) in
      (
        gather_task (record t { entry_task = x; barrier_task = x; terminal_task = x }),
        s',
        refl,
        Growing-respects m (m + 2) (suc (suc ids)) ids (x ∷ owed) (x ∷ owed) running s'
            (omega arith) (omega arith) (λ a. refl) grown,
        IsReady-intro
            (gather_task (record t { entry_task = x; barrier_task = x; terminal_task = x })) one one
            one,
        extends,
        (refl, refl),
        refl,
      )

  value_sort_lem : (t : ValueSortTask) → Launched (value_sort_task t)
  unfolding create_any create_value_sort_tasks
  value_sort_lem t =
      let (s₁, x) = create_physical_task t.task_id (o.shuffle no_command) any_worker s in
      let (s₂, y) = create_physical_task t.task_id (o.shuffle no_command) any_worker s₁ in
      let (h₁, p₁) =
        created-Growing t.task_id (o.shuffle no_command) m (suc (suc ids)) owed running s pos h in
      let (h₂, p₂) =
        created-Growing t.task_id (o.shuffle no_command) m (suc ids) (x ∷ owed) running s₁ pos h₁ in
      let (s₃, e, h₃, p₃, linked) =
        linked-Growing x y m (suc ids) (y ∷ x ∷ owed) running s₂
          (ground (arith, count-cons x y (x ∷ owed), count-cons x x owed, ==_refl x))
          (ground (arith, count-cons y y (x ∷ owed), ==_refl y)) (omega arith) h₂ in
      let first : 0 < count x (x ∷ y ∷ []) = ground (arith, count-cons x x (y ∷ []), ==_refl x) in
      let second : 0 < count y (x ∷ y ∷ []) =
        ground (arith, count-cons y x (y ∷ []), count-cons y y [], ==_refl y) in
      (
        value_sort_task (record t { entry_task = x; barrier_task = x; terminal_task = y }),
        s₃,
        rw e refl,
        Growing-respects (m + 1) (m + 2) (suc ids) ids (y ∷ x ∷ owed) (x ∷ y ∷ owed) running s₃
            (omega arith) (omega arith)
            (λ a. omega (
              arith,
              count-cons a y (x ∷ owed),
              count-cons a x owed,
              count-cons a x (y ∷ owed),
              count-cons a y owed,
            ))
            h₃,
        IsReady-intro
            (value_sort_task (record t { entry_task = x; barrier_task = x; terminal_task = y }))
            first first second,
        Extends-trans 1 1 2 s s₁ s₃ refl p₁ (Extends-trans 1 0 1 s₁ s₂ s₃ refl p₂ p₃),
        (refl, linked),
        refl,
      )

  pub create_any-Growing : (t : AnyTask) → Launched t
  create_any-Growing (process_task t) = process_lem t
  create_any-Growing (shuffle_task t) = shuffle_lem t
  create_any-Growing (gather_task t) = gather_lem t
  create_any-Growing (value_sort_task t) = value_sort_lem t

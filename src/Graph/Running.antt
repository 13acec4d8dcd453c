-- ===== src/Graph/Running.antt =====
-- The loops of `create_physical_tasks` in src/graph/logical_graph.cpp, and the whole.
use m3bp.Prelude.{
  ℕ, zero, suc, ◌+◌, ◌<◌, ◌≡◌, refl, ap, sym, append_assoc, subst, ◌∙◌, Option, some, List, [], ◌∷◌,
  ◌++◌, length, get_elem?, get_elem?_lt, ◌>>=◌, arith, word, count, count-append,
}
use m3bp.Graph.LogicalGraph.{PhysicalSuccessor, terminal, Edge}
use m3bp.Scheduler.State.{Places, Scheduler}
use m3bp.Scheduler.Operations.{commit_task}
use m3bp.Scheduler.Invariant.{Inv}
use m3bp.Scheduler.Decrement.{Draws}
use m3bp.Scheduler.Preservation.{commit_task-Inv}
use m3bp.Process.Kept.{commit_keeps}
use m3bp.Graph.Physical.{
  AnyTask, process_task, shuffle_task, gather_task, value_sort_task, Objects, commit_any,
  terminal_of, successor_of, create_all, link_all, commit_all, create_graph_tasks,
}
use m3bp.Process.Linked.{IsLinked-kept, commit_task-KeepsEdges}
use m3bp.Graph.Bounded.{Growing, Extends, Extends-refl, Extends-trans, linked-Growing}
use m3bp.Graph.Ordered.{
  size_of, size_of_all, IsInOrder-kept, AllInOrder, AllInOrder-kept, AllLaidOut, AllJoined,
  AllJoined-kept,
}
use m3bp.Graph.Launch.{commits_of, IsReady, Growing-respects, create_any-Growing}

abbrev all_commits : List AnyTask → List ℕ
all_commits [] = []
all_commits (t ∷ tasks) = commits_of t ++ all_commits tasks

abbrev AllReady : List AnyTask → Type 0
AllReady [] = Unit
AllReady (t ∷ tasks) = IsReady t × AllReady tasks

-- At most two counters are raised, and three identifiers taken, for each task.
abbrev pub two_each : List AnyTask → ℕ
two_each [] = 0
two_each (t ∷ tasks) = two_each tasks + 2

abbrev pub three_each : List AnyTask → ℕ
three_each [] = 0
three_each (t ∷ tasks) = suc (suc (suc (three_each tasks)))

-- The ends of the edges exist.
abbrev pub AllJoin : ℕ → List Edge → Type 0
AllJoin n [] = Unit
AllJoin n (e ∷ edges) = ((e.producer.task_id < n) × (e.consumer.task_id < n)) × AllJoin n edges

create_all-Growing :
    (o : Objects) (tasks : List AnyTask) (m : ℕ) (owed running : List ℕ) (s : Scheduler)
    → 0 < m
    → m + two_each tasks < word
    → Growing m (three_each tasks) owed running s
    → (tasks' : List AnyTask) × (s' : Scheduler) × (create_all o tasks s ≡ some (tasks', s'))
      × Growing (m + two_each tasks) 0 (all_commits tasks' ++ owed) running s'
      × AllReady tasks'
      × (length tasks' ≡ length tasks)
      × Extends (size_of_all tasks) s s'
      × AllInOrder tasks' s'
      × AllLaidOut tasks tasks'
unfolding create_all
create_all-Growing o [] m owed running s pos room h = (
  [],
  s,
  refl,
  subst (λ (k : ℕ). Growing k 0 owed running s) (omega arith) h,
  tt,
  refl,
  Extends-refl s,
  tt,
  tt,
)
create_all-Growing o (t ∷ tasks) m owed running s pos room h =
    let (t', s₁, e, h₁, ready, extends, ordered, laid_out) =
      create_any-Growing o m (three_each tasks) owed running s pos (omega arith) h t in
    let (tasks', s₂, e', h₂, readies, same, extends', all_ordered, all_laid_out) =
      create_all-Growing o tasks (m + 2) (commits_of t' ++ owed) running s₁ (omega arith)
        (omega arith) h₁ in
    (
      t' ∷ tasks',
      s₂,
      rw (e, e') refl,
      Growing-respects (m + 2 + two_each tasks) (m + (two_each tasks + 2)) 0 0
          (all_commits tasks' ++ (commits_of t' ++ owed))
          (commits_of t' ++ all_commits tasks' ++ owed) running s₂ (omega arith) (omega arith)
          (λ a. omega (
            arith,
            count-append a (all_commits tasks') (commits_of t' ++ owed),
            count-append a (commits_of t') owed,
            count-append a (commits_of t' ++ all_commits tasks') owed,
            count-append a (commits_of t') (all_commits tasks'),
          ))
          h₂,
      (ready, readies),
      ap suc same,
      Extends-trans (size_of t) (size_of_all tasks) _ s s₁ s₂ refl extends extends',
      (IsInOrder-kept t' s₁ s₂ extends'.edges ordered, all_ordered),
      (laid_out, all_laid_out),
    )

ready_count :
    (tasks : List AnyTask) (i : ℕ) (t : AnyTask) (w : PhysicalSuccessor)
    → AllReady tasks
    → get_elem? tasks i ≡ some t
    → 0 < count (successor_of w t) (all_commits tasks)
ready_count [] i t w ready e = absurd (ground arith)
ready_count (u ∷ tasks) zero t w ready e =
    let same : u ≡ t = cc in
    let mine : 0 < count (successor_of w t) (commits_of u) =
      subst (λ (x : AnyTask). 0 < count (successor_of w x) (commits_of u)) same (ready.0 w) in
    omega (arith, count-append (successor_of w t) (commits_of u) (all_commits tasks))
ready_count (u ∷ tasks) (suc i) t w ready e = omega (
  arith,
  count-append (successor_of w t) (commits_of u) (all_commits tasks),
  ready_count tasks i t w ready.1 e,
)

link_all-Growing :
    (edges : List Edge) (tasks : List AnyTask) (m : ℕ) (owed running : List ℕ) (s : Scheduler)
    → AllReady tasks
    → AllJoin (length tasks) edges
    → m + length edges < word
    → Growing m 0 (all_commits tasks ++ owed) running s
    → (s' : Scheduler) × (link_all edges tasks s ≡ some s')
      × Inv (all_commits tasks ++ owed) running s'
      × Extends 0 s s'
      × AllJoined edges tasks s'
unfolding link_all
link_all-Growing [] tasks m owed running s ready join room h = (s, refl, h.inv, Extends-refl s, tt)
link_all-Growing (e ∷ edges) tasks m owed running s ready ((made, used), join) room h =
    let (producer, f) = get_elem?_lt tasks e.producer.task_id made in
    let (consumer, g) = get_elem?_lt tasks e.consumer.task_id used in
    let w = e.physical_successor in
    let (s₁, linked, h₁, extends, is_linked) =
      linked-Growing (terminal_of producer) (successor_of w consumer) m 0
        (all_commits tasks ++ owed) running s
        (omega (
          arith,
          count-append (terminal_of producer) (all_commits tasks) owed,
          ready_count tasks e.producer.task_id producer terminal ready f,
        ))
        (omega (
          arith,
          count-append (successor_of w consumer) (all_commits tasks) owed,
          ready_count tasks e.consumer.task_id consumer w ready g,
        ))
        (omega arith) h in
    let (s₂, rest, inv, extends', joined) =
      link_all-Growing edges tasks (m + 1) owed running s₁ ready join (omega arith) h₁ in
    (
      s₂,
      rw (f, g, linked) rest,
      inv,
      Extends-trans 0 0 0 s s₁ s₂ refl extends extends',
      (
        record {
          producer = producer;
          consumer = consumer;
          made = f;
          used = g;
          linked = IsLinked-kept _ _ s₁ s₂ extends'.edges is_linked;
        },
        joined,
      ),
    )

module _ (draw : ℕ → ℕ) (running : List ℕ) where
  -- A commit that is owed is made.
  abbrev Made : (Scheduler → Option Scheduler) → List ℕ → List ℕ → Type 0
  Made commit before after =
      (s : Scheduler)
      → Draws draw s
      → Inv before running s
      → (s' : Scheduler) × (commit s ≡ some s') × Inv after running s' × Extends 0 s s'

  settle_one : (id : ℕ) (owed : List ℕ) → Made (commit_task draw id) (id ∷ owed) owed
  settle_one id owed s draws inv =
      let (s', e, inv', _) = commit_task-Inv draw id owed running s draws inv in
      let (names, _) = commit_keeps draw id (id + 1) s s' (ground arith) e in
      (
        s',
        e,
        inv',
        record {
          places_same = names.places_same;
          created = names.created_same ∙ omega arith;
          edges = commit_task-KeepsEdges draw id s s' e;
        },
      )

  settle_then :
      (f g : Scheduler → Option Scheduler) (xs ys zs : List ℕ)
      → Made f xs ys
      → Made g ys zs
      → Made (λ s. f s >>= g) xs zs
  settle_then f g xs ys zs first second s draws inv =
      let (s₁, e₁, inv₁, p₁) = first s draws inv in
      let (s₂, e₂, inv₂, p₂) =
        second s₁
          (λ k. omega (arith, draws k, ap (λ (p : Places). p.max_concurrency) p₁.places_same))
          inv₁ in
      (s₂, rw e₁ e₂, inv₂, Extends-trans 0 0 0 s s₁ s₂ refl p₁ p₂)

  settle_three :
      (x y z : ℕ) (owed : List ℕ)
      → Made
          (λ s. commit_task draw x s >>= (λ u. commit_task draw y u >>= commit_task draw z))
          (x ∷ y ∷ z ∷ owed)
          owed
  settle_three x y z owed =
      settle_then (commit_task draw x) (λ u. commit_task draw y u >>= commit_task draw z)
        (x ∷ y ∷ z ∷ owed) (y ∷ z ∷ owed) owed (settle_one x (y ∷ z ∷ owed))
        (settle_then (commit_task draw y) (commit_task draw z) (y ∷ z ∷ owed) (z ∷ owed) owed
          (settle_one y (z ∷ owed)) (settle_one z owed))

  commit_any-Inv :
      (t : AnyTask) (owed : List ℕ) → Made (commit_any draw t) (commits_of t ++ owed) owed
  unfolding commit_any
  commit_any-Inv (process_task t) owed =
      settle_three t.entry_task t.barrier_task t.terminal_task owed
  commit_any-Inv (shuffle_task t) owed =
      settle_three t.entry_task t.barrier_task t.terminal_task owed
  commit_any-Inv (gather_task t) owed = settle_one t.entry_task owed
  commit_any-Inv (value_sort_task t) owed =
      settle_then (commit_task draw t.entry_task) (commit_task draw t.terminal_task)
        (t.entry_task ∷ t.terminal_task ∷ owed) (t.terminal_task ∷ owed) owed
        (settle_one t.entry_task (t.terminal_task ∷ owed)) (settle_one t.terminal_task owed)

  commit_all-Inv :
      (tasks : List AnyTask) (owed : List ℕ)
      → Made (commit_all draw tasks) (all_commits tasks ++ owed) owed
  unfolding commit_all
  commit_all-Inv [] owed = λ s draws inv. (s, refl, inv, Extends-refl s)
  commit_all-Inv (t ∷ tasks) owed =
      settle_then (commit_any draw t) (commit_all draw tasks)
        (commits_of t ++ all_commits tasks ++ owed) (all_commits tasks ++ owed) owed
        (λ s draws inv. commit_any-Inv t (all_commits tasks ++ owed) s draws (
          subst (λ (l : List ℕ). Inv l running s)
            (append_assoc (commits_of t) (all_commits tasks) owed) inv))
        (commit_all-Inv tasks owed)

-- Under the invariant, with draws in range, edges between tasks that exist, and room in counters
-- and identifiers, `create_physical_tasks` succeeds: the physical tasks of all components are
-- created, so many as their classes have and no other; in each, the entry task is before the barrier
-- and the barrier before the terminal task, where it has them; for each edge of the graph, the
-- terminal task of the producer is before the task of the consumer that the edge names; no
-- decrement is owed for the tasks any more, the tasks are the given ones in their order but for the
-- physical tasks that they name, and the invariant of the scheduler holds.
pub create_graph_tasks-Inv :
    (o : Objects) (draw : ℕ → ℕ) (tasks : List AnyTask) (edges : List Edge) (m : ℕ)
    (owed running : List ℕ) (s : Scheduler)
    → Draws draw s
    → 0 < m
    → m + two_each tasks + length edges < word
    → AllJoin (length tasks) edges
    → Growing m (three_each tasks) owed running s
    → (tasks' : List AnyTask) × (s' : Scheduler) × (create_graph_tasks o draw tasks edges s
        ≡ some (tasks', s'))
      × (length tasks' ≡ length tasks)
      × (s'.created_task_count ≡ s.created_task_count + size_of_all tasks)
      × AllInOrder tasks' s'
      × AllJoined edges tasks' s'
      × AllLaidOut tasks tasks'
      × Inv owed running s'
unfolding create_graph_tasks
create_graph_tasks-Inv o draw tasks edges m owed running s draws pos room join h =
    let (tasks', s₁, e₁, h₁, ready, same, p₁, ordered, laid_out) =
      create_all-Growing o tasks m owed running s pos (omega arith) h in
    let (s₂, e₂, inv₂, p₂, joined) =
      link_all-Growing edges tasks' (m + two_each tasks) owed running s₁ ready
        (subst (λ (n : ℕ). AllJoin n edges) (sym same) join) room h₁ in
    let (s₃, e₃, inv₃, p₃) =
      commit_all-Inv draw running tasks' owed s₂
        (λ k. omega (
          arith,
          draws k,
          ap (λ (p : Places). p.max_concurrency) (p₂.places_same ∙ p₁.places_same),
        ))
        inv₂ in
    (
      tasks',
      s₃,
      rw (e₁, e₂, e₃) refl,
      same,
      omega (arith, p₁.created, p₂.created, p₃.created),
      AllInOrder-kept tasks' s₂ s₃ p₃.edges (AllInOrder-kept tasks' s₁ s₂ p₂.edges ordered),
      AllJoined-kept edges tasks' s₂ s₃ p₃.edges joined,
      laid_out,
      inv₃,
    )

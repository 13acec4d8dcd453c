-- ===== src/Graph/Edges.antt =====
-- Tasks and edges added to the logical graph of src/graph/logical_graph.cpp keep it in order.
use m3bp.Prelude.{
  ℕ, zero, suc, ◌+◌, ◌<◌, ◌≤◌, ◌≡◌, refl, some, List, [], ◌∷◌, ◌++◌, length, get_elem?, arith,
  get_or, set, replicate, ap, ◌-◌, ◌==◌, false, length-replicate, get_or-set_self, get_or-set_other,
  get_or-padded, length-append, ◌⊎◌, inl, inr, ◌∙◌,
}
use m3bp.Graph.LogicalGraph.{
  LogicalTask, Port, Edge, PhysicalSuccessor, LogicalGraph, add_logical_task, add_edge, modify_task,
  add_successor, resize_up,
}

abbrev pub task_count : LogicalGraph → ℕ
task_count g = length g.logical_tasks

abbrev pub EdgesWithin : ℕ → List Edge → Type 0
EdgesWithin n [] = Unit
EdgesWithin n (e ∷ es) = (e.producer.task_id < n) × (e.consumer.task_id < n) × EdgesWithin n es

-- A task stands at its own identifier, and each edge joins tasks that exist.
pub record IsGraph (g : LogicalGraph) : Type 0 where
  pub numbered : (i : ℕ) (t : LogicalTask) → get_elem? g.logical_tasks i ≡ some t → t.task_id ≡ i
  pub within : EdgesWithin (task_count g) g.edges

EdgesWithin-mono : (m n : ℕ) (es : List Edge) → m ≤ n → EdgesWithin m es → EdgesWithin n es
EdgesWithin-mono m n [] h w = tt
EdgesWithin-mono m n (e ∷ es) h w = (omega arith, omega arith, EdgesWithin-mono m n es h w.2)

EdgesWithin-snoc :
    (n : ℕ) (es : List Edge) (e : Edge)
    → e.producer.task_id < n
    → e.consumer.task_id < n
    → EdgesWithin n es
    → EdgesWithin n (es ++ e ∷ [])
EdgesWithin-snoc n [] e p c w = (p, c, tt)
EdgesWithin-snoc n (x ∷ es) e p c w = (w.0, w.1, EdgesWithin-snoc n es e p c w.2)

get_elem?-snoc :
    (ts : List LogicalTask) (x t : LogicalTask) (i : ℕ)
    → get_elem? (ts ++ x ∷ []) i ≡ some t
    → (get_elem? ts i ≡ some t) ⊎ (i ≡ length ts) × (t ≡ x)
get_elem?-snoc [] x t zero e = inr (refl, ground arith)
get_elem?-snoc [] x t (suc i) e = absurd (ground arith)
get_elem?-snoc (y ∷ ts) x t zero e = inl e
get_elem?-snoc (y ∷ ts) x t (suc i) e = elim (get_elem?-snoc ts x t i e) [
  | inl old ↦ inl old
  | inr (at, new) ↦ inr (omega arith, new)
]

length-modify_task :
    (i : ℕ) (f : LogicalTask → LogicalTask) (ts : List LogicalTask)
    → length (modify_task i f ts) ≡ length ts
unfolding modify_task
length-modify_task i f [] = refl
length-modify_task zero f (t ∷ ts) = refl
length-modify_task (suc i) f (t ∷ ts) = omega (arith, length-modify_task i f ts)

get_elem?-modify_task :
    (k i : ℕ) (f : LogicalTask → LogicalTask) (ts : List LogicalTask) (t : LogicalTask)
    → ((x : LogicalTask) → (f x).task_id ≡ x.task_id)
    → get_elem? (modify_task k f ts) i ≡ some t
    → (u : LogicalTask) × (get_elem? ts i ≡ some u) × (t.task_id ≡ u.task_id)
unfolding modify_task
get_elem?-modify_task k i f [] t keep e = absurd (ground arith)
get_elem?-modify_task zero zero f (x ∷ ts) t keep e = (x, refl, ground (arith, keep x))
get_elem?-modify_task zero (suc i) f (x ∷ ts) t keep e = (t, e, refl)
get_elem?-modify_task (suc k) zero f (x ∷ ts) t keep e = (t, e, refl)
get_elem?-modify_task (suc k) (suc i) f (x ∷ ts) t keep e = get_elem?-modify_task k i f ts t keep e

pub add_logical_task-IsGraph :
    (t : LogicalTask) (g : LogicalGraph)
    → IsGraph g
    → let (g', id) = add_logical_task t g in
      IsGraph g' × (id ≡ task_count g) × (task_count g' ≡ task_count g + 1)
unfolding add_logical_task
add_logical_task-IsGraph t g ok =
    let size : length (g.logical_tasks ++ record t { task_id = task_count g } ∷ [])
        ≡ task_count g + 1 =
      omega (arith, length-append g.logical_tasks (record t { task_id = task_count g } ∷ [])) in
    (
      record {
        numbered = λ i u e.
            elim (get_elem?-snoc g.logical_tasks (record t { task_id = task_count g }) u i e) [
              | inl old ↦ ok.numbered i u old
              | inr (at, new) ↦ ground arith
            ];
        within = EdgesWithin-mono (task_count g) _ g.edges (omega (arith, size)) ok.within;
      },
      refl,
      size,
    )

add_successor_keeps_id : (d q s : ℕ) (t : LogicalTask) → (add_successor d q s t).task_id ≡ t.task_id
unfolding add_successor
add_successor_keeps_id d q s t = refl

at-modify_task :
    (i : ℕ) (f : LogicalTask → LogicalTask) (ts : List LogicalTask)
    → i < length ts
    → (t : LogicalTask) × (get_elem? ts i ≡ some t) × (modify_task i f ts ≡ set ts i (f t))
unfolding modify_task
at-modify_task i f [] h = elim h [ ]
at-modify_task zero f (t ∷ ts) h = (t, refl, refl)
at-modify_task (suc i) f (x ∷ ts) h =
    let (t, e, same) = at-modify_task i f ts (omega arith) in
    (t, e, ap (λ (l : List LogicalTask). x ∷ l) same)

-- The producer has a successor more at its port: the last there, and no other port has changed.
pub record HasSuccessor (p c : Port) (t t' : LogicalTask) : Type 0 where
  pub last :
      get_or t'.successors p.port_id []
      ≡ get_or t.successors p.port_id [] ++ (c.task_id, c.port_id) ∷ []
  pub others :
      (q : ℕ) → (q == p.port_id) ≡ false → get_or t'.successors q [] ≡ get_or t.successors q []
  pub same_id : t'.task_id ≡ t.task_id

-- What an edge adds to a graph: it is the last of the edges, the producer has a successor more, and
-- no other task changes.
pub record IsJoined (p c : Port) (succ : PhysicalSuccessor) (g g' : LogicalGraph) : Type 0 where
  pub edges :
      g'.edges ≡ g.edges ++ record { producer = p; consumer = c; physical_successor = succ } ∷ []
  pub task : LogicalTask
  pub task' : LogicalTask
  pub before : get_elem? g.logical_tasks p.task_id ≡ some task
  pub tasks : g'.logical_tasks ≡ set g.logical_tasks p.task_id task'
  pub successor : HasSuccessor p c task task'

add_successor_lem :
    (p c : Port) (t : LogicalTask)
    → HasSuccessor p c t (add_successor c.task_id c.port_id p.port_id t)
unfolding add_successor
add_successor_lem p c t =
    let q = p.port_id in
    let ports = resize_up (q + 1) t.successors in
    let room : q < length ports = omega (
      arith,
      length-append t.successors (replicate (q + 1 - length t.successors) []),
      length-replicate {A = List (ℕ × ℕ)} (q + 1 - length t.successors) [],
    ) in
    let grown : (i : ℕ) → get_or ports i [] ≡ get_or t.successors i [] =
      λ i. get_or-padded t.successors (q + 1 - length t.successors) i [] in
    record {
      last =
          get_or-set_self ports q (get_or ports q [] ++ (c.task_id, c.port_id) ∷ []) [] room
          ∙ ap (λ (l : List (ℕ × ℕ)). l ++ (c.task_id, c.port_id) ∷ []) (grown q);
      others = λ i other.
          get_or-set_other ports q i (get_or ports q [] ++ (c.task_id, c.port_id) ∷ []) [] other
          ∙ grown i;
      same_id = refl;
    }

-- In a graph whose tasks stand at their identifiers and whose edges join tasks that exist, an edge
-- between two tasks that exist can be added: the graph stays so, the edge is the last of its
-- edges, the consumer is the last successor at the port of the producer, where nothing else of its
-- successors changes, and no other task changes.
pub add_edge-IsGraph :
    (p c : Port) (succ : PhysicalSuccessor) (g : LogicalGraph)
    → IsGraph g
    → p.task_id < task_count g
    → c.task_id < task_count g
    → (g' : LogicalGraph) × (add_edge p c succ g ≡ some g')
      × IsGraph g'
      × (task_count g' ≡ task_count g)
      × IsJoined p c succ g g'
unfolding add_edge
add_edge-IsGraph p c succ g ok hp hc =
    let f = add_successor c.task_id c.port_id p.port_id in
    let size = length-modify_task p.task_id f g.logical_tasks in
    let (t, here, same_tasks) = at-modify_task p.task_id f g.logical_tasks hp in
    (
      record {
        logical_tasks = modify_task p.task_id f g.logical_tasks;
        edges = g.edges ++ record { producer = p; consumer = c; physical_successor = succ } ∷ [];
      },
      ground arith,
      record {
        numbered = λ i u e.
            let (x, old, same) =
              get_elem?-modify_task p.task_id i f g.logical_tasks u
                (add_successor_keeps_id c.task_id c.port_id p.port_id) e in
            same ∙ ok.numbered i x old;
        within =
            EdgesWithin-mono (task_count g) _ _ (omega (arith, size))
              (EdgesWithin-snoc (task_count g) g.edges _ hp hc ok.within);
      },
      size,
      record {
        edges = refl;
        task = t;
        task' = f t;
        before = here;
        tasks = same_tasks;
        successor = add_successor_lem p c t;
      },
    )

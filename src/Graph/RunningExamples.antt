-- ===== src/Graph/RunningExamples.antt =====
-- A shuffle that is followed by a gather, on one worker.
use m3bp.Prelude.{ℕ, ◌≡◌, refl, some, List, [], ◌∷◌, length, arith, max_id}
use m3bp.Prelude.Table.{find}
use m3bp.Graph.LogicalGraph.{entry, Edge}
use m3bp.Scheduler.State.{Places, Scheduler, PhysicalVertex}
use m3bp.Scheduler.Operations.{init}
use m3bp.Scheduler.Invariant.{IsPlaces, Inv}
use m3bp.Scheduler.Preservation.{init-Inv}
use m3bp.Graph.Physical.{AnyTask, shuffle_task, gather_task, Objects, create_graph_tasks}
use m3bp.Graph.Bounded.{Growing}
use m3bp.Graph.Ordered.{AllInOrder, AllLaidOut, AllJoined}
use m3bp.Graph.Running.{three_each, create_graph_tasks-Inv}

abbrev one_worker : Places
one_worker = record { max_concurrency = 1; node_count = 1; thread_mapping = λ _. some 0 }

one_worker-IsPlaces : IsPlaces one_worker
one_worker-IsPlaces = record { mapped = λ w h. (0, refl, omega arith) }

abbrev two_tasks : List AnyTask
two_tasks =
    shuffle_task (record {
      task_id = 0;
      entry_task = max_id;
      barrier_task = max_id;
      terminal_task = max_id;
      partition_count = 2;
      partitioned_buffers = [];
    })
    ∷ gather_task (record {
      task_id = 1;
      entry_task = max_id;
      barrier_task = max_id;
      terminal_task = max_id;
      inputs = [];
    })
    ∷ []

abbrev one_edge : List Edge
one_edge =
    record {
      producer = record { task_id = 0; port_id = 0 };
      consumer = record { task_id = 1; port_id = 0 };
      physical_successor = entry;
    }
    ∷ []

no_vertex :
    {A : Type 0} (a : ℕ) (v : PhysicalVertex) → find a (init one_worker).vertices ≡ some v → A
unfolding init find
no_vertex a v f = absurd (ground arith)

init-Growing : Growing 1 (three_each two_tasks) [] [] (init one_worker)
unfolding init
init-Growing = record {
  inv = init-Inv one_worker one_worker-IsPlaces;
  bound = record { bounded = λ a v f. no_vertex a v f };
  identifiers = omega arith;
}

abbrev seven : Objects
seven = record { process = λ _. 7; shuffle = λ _. 7; gather = 7 }

abbrev first : ℕ → ℕ
first _ = 0

create_graph_tasks-Inv_example :
    (tasks' : List AnyTask) × (s' : Scheduler) × (create_graph_tasks seven first two_tasks one_edge
        (init one_worker)
      ≡ some (tasks', s'))
    × (length tasks' ≡ 2)
    × (s'.created_task_count ≡ 4)
    × AllInOrder tasks' s'
    × AllJoined one_edge tasks' s'
    × AllLaidOut two_tasks tasks'
    × Inv [] [] s'
unfolding init
create_graph_tasks-Inv_example =
    create_graph_tasks-Inv seven first two_tasks one_edge 1 [] [] (init one_worker)
      (λ k. omega arith) (omega arith) (omega arith) ((omega arith, omega arith), tt) init-Growing

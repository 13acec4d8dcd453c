-- ===== src/Scheduler/TaskList.antt =====
-- src/scheduler/physical_task_list.cpp: a deque of tasks behind a mutex. Each operation is one
-- critical section, so it is a function of the deque.
use m3bp.Prelude.{Option, none, some, List, [], ◌∷◌, ◌++◌}

module _ {ℓ} {A : Type ℓ} where
  abbrev pub push_front : A → List A → List A
  push_front task deque = task ∷ deque

  abbrev pub push_back : A → List A → List A
  push_back task deque = deque ++ task ∷ []

  -- A null pointer stands for "no task".
  unfoldable pub pop_front : List A → Option A × List A
  pop_front [] = (none, [])
  pop_front (task ∷ rest) = (some task, rest)

  unfoldable pub pop_back : List A → Option A × List A
  pop_back [] = (none, [])
  pop_back (task ∷ []) = (some task, [])
  pop_back (task ∷ next ∷ rest) = let (last, front) = pop_back (next ∷ rest) in (last, task ∷ front)

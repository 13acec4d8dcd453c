-- ===== src/Process/Bodies.antt =====
-- The bodies of the commands of src/tasks/process: a call of the processor, and what it means for
-- the other commands.
use m3bp.Prelude.{
  ℕ, Bool, Option, none, some, List, [], ◌∷◌, length, set, ltb, if◌then◌else◌, ◌>>=◌,
}
use m3bp.Scheduler.Locality.{Locality}
use m3bp.Scheduler.State.{Scheduler}
use m3bp.Process.State.{Call, ProcessTask}
use m3bp.Process.Calls.{Ran, returned, raised, initialize_processor, run}
use m3bp.Process.Commands.{notify_completion}

-- `after` is `after_global_initialize` of the kind of task: it is not reached when the processor
-- is initialized already, or raises.
unfoldable pub global_initialize :
    (Call → Bool)
    → (ProcessTask → Scheduler → Option (ProcessTask × Scheduler))
    → Locality
    → List (Option ℕ)
    → ProcessTask
    → Scheduler
    → Option (Ran × Scheduler)
unfolding initialize_processor
global_initialize raises after locality mobjs t s =
    if t.global_initialized then some (returned t, s) else do
      ready ← initialize_processor raises locality mobjs t
      elim ready [
        | raised u ↦ some (raised u, s)
        | returned u ↦ do r ← after u s; some (returned r.0, r.1)
      ]

-- `ProcessCommandWrapper::run`: the next command is committed only if this one does not raise.
unfoldable pub run_process_command :
    (ℕ → ℕ) → (ProcessTask → Option Ran) → ProcessTask → Scheduler → Option (Ran × Scheduler)
unfolding notify_completion
run_process_command draw command t s = do
  ran ← command t
  elim ran [
    | raised u ↦ some (raised u, s)
    | returned u ↦ do r ← notify_completion draw u s; some (returned r.0, r.1)
  ]

-- The bodies. `mobjs` are the locked broadcast inputs, one for each port or null.
unfoldable pub run_one_to_one :
    (Call → Bool)
    → Locality
    → (physical_task_id port : ℕ) → (input : Option ℕ) → List (Option ℕ)
    → ProcessTask
    → Option Ran
unfolding run
run_one_to_one raises locality physical_task_id port input mobjs t =
    if ltb port (length mobjs)
    then run raises locality physical_task_id (set mobjs port input) t
    else none

-- A port has a broadcast input or a shuffled one, not both.
unfoldable pub merge_inputs : (locked mobjs : List (Option ℕ)) → Option (List (Option ℕ))
merge_inputs [] [] = some []
merge_inputs [] (b ∷ mobjs) = none
merge_inputs (a ∷ locked) [] = none
merge_inputs (none ∷ locked) (some b ∷ mobjs) = do
  rest ← merge_inputs locked mobjs
  some (some b ∷ rest)
merge_inputs (some a ∷ locked) (some b ∷ mobjs) = none
merge_inputs (a ∷ locked) (none ∷ mobjs) = do rest ← merge_inputs locked mobjs; some (a ∷ rest)

unfoldable pub run_scatter_gather :
    (Call → Bool)
    → Locality
    → (partition : ℕ) → (locked mobjs : List (Option ℕ)) → ProcessTask
    → Option Ran
unfolding merge_inputs run
run_scatter_gather raises locality partition locked mobjs t = do
  inputs ← merge_inputs locked mobjs
  run raises locality partition inputs t

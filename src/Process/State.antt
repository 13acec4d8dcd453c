-- ===== src/Process/State.antt =====
-- The state of src/tasks/process/process_task_base.hpp, and the objects that a processor is called
-- with (src/api/internal/task_impl.hpp).
use m3bp.Prelude.{
  ℕ, Bool, false, Option, none, some, List, [], ◌∷◌, length, replicate, ◌>>=◌, max_id,
}
use m3bp.Graph.FlowGraph.{InputPort, OutputPort}
use m3bp.Memory.Manager.{MemoryReference, null_reference}
use m3bp.Scheduler.Locality.{Locality}

-- What a processor sees: the buffers of its input ports, and whether its outputs have keys. A
-- locked reference is the address of its object.
pub record TaskObject : Type 0 where
  pub logical_task_id : ℕ
  pub physical_task_id : ℕ
  pub current_locality : Locality
  pub inputs : List (Option ℕ)
  pub outputs : List Bool
  pub is_cancelled : Bool

-- The calls of ProcessorBase.
pub data Call : Type 0 where
  global_initialize_called global_finalize_called : TaskObject → Call
  thread_local_initialize_called thread_local_finalize_called : TaskObject → Call
  run_called : TaskObject → Call

-- `calls` are those made so far, the last one first. `entry_task` and the other two are the tasks
-- of the logical task in the scheduler.
pub record ProcessTask : Type 0 where
  pub task_id : ℕ
  pub entry_task : ℕ
  pub barrier_task : ℕ
  pub terminal_task : ℕ
  pub input_ports : List InputPort
  pub output_ports : List OutputPort
  pub global_initialized : Bool
  pub thread_local_initialized : List Bool
  pub broadcast_inputs : List MemoryReference
  pub remaining_concurrency : ℕ
  pub task_queue : List ℕ
  pub calls : List Call

-- The constructor, for a processor with these ports and `max_concurrency`.
unfoldable pub new_process_task :
    List InputPort → List OutputPort → (max_concurrency worker_count : ℕ) → ProcessTask
new_process_task input_ports output_ports max_concurrency worker_count = record {
  task_id = max_id;
  entry_task = max_id;
  barrier_task = max_id;
  terminal_task = max_id;
  input_ports = input_ports;
  output_ports = output_ports;
  global_initialized = false;
  thread_local_initialized = replicate worker_count false;
  broadcast_inputs = replicate (length input_ports) null_reference;
  remaining_concurrency = max_concurrency;
  task_queue = [];
  calls = [];
}

-- `input_buffers[i]` for each port: the array has to be long enough.
abbrev pub task_inputs : List InputPort → List (Option ℕ) → Option (List (Option ℕ))
task_inputs [] buffers = some []
task_inputs (p ∷ ports) [] = none
task_inputs (p ∷ ports) (b ∷ buffers) = do rest ← task_inputs ports buffers; some (b ∷ rest)

abbrev pub task_outputs : List OutputPort → List Bool
task_outputs [] = []
task_outputs (p ∷ ports) = p.has_key ∷ task_outputs ports

unfoldable pub create_task_object :
    ProcessTask → List (Option ℕ) → (physical_task_id : ℕ) → Bool → Locality → Option TaskObject
create_task_object t input_buffers physical_task_id is_cancelled locality = do
  inputs ← task_inputs t.input_ports input_buffers
  some (record {
    logical_task_id = t.task_id;
    physical_task_id = physical_task_id;
    current_locality = locality;
    inputs = inputs;
    outputs = task_outputs t.output_ports;
    is_cancelled = is_cancelled;
  })

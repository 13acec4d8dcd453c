-- ===== src/Process/Calls.antt =====
-- The methods of src/tasks/process/process_task_base.cpp that call the processor. The processor is
-- the client's: `raises` tells of each call whether it throws. `none` is a failed assert or an
-- access out of range.
use m3bp.Prelude.{
  ℕ, Bool, true, false, Option, none, some, List, [], ◌∷◌, length, get_elem?, replicate, set,
  if◌then◌else◌, ◌>>=◌, not,
}
use m3bp.Scheduler.Locality.{Locality}
use m3bp.Process.State.{
  Call, global_initialize_called, global_finalize_called, thread_local_initialize_called,
  thread_local_finalize_called, run_called, ProcessTask, create_task_object,
}

-- How a method ends: it returns, or an exception leaves it.
pub data Ran : Type 0 where
  returned raised : ProcessTask → Ran

abbrev pub after : Ran → ProcessTask
after (returned t) = t
after (raised t) = t

-- A call of the processor, and what follows if it returns.
unfoldable pub call : (Call → Bool) → Call → ProcessTask → (ProcessTask → Ran) → Ran
call raises c t next =
    let t' : ProcessTask = record t { calls = c ∷ t.calls } in
    if raises c then raised t' else next t'

abbrev pub default_locality : Locality
default_locality = record { self_thread_id = 0; self_node_id = 0 }

-- As many null references as there are broadcast inputs.
abbrev pub no_buffers : ProcessTask → List (Option ℕ)
no_buffers t = replicate (length t.broadcast_inputs) none

unfoldable pub initialize_processor :
    (Call → Bool) → Locality → List (Option ℕ) → ProcessTask → Option Ran
unfolding create_task_object call
initialize_processor raises locality mobjs t =
    if t.global_initialized then some (returned t) else do
      task ← create_task_object t mobjs 0 false locality
      some (
          call raises (global_initialize_called task) t
            (λ u. returned (record u { global_initialized = true })))

unfoldable pub global_finalize :
    (Call → Bool) → Locality → List (Option ℕ) → ProcessTask → Option Ran
unfolding create_task_object call
global_finalize raises locality mobjs t = if not t.global_initialized then some (returned t) else do
  let u : ProcessTask = record t { global_initialized = false }
  task ← create_task_object u mobjs 0 false locality
  some (
      call raises (global_finalize_called task) u
        (λ v. returned (record v { broadcast_inputs = [] })))

unfoldable pub global_cancel : (Call → Bool) → ProcessTask → Option Ran
unfolding create_task_object call
global_cancel raises t = if not t.global_initialized then some (returned t) else do
  let u : ProcessTask = record t { global_initialized = false }
  task ← create_task_object u (no_buffers u) 0 true default_locality
  some (
      call raises (global_finalize_called task) u
        (λ v. returned (record v { broadcast_inputs = [] })))

unfoldable pub thread_local_initialize :
    (Call → Bool) → Locality → List (Option ℕ) → ProcessTask → Option Ran
unfolding create_task_object call
thread_local_initialize raises locality mobjs t = do
  let tid = locality.self_thread_id
  flag ← get_elem? t.thread_local_initialized tid
  if flag then some (returned t) else (do
    task ← create_task_object t mobjs 0 false locality
    some (
        call raises (thread_local_initialize_called task) t (λ u.
          returned
            (record u { thread_local_initialized = set u.thread_local_initialized tid true }))))

-- The flag is cleared before the processor is called.
unfoldable pub finalize_thread :
    (Call → Bool) → Locality → List (Option ℕ) → Bool → ProcessTask → Option Ran
unfolding create_task_object call
finalize_thread raises locality mobjs is_cancelled t = do
  let tid = locality.self_thread_id
  flag ← get_elem? t.thread_local_initialized tid
  if not flag then some (returned t) else (do
    let u : ProcessTask = record t {
      thread_local_initialized = set t.thread_local_initialized tid false;
    }
    task ← create_task_object u mobjs 0 is_cancelled locality
    some (call raises (thread_local_finalize_called task) u (λ v. returned v)))

unfoldable pub thread_local_finalize :
    (Call → Bool) → Locality → List (Option ℕ) → ProcessTask → Option Ran
unfolding finalize_thread
thread_local_finalize raises locality mobjs t = finalize_thread raises locality mobjs false t

unfoldable pub thread_local_cancel : (Call → Bool) → Locality → ProcessTask → Option Ran
unfolding finalize_thread
thread_local_cancel raises locality t = finalize_thread raises locality (no_buffers t) true t

-- The body of a process command: the worker's part of the processor is set up, and it runs.
unfoldable pub run :
    (Call → Bool) → Locality → (physical_task_id : ℕ) → List (Option ℕ) → ProcessTask → Option Ran
unfolding thread_local_initialize
run raises locality physical_task_id inputs t = do
  ready ← thread_local_initialize raises locality inputs t
  elim ready [
    | raised u ↦ some (raised u)
    | returned u ↦ do
      task ← create_task_object u inputs physical_task_id false locality
      some (call raises (run_called task) u (λ v. returned v))
  ]

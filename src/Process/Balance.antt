-- ===== src/Process/Balance.antt =====
-- How often the methods of src/tasks/process/process_task_base.cpp have set up and torn down the
-- parts of a processor, from the calls that they made.
use m3bp.Prelude.{
  ℕ, zero, suc, ◌+◌, ◌≤◌, ◌≡◌, refl, Bool, true, false, not, Option, some, List, [], ◌∷◌, length,
  get_elem?, get_or, set, ◌==◌, if◌then◌else◌, arith, Bool-cases, inl, inr,
}
use m3bp.Scheduler.Locality.{Locality}
use m3bp.Graph.FlowGraph.{InputPort}
use m3bp.Process.State.{
  TaskObject, Call, global_initialize_called, global_finalize_called,
  thread_local_initialize_called, thread_local_finalize_called, run_called, ProcessTask,
  task_inputs, task_outputs, create_task_object,
}
use m3bp.Process.Calls.{returned, after, call}

abbrev pub bit : Bool → ℕ
bit true = 1
bit false = 0

abbrev pub worker_of : TaskObject → ℕ
worker_of task = task.current_locality.self_thread_id

module _ (raises : Call → Bool) where
  -- The times that worker `w` was set up, and that it was torn down, raising or not.
  abbrev pub begun : ℕ → List Call → ℕ
  begun w [] = 0
  begun w (thread_local_initialize_called task ∷ calls) =
      (if worker_of task == w then bit (not (raises (thread_local_initialize_called task))) else 0)
      + begun w calls
  begun w (_ ∷ calls) = begun w calls

  abbrev pub global_begun : List Call → ℕ
  global_begun [] = 0
  global_begun (global_initialize_called task ∷ calls) =
      bit (not (raises (global_initialize_called task))) + global_begun calls
  global_begun (_ ∷ calls) = global_begun calls

abbrev pub ended : ℕ → List Call → ℕ
ended w [] = 0
ended w (thread_local_finalize_called task ∷ calls) =
    (if worker_of task == w then 1 else 0) + ended w calls
ended w (_ ∷ calls) = ended w calls

abbrev pub global_ended : List Call → ℕ
global_ended [] = 0
global_ended (global_finalize_called _ ∷ calls) = 1 + global_ended calls
global_ended (_ ∷ calls) = global_ended calls

module _ (raises : Call → Bool) where
  -- Each call comes when it may: a worker that runs or is torn down has been set up, and one that
  -- is set up was not; so with the processor as a whole.
  abbrev pub InOrder : List Call → Type 0
  InOrder [] = Unit
  InOrder (global_initialize_called _ ∷ calls) =
      (global_begun raises calls ≡ global_ended calls) × InOrder calls
  InOrder (global_finalize_called _ ∷ calls) =
      (global_begun raises calls ≡ global_ended calls + 1) × InOrder calls
  InOrder (thread_local_initialize_called task ∷ calls) =
      (begun raises (worker_of task) calls ≡ ended (worker_of task) calls) × InOrder calls
  InOrder (thread_local_finalize_called task ∷ calls) =
      (begun raises (worker_of task) calls ≡ ended (worker_of task) calls + 1) × InOrder calls
  InOrder (run_called task ∷ calls) =
      (begun raises (worker_of task) calls ≡ ended (worker_of task) calls + 1) × InOrder calls

  -- The flags tell who is set up and not torn down.
  pub record IsBalanced (t : ProcessTask) : Type 0 where
    pub threads :
        (w : ℕ)
        → begun raises w t.calls ≡ ended w t.calls + bit (get_or t.thread_local_initialized w false)
    pub whole : global_begun raises t.calls ≡ global_ended t.calls + bit t.global_initialized
    pub in_order : InOrder t.calls

task_inputs-some :
    (ports : List InputPort) (buffers : List (Option ℕ))
    → length ports ≤ length buffers
    → (inputs : List (Option ℕ)) × (task_inputs ports buffers ≡ some inputs)
task_inputs-some [] buffers h = ([], refl)
task_inputs-some (p ∷ ports) [] h = absurd (omega arith)
task_inputs-some (p ∷ ports) (b ∷ buffers) h =
    let (rest, e) = task_inputs-some ports buffers (omega arith) in (b ∷ rest, rw e refl)

pub create_task_object_lem :
    (t : ProcessTask) (buffers : List (Option ℕ)) (id : ℕ) (is_cancelled : Bool)
    (locality : Locality)
    → length t.input_ports ≤ length buffers
    → (task : TaskObject) × (create_task_object t buffers id is_cancelled locality ≡ some task)
      × (task.current_locality ≡ locality)
unfolding create_task_object
create_task_object_lem t buffers id is_cancelled locality h =
    let (inputs, e) = task_inputs-some t.input_ports buffers h in
    (
      record {
        logical_task_id = t.task_id;
        physical_task_id = id;
        current_locality = locality;
        inputs = inputs;
        outputs = task_outputs t.output_ports;
        is_cancelled = is_cancelled;
      },
      rw e refl,
      refl,
    )

pub get_or-set :
    (flags : List Bool) (i w : ℕ) (v old : Bool)
    → get_elem? flags i ≡ some old
    → get_or (set flags i v) w false ≡ (if i == w then v else get_or flags w false)
get_or-set [] i w v old e = absurd (ground arith)
get_or-set (x ∷ flags) zero zero v old e = ground arith
get_or-set (x ∷ flags) zero (suc w) v old e = ground arith
get_or-set (x ∷ flags) (suc i) zero v old e = ground arith
get_or-set (x ∷ flags) (suc i) (suc w) v old e = ground (arith, get_or-set flags i w v old e)

pub get_or_of :
    (flags : List Bool) (i : ℕ) (v : Bool) → get_elem? flags i ≡ some v → get_or flags i false ≡ v
get_or_of [] i v e = absurd (ground arith)
get_or_of (x ∷ flags) zero v e = ground arith
get_or_of (x ∷ flags) (suc i) v e = get_or_of flags i v e

module _ (raises : Call → Bool) (t : ProcessTask) (ok : IsBalanced raises t) (task : TaskObject)
    (tid : ℕ) (at : worker_of task ≡ tid) where
  -- A worker that is not set up is set up, or the call raises.
  pub set_up-IsBalanced :
      get_elem? t.thread_local_initialized tid ≡ some false
      → IsBalanced raises (
          after (
            call raises (thread_local_initialize_called task) t (λ u.
              returned
                (record u { thread_local_initialized = set u.thread_local_initialized tid true }))))
  unfolding call
  set_up-IsBalanced e =
      let w = tid in
      let flags = t.thread_local_initialized in
      let off : get_or flags w false ≡ false = get_or_of flags w false e in
      elim (Bool-cases (raises (thread_local_initialize_called task))) [
        | inl raised_ ↦ rw raised_ (record {
          threads = λ v. ground (arith, ok.threads v, raised_);
          whole = ok.whole;
          in_order = (ground (arith, ok.threads w, off), ok.in_order);
        })
        | inr fine ↦ rw fine (record {
          threads = λ v. ground (arith, ok.threads v, fine, off, get_or-set flags w v true false e);
          whole = ok.whole;
          in_order = (ground (arith, ok.threads w, off), ok.in_order);
        })
      ]

  -- A worker that is set up is torn down, and the flag is cleared first.
  pub torn_down-IsBalanced :
      get_elem? t.thread_local_initialized tid ≡ some true
      → IsBalanced raises (
          after (
            call raises
              (thread_local_finalize_called task)
              (record t { thread_local_initialized = set t.thread_local_initialized tid false })
              (λ v. returned v)))
  unfolding call
  torn_down-IsBalanced e =
      let w = tid in
      let flags = t.thread_local_initialized in
      let on : get_or flags w false ≡ true = get_or_of flags w true e in
      let u : ProcessTask = record t {
        thread_local_initialized = set flags w false;
        calls = thread_local_finalize_called task ∷ t.calls;
      } in
      let done : IsBalanced raises u = record {
        threads = λ v. ground (arith, ok.threads v, on, get_or-set flags w v false true e);
        whole = ok.whole;
        in_order = (ground (arith, ok.threads w, on), ok.in_order);
      } in
      elim (Bool-cases (raises (thread_local_finalize_called task))) [
        | inl raised_ ↦ rw raised_ done
        | inr fine ↦ rw fine done
      ]

  -- A worker that is set up runs.
  pub ran-IsBalanced :
      get_or t.thread_local_initialized tid false ≡ true
      → IsBalanced raises (after (call raises (run_called task) t (λ v. returned v)))
  unfolding call
  ran-IsBalanced on =
      let u : ProcessTask = record t { calls = run_called task ∷ t.calls } in
      let done : IsBalanced raises u = record {
        threads = ok.threads;
        whole = ok.whole;
        in_order = (ground (arith, ok.threads tid, on), ok.in_order);
      } in
      elim (Bool-cases (raises (run_called task))) [
        | inl raised_ ↦ rw raised_ done
        | inr fine ↦ rw fine done
      ]

module _ (raises : Call → Bool) (t : ProcessTask) (ok : IsBalanced raises t)
    (task : TaskObject) where
  pub global_set_up-IsBalanced :
      t.global_initialized ≡ false
      → IsBalanced raises (
          after (
            call raises
              (global_initialize_called task)
              t
              (λ u. returned (record u { global_initialized = true }))))
  unfolding call
  global_set_up-IsBalanced off = elim (Bool-cases (raises (global_initialize_called task))) [
    | inl raised_ ↦ rw raised_ (record {
      threads = ok.threads;
      whole = ground (arith, ok.whole, raised_);
      in_order = (ground (arith, ok.whole, off), ok.in_order);
    })
    | inr fine ↦ rw fine (record {
      threads = ok.threads;
      whole = ground (arith, ok.whole, fine, off);
      in_order = (ground (arith, ok.whole, off), ok.in_order);
    })
  ]

  pub global_torn_down-IsBalanced :
      t.global_initialized ≡ true
      → IsBalanced raises (
          after (
            call raises
              (global_finalize_called task)
              (record t { global_initialized = false })
              (λ v. returned (record v { broadcast_inputs = [] }))))
  unfolding call
  global_torn_down-IsBalanced on = elim (Bool-cases (raises (global_finalize_called task))) [
    | inl raised_ ↦ rw raised_ (record {
      threads = ok.threads;
      whole = ground (arith, ok.whole, on);
      in_order = (ground (arith, ok.whole, on), ok.in_order);
    })
    | inr fine ↦ rw fine (record {
      threads = ok.threads;
      whole = ground (arith, ok.whole, on);
      in_order = (ground (arith, ok.whole, on), ok.in_order);
    })
  ]

-- ===== src/Process/Lifecycle.antt =====
-- The methods of src/tasks/process/process_task_base.cpp that call the processor, over the balance
-- of the calls.
use m3bp.Prelude.{
  ℕ, zero, suc, ◌≤◌, ◌≡◌, refl, ap, subst, ◌∙◌, Bool, true, false, Option, none, some, List, [],
  ◌∷◌, length, get_elem?, get_or, set, length-replicate, if◌then◌else◌, arith, Bool-cases, inl, inr,
}
use m3bp.Scheduler.Locality.{Locality}
use m3bp.Graph.FlowGraph.{InputPort}
use m3bp.Process.State.{
  Call, global_initialize_called, global_finalize_called, thread_local_initialize_called,
  thread_local_finalize_called, run_called, ProcessTask,
}
use m3bp.Process.Calls.{
  Ran, returned, raised, after, call, initialize_processor, global_finalize,
  thread_local_initialize, finalize_thread, thread_local_cancel, run, no_buffers,
}
use m3bp.Process.Balance.{
  begun, ended, IsBalanced, create_task_object_lem, set_up-IsBalanced, torn_down-IsBalanced,
  ran-IsBalanced, global_set_up-IsBalanced, global_torn_down-IsBalanced, get_or_of, get_or-set,
}

abbrev thread_of : Locality → ℕ
thread_of locality = locality.self_thread_id

get_elem?-set_at :
    (flags : List Bool) (i : ℕ) (v old : Bool)
    → get_elem? flags i ≡ some old
    → get_elem? (set flags i v) i ≡ some v
get_elem?-set_at [] i v old e = absurd (ground arith)
get_elem?-set_at (x ∷ flags) zero v old e = refl
get_elem?-set_at (x ∷ flags) (suc i) v old e = get_elem?-set_at flags i v old e

-- A call with nothing behind it leaves the flags alone.
called_flags :
    (raises : Call → Bool) (c : Call) (u : ProcessTask) (tid : ℕ)
    → get_elem? (after (call raises c u (λ v. returned v))).thread_local_initialized tid
      ≡ get_elem? u.thread_local_initialized tid
unfolding call
called_flags raises c u tid = elim (Bool-cases (raises c)) [ inl e ↦ rw e refl | inr e ↦ rw e refl ]

raised_differs : (t u : ProcessTask) → raised t ≡ returned u → ⊥
raised_differs t u e = cc

get_or-set_self :
    (flags : List Bool) (i : ℕ) (v old : Bool)
    → get_elem? flags i ≡ some old
    → get_or (set flags i v) i false ≡ v
get_or-set_self flags i v old e = ground (arith, get_or-set flags i i v old e)

-- A worker that was set up is set up afterwards.
set_up_returns :
    (raises : Call → Bool) (t : ProcessTask) (c : Call) (tid : ℕ)
    → get_elem? t.thread_local_initialized tid ≡ some false
    → (u : ProcessTask)
    → call raises c t (λ v.
      returned (record v { thread_local_initialized = set v.thread_local_initialized tid true }))
      ≡ returned u
    → (u.input_ports ≡ t.input_ports) × (get_or u.thread_local_initialized tid false ≡ true)
unfolding call
set_up_returns raises t c tid e u =
    let t' : ProcessTask = record t { calls = c ∷ t.calls } in
    let set_ : ProcessTask = record t' {
      thread_local_initialized = set t.thread_local_initialized tid true;
    } in
    elim (raises c)
      as (λ b.
        (if b then raised t' else returned set_) ≡ returned u
        → (u.input_ports ≡ t.input_ports) × (get_or u.thread_local_initialized tid false ≡ true)) [
          | true ↦ λ same. absurd (raised_differs t' u same)
          | false ↦ λ same.
              let is_set : set_ ≡ u = cc in
              subst
                (λ (x : ProcessTask).
                  (x.input_ports ≡ t.input_ports)
                  × (get_or x.thread_local_initialized tid false ≡ true))
                is_set (refl, get_or-set_self t.thread_local_initialized tid true false e)
        ]

module _ (raises : Call → Bool) (locality : Locality) (mobjs : List (Option ℕ)) (t : ProcessTask)
    (ok : IsBalanced raises t) (buffers : length t.input_ports ≤ length mobjs) where
  set_up_lem :
      (flag : Bool)
      → get_elem? t.thread_local_initialized locality.self_thread_id ≡ some flag
      → (r : Ran) × (thread_local_initialize raises locality mobjs t ≡ some r)
        × IsBalanced raises (after r)
        × ((u : ProcessTask)
            → r ≡ returned u
            → (u.input_ports ≡ t.input_ports)
              × (get_or u.thread_local_initialized locality.self_thread_id false ≡ true))
  unfolding thread_local_initialize
  set_up_lem true e = (
    returned t,
    rw e refl,
    ok,
    λ u same.
        let is_t : t ≡ u = cc in
        subst
          (λ (x : ProcessTask).
            (x.input_ports ≡ t.input_ports)
            × (get_or x.thread_local_initialized locality.self_thread_id false ≡ true))
          is_t (refl, get_or_of t.thread_local_initialized locality.self_thread_id true e),
  )
  set_up_lem false e =
      let (task, made, at) = create_task_object_lem t mobjs 0 false locality buffers in
      (
        call raises (thread_local_initialize_called task) t (λ u. returned (record u {
          thread_local_initialized = set u.thread_local_initialized locality.self_thread_id true;
        })),
        rw (e, made) refl,
        set_up-IsBalanced raises t ok task locality.self_thread_id (ap thread_of at) e,
        set_up_returns raises t (thread_local_initialize_called task) locality.self_thread_id e,
      )

module _ (raises : Call → Bool) (locality : Locality) (t : ProcessTask) (ok : IsBalanced raises t)
    (mobjs : List (Option ℕ)) (buffers : length t.input_ports ≤ length mobjs) where
  -- Tearing a worker's part down, for the end or on cancellation, leaves its flag cleared.
  pub finalize_thread-IsBalanced :
      (flag is_cancelled : Bool)
      → get_elem? t.thread_local_initialized locality.self_thread_id ≡ some flag
      → (r : Ran) × (finalize_thread raises locality mobjs is_cancelled t ≡ some r)
        × IsBalanced raises (after r)
        × (get_elem? (after r).thread_local_initialized locality.self_thread_id ≡ some false)
  unfolding finalize_thread
  finalize_thread-IsBalanced false is_cancelled e = (returned t, rw e refl, ok, e)
  finalize_thread-IsBalanced true is_cancelled e =
      let u : ProcessTask = record t {
        thread_local_initialized = set t.thread_local_initialized locality.self_thread_id false;
      } in
      let (task, made, at) = create_task_object_lem u mobjs 0 is_cancelled locality buffers in
      (
        call raises (thread_local_finalize_called task) u (λ v. returned v),
        rw (e, made) refl,
        torn_down-IsBalanced raises t ok task locality.self_thread_id (ap thread_of at) e,
        called_flags raises (thread_local_finalize_called task) u locality.self_thread_id
            ∙ get_elem?-set_at t.thread_local_initialized locality.self_thread_id false true e,
      )

  pub initialize_processor-IsBalanced :
      (r : Ran) × (initialize_processor raises locality mobjs t ≡ some r)
      × IsBalanced raises (after r)
  unfolding initialize_processor
  initialize_processor-IsBalanced = elim (Bool-cases t.global_initialized) [
    | inl on ↦ (returned t, ground arith, ok)
    | inr off ↦
        let (task, made, at) = create_task_object_lem t mobjs 0 false locality buffers in
        (
          call raises (global_initialize_called task) t
              (λ u. returned (record u { global_initialized = true })),
          rw made (ground arith),
          global_set_up-IsBalanced raises t ok task off,
        )
  ]

  pub global_finalize-IsBalanced :
      (r : Ran) × (global_finalize raises locality mobjs t ≡ some r) × IsBalanced raises (after r)
  unfolding global_finalize
  global_finalize-IsBalanced = elim (Bool-cases t.global_initialized) [
    | inr off ↦ (returned t, ground arith, ok)
    | inl on ↦
        let u : ProcessTask = record t { global_initialized = false } in
        let (task, made, at) = create_task_object_lem u mobjs 0 false locality buffers in
        (
          call raises (global_finalize_called task) u
              (λ v. returned (record v { broadcast_inputs = [] })),
          rw made (ground arith),
          global_torn_down-IsBalanced raises t ok task on,
        )
  ]

  pub run-IsBalanced :
      (flag : Bool) (physical_task_id : ℕ)
      → get_elem? t.thread_local_initialized locality.self_thread_id ≡ some flag
      → (r : Ran) × (run raises locality physical_task_id mobjs t ≡ some r)
        × IsBalanced raises (after r)
  unfolding run
  run-IsBalanced flag physical_task_id e =
      let (r, f, ok', on) = set_up_lem raises locality mobjs t ok buffers flag e in go r f ok' on
    where
      go :
          (r : Ran)
          → thread_local_initialize raises locality mobjs t ≡ some r
          → IsBalanced raises (after r)
          → ((u : ProcessTask)
              → r ≡ returned u
              → (u.input_ports ≡ t.input_ports)
                × (get_or u.thread_local_initialized locality.self_thread_id false ≡ true))
          → (r' : Ran) × (run raises locality physical_task_id mobjs t ≡ some r')
            × IsBalanced raises (after r')
      go (raised u) f ok' on = (raised u, rw f refl, ok')
      go (returned u) f ok' on =
          let (same, set_) = on u refl in
          let (task, made, at) =
            create_task_object_lem u mobjs physical_task_id false locality
              (omega (arith, buffers, ap (λ (l : List InputPort). length l) same)) in
          (
            call raises (run_called task) u (λ v. returned v),
            rw (f, made) refl,
            ran-IsBalanced raises u ok' task locality.self_thread_id (ap thread_of at) set_,
          )

-- The buffers are needed only while the worker's part is set up.
cancelled_lem :
    (raises : Call → Bool) (locality : Locality) (t : ProcessTask) (flag : Bool)
    → IsBalanced raises t
    → (flag ≡ true → length t.input_ports ≤ length t.broadcast_inputs)
    → get_elem? t.thread_local_initialized locality.self_thread_id ≡ some flag
    → (r : Ran) × (thread_local_cancel raises locality t ≡ some r)
      × IsBalanced raises (after r)
      × (get_elem? (after r).thread_local_initialized locality.self_thread_id ≡ some false)
unfolding thread_local_cancel finalize_thread
cancelled_lem raises locality t false ok sized e = (returned t, rw e refl, ok, e)
cancelled_lem raises locality t true ok sized e =
    finalize_thread-IsBalanced raises locality t ok (no_buffers t)
      (omega (arith, sized refl, length-replicate {A = Option ℕ} (length t.broadcast_inputs) none))
      true true e

-- If the calls were paired, the worker has a flag, and the broadcast inputs are as many as the ports
-- if the flag is set, then cancelling succeeds, after it the worker's part of the processor has been
-- torn down as often as it was set up, also when the processor raised, and cancelling again calls
-- nothing.
pub thread_local_cancel_pairs :
    (raises : Call → Bool) (locality : Locality) (t : ProcessTask) (flag : Bool)
    → IsBalanced raises t
    → (flag ≡ true → length t.input_ports ≤ length t.broadcast_inputs)
    → get_elem? t.thread_local_initialized locality.self_thread_id ≡ some flag
    → (r : Ran) × (thread_local_cancel raises locality t ≡ some r)
      × (begun raises locality.self_thread_id (after r).calls
          ≡ ended locality.self_thread_id (after r).calls)
      × (thread_local_cancel raises locality (after r) ≡ some (returned (after r)))
unfolding thread_local_cancel finalize_thread
thread_local_cancel_pairs raises locality t flag ok sized e =
    let (r, f, ok', off) = cancelled_lem raises locality t flag ok sized e in
    (
      r,
      f,
      ground (
        arith,
        ok'.threads locality.self_thread_id,
        get_or_of (after r).thread_local_initialized locality.self_thread_id false off,
      ),
      rw (finalize_thread, off) refl,
    )

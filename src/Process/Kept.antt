-- ===== src/Process/Kept.antt =====
-- What an operation of src/scheduler/scheduler.cpp on one task leaves of the others.
use m3bp.Prelude.{
  ℕ, ◌<◌, ◌≤◌, ◌≡◌, refl, sym, ap, subst, ◌∙◌, true, false, Option, none, some, List, [], ◌∷◌, ◌++◌,
  ◌==◌, if◌then◌else◌, ◌>>=◌, arith, wrap_pred, wrap_suc, Bool-cases, Option-cases, inl, inr,
}
use m3bp.Prelude.Table.{find, put, find-put}
use m3bp.Scheduler.Locality.{LocalityOption}
use m3bp.Scheduler.State.{PhysicalTask, PhysicalVertex, Scheduler}
use m3bp.Scheduler.Operations.{
  push_queue, enqueue, enqueue_stealable, enqueue_unstealable, target_worker,
  decrement_predecessor_count, add_dependency, commit_task,
}

-- The same places and identifiers.
pub record SameNames (s s' : Scheduler) : Type 0 where
  pub places_same : s'.places ≡ s.places
  pub created_same : s'.created_task_count ≡ s.created_task_count

-- Task `b` is there and waits for at most `n` decrements.
pub record Waits (b n : ℕ) (s : Scheduler) : Type 0 where
  pub vertex : PhysicalVertex
  pub found : find b s.vertices ≡ some vertex
  pub waiting : 0 < vertex.predecessor_count
  pub at_most : vertex.predecessor_count ≤ n

pub bind_none {ℓ κ} :
    {A : Type ℓ} {B : Type κ} (o : Option A) (f : A → Option B) (b : B)
    → (o >>= f) ≡ some b
    → (a : A) × (o ≡ some a) × (f a ≡ some b)
bind_none none f b e = absurd (ground arith)
bind_none (some a) f b e = (a, refl, e)

pub carried {ℓ κ} : {A : Type ℓ} (P : A → Type κ) (a b : A) → some a ≡ some b → P a → P b
carried P a b e h = let same : a ≡ b = cc in subst P same h

-- The same names, and the same graph.
abbrev pub SameGraph : Scheduler → Scheduler → Type 0
SameGraph s s' = SameNames s s' × (s'.vertices ≡ s.vertices)

SameNames-refl : (s : Scheduler) → SameNames s s
SameNames-refl s = record { places_same = refl; created_same = refl }

pub enqueue_keeps :
    (draw : ℕ) (option : LocalityOption) (task : PhysicalTask) (s s' : Scheduler)
    → enqueue draw option task s ≡ some s'
    → SameGraph s s'
unfolding enqueue enqueue_stealable enqueue_unstealable
enqueue_keeps draw option task s s' =
    let w = target_worker draw option in
    elim option.is_stealable
      as (λ b.
        (if b then enqueue_stealable w task s else enqueue_unstealable w task s) ≡ some s'
        → SameGraph s s') [
          | true ↦ λ e.
              let (node, f, g) = bind_none (s.places.thread_mapping w) _ s' e in
              let (queues, h, k) = bind_none (push_queue node task s.stealable_queues) _ s' g in
              carried (SameGraph s) _ s' k
                (record { places_same = refl; created_same = refl }, refl)
          | false ↦ λ e.
              let (queues, h, k) = bind_none (push_queue w task s.unstealable_queues) _ s' e in
              carried (SameGraph s) _ s' k
                (record { places_same = refl; created_same = refl }, refl)
        ]

-- A decrement of another task.
abbrev pub Spared : ℕ → Scheduler → Scheduler → Type 0
Spared b s s' = SameNames s s' × (find b s'.vertices ≡ find b s.vertices)

decrement_keeps :
    (draw : ℕ → ℕ) (id b : ℕ) (s s' : Scheduler)
    → (id == b) ≡ false
    → decrement_predecessor_count draw id s ≡ some s'
    → Spared b s s'
unfolding decrement_predecessor_count
decrement_keeps draw id b s s' other e =
    let (v, f, g) = bind_none (find id s.vertices) _ s' e in
    let remains = wrap_pred v.predecessor_count in
    let elsewhere : (u : PhysicalVertex) → find b (put id u s.vertices) ≡ find b s.vertices =
      λ u. find-put id b u v s.vertices f ∙ rw other refl in
    let moved : PhysicalVertex = record v { predecessor_count = remains; physical_task = none } in
    let lower : PhysicalVertex = record v { predecessor_count = remains } in
    elim (remains == 0)
        as (λ b'.
          (if b'
              then (v.physical_task >>= λ (task : PhysicalTask).
                  enqueue (draw id) v.locality_option task
                    (record s { vertices = put id moved s.vertices }))
              else some (record s { vertices = put id lower s.vertices }))
            ≡ some s'
          → Spared b s s') [
            | true ↦ λ h.
                let (task, _, k) = bind_none v.physical_task _ s' h in
                let (names, table) = enqueue_keeps (draw id) v.locality_option task _ s' k in
                (
                  record { places_same = names.places_same; created_same = names.created_same },
                  ap (find b) table ∙ elsewhere moved,
                )
            | false ↦ λ h.
                carried (Spared b s) _ s' h
                  (record { places_same = refl; created_same = refl }, elsewhere lower)
          ]
      g

pub commit_keeps :
    (draw : ℕ → ℕ) (id b : ℕ) (s s' : Scheduler)
    → (id == b) ≡ false
    → commit_task draw id s ≡ some s'
    → Spared b s s'
unfolding commit_task
commit_keeps draw id b s s' other e =
    let (names, same) = decrement_keeps draw id b _ s' other e in
    (record { places_same = names.places_same; created_same = names.created_same }, same)

-- A table in which only the successors of `p` have changed.
still :
    (p b n : ℕ) (u u' : PhysicalVertex) (s : Scheduler) (m : List (ℕ × PhysicalVertex))
    → find p s.vertices ≡ some u
    → u'.predecessor_count ≡ u.predecessor_count
    → find b m ≡ (if p == b then some u' else find b s.vertices)
    → Waits b n s
    → Waits b n (record s { vertices = m })
still p b n u u' s m found same at_b w = elim (Bool-cases (p == b)) [
  | inl is_p ↦
      let one : p ≡ b = ground arith in
      let alike : ◌≡◌ {A = Option PhysicalVertex} (some u) (some w.vertex) =
        sym found ∙ ap (λ (x : ℕ). find x s.vertices) one ∙ w.found in
      let both : u ≡ w.vertex = cc in
      record {
        vertex = u';
        found = at_b ∙ rw is_p refl;
        waiting =
            omega (arith, w.waiting, same, ap (λ (x : PhysicalVertex). x.predecessor_count) both);
        at_most =
            omega (arith, w.at_most, same, ap (λ (x : PhysicalVertex). x.predecessor_count) both);
      }
  | inr other ↦ record {
    vertex = w.vertex;
    found = at_b ∙ (rw other w.found);
    waiting = w.waiting;
    at_most = w.at_most;
  }
]

-- An edge to another task: only the successors of the predecessor change.
pub add_dependency_keeps :
    (p k b n : ℕ) (s s' : Scheduler)
    → (k == b) ≡ false
    → add_dependency p k s ≡ some s'
    → Waits b n s
    → SameNames s s' × Waits b n s'
unfolding add_dependency
add_dependency_keeps p k b n s s' other e w = elim (Option-cases (find p s.vertices)) [
  | inl gone ↦
      let same : ◌≡◌ {A = Option Scheduler} (some s) (some s') = rw (gone, add_dependency) at e in
      carried (λ (x : Scheduler). SameNames s x × Waits b n x) s s' same (SameNames-refl s, w)
  | inr (u, found) ↦
      let u' : PhysicalVertex = record u { successors = u.successors ++ k ∷ [] } in
      let linked = put p u' s.vertices in
      let g : (find k linked >>= λ (v : PhysicalVertex). some (record s {
        vertices = put k (record v { predecessor_count = wrap_suc v.predecessor_count }) linked;
      }))
          ≡ some s' =
        rw (found, add_dependency) at e in
      let (v, f, h) = bind_none (find k linked) _ s' g in
      let v' : PhysicalVertex = record v { predecessor_count = wrap_suc v.predecessor_count } in
      let at_b : find b (put k v' linked) ≡ (if p == b then some u' else find b s.vertices) =
        find-put k b v' v linked f ∙ (rw other (find-put p b u' u s.vertices found)) in
      carried (λ (x : Scheduler). SameNames s x × Waits b n x) _ s' h
        (
          record { places_same = refl; created_same = refl },
          still p b n u u' s (put k v' linked) found refl at_b w,
        )
]

pub add_dependency-SameNames :
    (p k : ℕ) (s s' : Scheduler) → add_dependency p k s ≡ some s' → SameNames s s'
unfolding add_dependency
add_dependency-SameNames p k s s' e = elim (Option-cases (find p s.vertices)) [
  | inl gone ↦
      let same : ◌≡◌ {A = Option Scheduler} (some s) (some s') = rw (gone, add_dependency) at e in
      carried (SameNames s) s s' same (SameNames-refl s)
  | inr (u, found) ↦
      let u' : PhysicalVertex = record u { successors = u.successors ++ k ∷ [] } in
      let g : (find k (put p u' s.vertices) >>= λ (v : PhysicalVertex). some (record s {
        vertices =
            put k (record v { predecessor_count = wrap_suc v.predecessor_count })
              (put p u' s.vertices);
      }))
          ≡ some s' =
        rw (found, add_dependency) at e in
      let (v, f, h) = bind_none (find k (put p u' s.vertices)) _ s' g in
      carried (SameNames s) _ s' h (record { places_same = refl; created_same = refl })
]

-- ===== src/Process/Linked.antt =====
-- The edges that calls of src/scheduler/scheduler.cpp leave: none is lost before its task completes.
use m3bp.Prelude.{
  ℕ, suc, zero, ◌+◌, ◌<◌, ◌≤◌, ◌≡◌, refl, sym, ap, ◌∙◌, true, false, Option, none, some, [], ◌∷◌,
  ◌++◌, ◌==◌, if◌then◌else◌, ◌>>=◌, arith, wrap_pred, wrap_suc, count, count-append, count-cons,
  Bool-cases, Option-cases, inl, inr, ==_refl,
}
use m3bp.Prelude.Table.{find, put, find-put, find-cons, emplace, emplace-none}
use m3bp.Scheduler.Locality.{LocalityOption}
use m3bp.Scheduler.State.{PhysicalTask, PhysicalVertex, Scheduler}
use m3bp.Scheduler.Operations.{
  enqueue, decrement_predecessor_count, create_physical_task, add_dependency, commit_task,
}
use m3bp.Process.Kept.{bind_none, carried, enqueue_keeps}

-- Task `k` is a successor of task `p`, which has not completed.
pub record IsLinked (p k : ℕ) (s : Scheduler) : Type 0 where
  pub vertex : PhysicalVertex
  pub found : find p s.vertices ≡ some vertex
  pub successor : 0 < count k vertex.successors

-- Every vertex is kept, with its successors.
pub record KeepsEdges (s s' : Scheduler) : Type 0 where
  pub kept :
      (a : ℕ) (v : PhysicalVertex)
      → find a s.vertices ≡ some v
      → (v' : PhysicalVertex) × (find a s'.vertices ≡ some v')
        × ((k : ℕ) → count k v.successors ≤ count k v'.successors)

pub KeepsEdges-refl : (s : Scheduler) → KeepsEdges s s
KeepsEdges-refl s = record { kept = λ a v f. (v, f, λ k. omega arith) }

pub KeepsEdges-trans :
    (s s' s'' : Scheduler) → KeepsEdges s s' → KeepsEdges s' s'' → KeepsEdges s s''
KeepsEdges-trans s s' s'' first second = record {
  kept = λ a v f.
      let (v', f', more) = first.kept a v f in
      let (v'', f'', more') = second.kept a v' f' in
      (v'', f'', λ k. omega (arith, more k, more' k));
}

pub IsLinked-kept :
    (p k : ℕ) (s s' : Scheduler) → KeepsEdges s s' → IsLinked p k s → IsLinked p k s'
IsLinked-kept p k s s' keeps h =
    let (v, f, more) = keeps.kept p h.vertex h.found in
    record { vertex = v; found = f; successor = omega (arith, more k, h.successor) }

pub create_physical_task-KeepsEdges :
    (l c : ℕ) (option : LocalityOption) (s : Scheduler)
    → find s.created_task_count s.vertices ≡ none
    → KeepsEdges s (create_physical_task l c option s).0
unfolding create_physical_task
create_physical_task-KeepsEdges l c option s gone = record {
  kept = λ a v f.
      let id = s.created_task_count in
      let w : PhysicalVertex = record {
        predecessor_count = 1;
        successors = [];
        locality_option = option;
        physical_task = some (record { logical_task_id = l; physical_task_id = id; command = c });
      } in
      let at : find a (emplace id w s.vertices) ≡ (if id == a then some w else find a s.vertices) =
        ap (find a) (emplace-none id w s.vertices gone) ∙ find-cons a id w s.vertices in
      elim (Bool-cases (id == a)) [
        | inl hit ↦
            let same : id ≡ a = ground arith in
            let both : ◌≡◌ {A = Option PhysicalVertex} none (some v) =
              sym gone ∙ ap (λ (x : ℕ). find x s.vertices) same ∙ f in
            absurd (ground (arith, both))
        | inr miss ↦ (v, at ∙ (rw miss f), λ k. omega arith)
      ];
}

-- A table in which one vertex is written, with no successor lost.
written :
    (id a : ℕ) (u u' v : PhysicalVertex) (s : Scheduler)
    → find id s.vertices ≡ some u
    → ((k : ℕ) → count k u.successors ≤ count k u'.successors)
    → find a s.vertices ≡ some v
    → (v' : PhysicalVertex) × (find a (put id u' s.vertices) ≡ some v')
      × ((k : ℕ) → count k v.successors ≤ count k v'.successors)
written id a u u' v s found more f = elim (Bool-cases (id == a)) [
  | inl hit ↦
      let same : id ≡ a = ground arith in
      let both : ◌≡◌ {A = Option PhysicalVertex} (some u) (some v) =
        sym found ∙ ap (λ (x : ℕ). find x s.vertices) same ∙ f in
      (
        u',
        find-put id a u' u s.vertices found ∙ rw hit refl,
        carried (λ (x : PhysicalVertex). (k : ℕ) → count k x.successors ≤ count k u'.successors) u v
            both more,
      )
  | inr other ↦ (v, find-put id a u' u s.vertices found ∙ (rw other f), λ k. omega arith)
]

written-KeepsEdges :
    (id : ℕ) (u u' : PhysicalVertex) (s : Scheduler)
    → find id s.vertices ≡ some u
    → ((k : ℕ) → count k u.successors ≤ count k u'.successors)
    → KeepsEdges s (record s { vertices = put id u' s.vertices })
written-KeepsEdges id u u' s found more = record {
  kept = λ a v f. written id a u u' v s found more f;
}

-- Only the vertices count.
same_vertices : (s s' t : Scheduler) → t.vertices ≡ s'.vertices → KeepsEdges s s' → KeepsEdges s t
same_vertices s s' t same h = record {
  kept = λ a v f. let (v', f', more) = h.kept a v f in (v', ap (find a) same ∙ f', more);
}

-- An edge keeps the others, and is there if its predecessor is.
pub add_dependency-KeepsEdges :
    (p k : ℕ) (s s' : Scheduler) → add_dependency p k s ≡ some s' → KeepsEdges s s'
unfolding add_dependency
add_dependency-KeepsEdges p k s s' e = elim (Option-cases (find p s.vertices)) [
  | inl gone ↦
      let same : ◌≡◌ {A = Option Scheduler} (some s) (some s') = rw (gone, add_dependency) at e in
      carried (KeepsEdges s) s s' same (KeepsEdges-refl s)
  | inr (u, found) ↦
      let u' : PhysicalVertex = record u { successors = u.successors ++ k ∷ [] } in
      let t : Scheduler = record s { vertices = put p u' s.vertices } in
      let g : (find k t.vertices >>= λ (v : PhysicalVertex). some (record s {
        vertices = put k (record v { predecessor_count = wrap_suc v.predecessor_count }) t.vertices;
      }))
          ≡ some s' =
        rw (found, add_dependency) at e in
      let (v, f, h) = bind_none (find k t.vertices) _ s' g in
      let v' : PhysicalVertex = record v { predecessor_count = wrap_suc v.predecessor_count } in
      let first =
        written-KeepsEdges p u u' s found
          (λ a. omega (arith, count-append a u.successors (k ∷ []))) in
      let second = written-KeepsEdges k v v' t f (λ a. omega arith) in
      carried (KeepsEdges s) _ s' h (
        same_vertices s (record t { vertices = put k v' t.vertices }) _ refl
          (KeepsEdges-trans s t _ first second))
]

pub add_dependency-IsLinked :
    (p k : ℕ) (u : PhysicalVertex) (s s' : Scheduler)
    → find p s.vertices ≡ some u
    → add_dependency p k s ≡ some s'
    → IsLinked p k s'
unfolding add_dependency
add_dependency-IsLinked p k u s s' found e =
    let u' : PhysicalVertex = record u { successors = u.successors ++ k ∷ [] } in
    let t : Scheduler = record s { vertices = put p u' s.vertices } in
    let g : (find k t.vertices >>= λ (v : PhysicalVertex). some (record s {
      vertices = put k (record v { predecessor_count = wrap_suc v.predecessor_count }) t.vertices;
    }))
        ≡ some s' =
      rw (found, add_dependency) at e in
    let (v, f, h) = bind_none (find k t.vertices) _ s' g in
    let v' : PhysicalVertex = record v { predecessor_count = wrap_suc v.predecessor_count } in
    let linked : IsLinked p k t = record {
      vertex = u';
      found = find-put p p u' u s.vertices found ∙ rw (==_refl p) refl;
      successor =
          ground (arith, count-append k u.successors (k ∷ []), count-cons k k [], ==_refl k);
    } in
    carried (IsLinked p k) _ s' h
      (IsLinked-kept p k t _ (written-KeepsEdges k v v' t f (λ a. omega arith)) linked)

decrement-KeepsEdges :
    (draw : ℕ → ℕ) (id : ℕ) (s s' : Scheduler)
    → decrement_predecessor_count draw id s ≡ some s'
    → KeepsEdges s s'
unfolding decrement_predecessor_count
decrement-KeepsEdges draw id s s' e =
    let (v, f, g) = bind_none (find id s.vertices) _ s' e in
    let remains = wrap_pred v.predecessor_count in
    let moved : PhysicalVertex = record v { predecessor_count = remains; physical_task = none } in
    let lower : PhysicalVertex = record v { predecessor_count = remains } in
    elim (remains == 0)
        as (λ b'.
          (if b'
              then (v.physical_task >>= λ (task : PhysicalTask).
                  enqueue (draw id) v.locality_option task
                    (record s { vertices = put id moved s.vertices }))
              else some (record s { vertices = put id lower s.vertices }))
            ≡ some s'
          → KeepsEdges s s') [
            | true ↦ λ h.
                let (task, _, k) = bind_none v.physical_task _ s' h in
                let (_, table) = enqueue_keeps (draw id) v.locality_option task _ s' k in
                same_vertices s (record s { vertices = put id moved s.vertices }) s' table
                  (written-KeepsEdges id v moved s f (λ a. omega arith))
            | false ↦ λ h.
                carried (KeepsEdges s) _ s' h (written-KeepsEdges id v lower s f (λ a. omega arith))
          ]
      g

pub commit_task-KeepsEdges :
    (draw : ℕ → ℕ) (id : ℕ) (s s' : Scheduler) → commit_task draw id s ≡ some s' → KeepsEdges s s'
unfolding commit_task
commit_task-KeepsEdges draw id s s' e =
    let h = decrement-KeepsEdges draw id _ s' e in record { kept = λ a v f. h.kept a v f }

-- A task that is created and linked between two others, of which the first has not completed.
pub between_lem :
    (p id b : ℕ) (u v : PhysicalVertex) (s s₀ s₁ s₂ s' : Scheduler)
    → KeepsEdges s s₀
    → find p s.vertices ≡ some u
    → find id s₀.vertices ≡ some v
    → add_dependency p id s₀ ≡ some s₁
    → add_dependency id b s₁ ≡ some s₂
    → KeepsEdges s₂ s'
    → KeepsEdges s s' × IsLinked p id s' × IsLinked id b s'
between_lem p id b u v s s₀ s₁ s₂ s' k₀ at_p at_id e₁ e₂ k' =
    let k₁ = add_dependency-KeepsEdges p id s₀ s₁ e₁ in
    let k₂ = add_dependency-KeepsEdges id b s₁ s₂ e₂ in
    let (_, found, _) = k₀.kept p u at_p in
    let (_, found', _) = k₁.kept id v at_id in
    (
      KeepsEdges-trans s s₀ s' k₀ (KeepsEdges-trans s₀ s₁ s' k₁ (KeepsEdges-trans s₁ s₂ s' k₂ k')),
      IsLinked-kept p id s₁ s' (KeepsEdges-trans s₁ s₂ s' k₂ k')
          (add_dependency-IsLinked p id _ s₀ s₁ found e₁),
      IsLinked-kept id b s₂ s' k' (add_dependency-IsLinked id b _ s₁ s₂ found' e₂),
    )

-- Each of the `n` tasks from `id` waits for `p`, and `b` for each of them.
abbrev pub AllBetween : (p b id n : ℕ) → Scheduler → Type 0
AllBetween p b id zero s = Unit
AllBetween p b id (suc n) s = (IsLinked p id s × IsLinked id b s) × AllBetween p b (id + 1) n s

-- ===== src/Graph/Bounded.antt =====
-- The counters of src/scheduler/scheduler.cpp while tasks are created and linked.
use m3bp.Prelude.{
  ℕ, suc, ◌+◌, ◌<◌, ◌≤◌, ◌≡◌, refl, sym, ap, ◌∙◌, Option, none, some, List, [], ◌∷◌, ◌++◌, ◌==◌,
  if◌then◌else◌, ◌>>=◌, arith, word, wrap_suc, count, Bool-cases, Option-cases, inl, inr,
}
use m3bp.Prelude.Table.{find, put, find-put, find-cons, emplace, emplace-none}
use m3bp.Scheduler.Locality.{LocalityOption, any_worker}
use m3bp.Scheduler.State.{PhysicalVertex, Scheduler}
use m3bp.Scheduler.Operations.{create_physical_task, add_dependency}
use m3bp.Scheduler.Invariant.{Inv}
use m3bp.Scheduler.Preservation.{create_physical_task-Inv}
use m3bp.Scheduler.Dependency.{add_dependency-Inv}
use m3bp.Process.Kept.{bind_none, carried, add_dependency-SameNames}
use m3bp.Process.Linked.{
  IsLinked, KeepsEdges, KeepsEdges-refl, KeepsEdges-trans, create_physical_task-KeepsEdges,
  add_dependency-KeepsEdges, add_dependency-IsLinked,
}

-- No counter is above `m`.
pub record IsBounded (m : ℕ) (s : Scheduler) : Type 0 where
  pub bounded : (a : ℕ) (v : PhysicalVertex) → find a s.vertices ≡ some v → v.predecessor_count ≤ m

-- The invariant, while there is room for `ids` tasks.
pub record Growing (m ids : ℕ) (owed running : List ℕ) (s : Scheduler) : Type 0 where
  pub inv : Inv owed running s
  pub bound : IsBounded m s
  pub identifiers : s.created_task_count + ids < word

created-IsBounded :
    (l c m : ℕ) (option : LocalityOption) (s : Scheduler)
    → find s.created_task_count s.vertices ≡ none
    → 0 < m
    → IsBounded m s
    → IsBounded m (create_physical_task l c option s).0
unfolding create_physical_task
created-IsBounded l c m option s gone pos h = record {
  bounded = λ a v f.
      let id = s.created_task_count in
      let w : PhysicalVertex = record {
        predecessor_count = 1;
        successors = [];
        locality_option = option;
        physical_task = some (record { logical_task_id = l; physical_task_id = id; command = c });
      } in
      let at : find a (emplace id w s.vertices) ≡ (if id == a then some w else find a s.vertices) =
        ap (find a) (emplace-none id w s.vertices gone) ∙ find-cons a id w s.vertices in
      elim (Bool-cases (id == a)) [
        | inl hit ↦
            let same : ◌≡◌ {A = Option PhysicalVertex} (some w) (some v) =
              sym (at ∙ rw hit refl) ∙ f in
            carried (λ (x : PhysicalVertex). x.predecessor_count ≤ m) w v same (omega arith)
        | inr miss ↦ h.bounded a v (sym (at ∙ rw miss refl) ∙ f)
      ];
}

-- An edge raises one counter.
linked-IsBounded :
    (p k m : ℕ) (s s' : Scheduler)
    → add_dependency p k s ≡ some s'
    → m + 1 < word
    → IsBounded m s
    → IsBounded (m + 1) s'
unfolding add_dependency
linked-IsBounded p k m s s' e room h = elim (Option-cases (find p s.vertices)) [
  | inl gone ↦
      let same : ◌≡◌ {A = Option Scheduler} (some s) (some s') = rw (gone, add_dependency) at e in
      carried (IsBounded (m + 1)) s s' same
        (record { bounded = λ a v f. omega (arith, h.bounded a v f) })
  | inr (u, found) ↦
      let u' : PhysicalVertex = record u { successors = u.successors ++ k ∷ [] } in
      let linked = put p u' s.vertices in
      let g : (find k linked >>= λ (v : PhysicalVertex). some (record s {
        vertices = put k (record v { predecessor_count = wrap_suc v.predecessor_count }) linked;
      }))
          ≡ some s' =
        rw (found, add_dependency) at e in
      let (v, f, h') = bind_none (find k linked) _ s' g in
      let v' : PhysicalVertex = record v { predecessor_count = wrap_suc v.predecessor_count } in
      let first : (a : ℕ) (x : PhysicalVertex) → find a linked ≡ some x → x.predecessor_count ≤ m =
        λ a x is_x.
          ground (arith, find-put p a u' u s.vertices found, h.bounded a x, h.bounded p u found) in
      carried (IsBounded (m + 1)) _ s' h' (record {
        bounded = λ a x is_x. ground (arith, find-put k a v' v linked f, first a x, first k v f);
      })
]

-- `n` tasks are created, the places stay, and no edge is lost.
pub record Extends (n : ℕ) (s s' : Scheduler) : Type 0 where
  pub places_same : s'.places ≡ s.places
  pub created : s'.created_task_count ≡ s.created_task_count + n
  pub edges : KeepsEdges s s'

pub Extends-refl : (s : Scheduler) → Extends 0 s s
Extends-refl s = record { places_same = refl; created = omega arith; edges = KeepsEdges-refl s }

pub Extends-trans :
    (m n k : ℕ) (s s' s'' : Scheduler)
    → m + n ≡ k
    → Extends m s s'
    → Extends n s' s''
    → Extends k s s''
Extends-trans m n k s s' s'' sum first second = record {
  places_same = second.places_same ∙ first.places_same;
  created = omega (arith, first.created, second.created, sum);
  edges = KeepsEdges-trans s s' s'' first.edges second.edges;
}

module _ (l c m ids : ℕ) (owed running : List ℕ) (s : Scheduler) where
  pub created-Growing :
      0 < m
      → Growing m (suc ids) owed running s
      → let (s', id) = create_physical_task l c any_worker s in
        Growing m ids (id ∷ owed) running s' × Extends 1 s s'
  unfolding create_physical_task
  created-Growing pos h =
      let (inv, gone) =
        create_physical_task-Inv owed running s h.inv l c any_worker (omega (arith, h.identifiers))
          (inr (refl, refl)) in
      (
        record {
          inv = inv;
          bound = created-IsBounded l c m any_worker s gone pos h.bound;
          identifiers = omega (arith, h.identifiers);
        },
        record {
          places_same = refl;
          created = omega (arith, h.identifiers);
          edges = create_physical_task-KeepsEdges l c any_worker s gone;
        },
      )

-- An edge to a task whose commit is still owed.
pub linked-Growing :
    (p k m ids : ℕ) (owed running : List ℕ) (s : Scheduler)
    → 0 < count p owed
    → 0 < count k owed
    → m + 1 < word
    → Growing m ids owed running s
    → (s' : Scheduler) × (add_dependency p k s ≡ some s')
      × Growing (m + 1) ids owed running s'
      × Extends 0 s s'
      × IsLinked p k s'
linked-Growing p k m ids owed running s from_owed is_owed room h =
    let (u, g) = h.inv.counters.live p (omega arith) in
    let (v, f) = h.inv.counters.live k (omega arith) in
    let waiting = h.inv.counters.counted k v f in
    let (s', e, inv, _) =
      add_dependency-Inv p k v owed running s h.inv f (omega (arith, waiting))
        (omega (arith, h.bound.bounded k v f)) in
    let names = add_dependency-SameNames p k s s' e in
    (
      s',
      e,
      record {
        inv = inv;
        bound = linked-IsBounded p k m s s' e room h.bound;
        identifiers = omega (arith, h.identifiers, names.created_same);
      },
      record {
        places_same = names.places_same;
        created = names.created_same ∙ omega arith;
        edges = add_dependency-KeepsEdges p k s s' e;
      },
      add_dependency-IsLinked p k u s s' g e,
    )

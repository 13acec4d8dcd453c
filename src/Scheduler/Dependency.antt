-- ===== src/Scheduler/Dependency.antt =====
-- `add_dependency` of src/scheduler/scheduler.cpp keeps the scheduler's invariant.
use m3bp.Prelude.{
  ℕ, ◌+◌, ◌<◌, ◌≡◌, ◌⊎◌, ◌∙◌, sym, subst, refl, none, some, List, [], ◌∷◌, ◌++◌, arith, ◌==◌, word,
  wrap_suc, inl, inr, Bool-cases, Option-cases, ==_refl,
}
use m3bp.Prelude.Table.{find, find-put, put}
use m3bp.Scheduler.State.{PhysicalVertex, Scheduler}
use m3bp.Scheduler.Graph.Counted.{Table}
use m3bp.Scheduler.Graph.Changes.{link-IsCounted}
use m3bp.Scheduler.Operations.{add_dependency}
use m3bp.Scheduler.Invariant.{released, released-some, IsPlaceable, IsShaped-books, Inv}
use m3bp.Scheduler.Decrement.{released-put}

-- Both vertices are written, and may be one. `v` is the successor once the edge is in place.
module _ (owed running : List ℕ) (s : Scheduler) (inv : Inv owed running s) (p k : ℕ)
    (u u' v v' : PhysicalVertex) (e : find p s.vertices ≡ some u)
    (f : find k (put p u' s.vertices) ≡ some v)
    (u_is : u' ≡ record u { successors = u.successors ++ k ∷ [] })
    (higher : v'.predecessor_count ≡ v.predecessor_count + 1)
    (same : (v'.successors ≡ v.successors) × (v'.physical_task ≡ v.physical_task))
    (option : v'.locality_option ≡ v.locality_option) (waiting : 0 < v.predecessor_count)
    (room : v.predecessor_count + 1 < word) where
  abbrev linked : Table
  linked = put k v' (put p u' s.vertices)

  linked_old :
      (a : ℕ) (x : PhysicalVertex)
      → find a linked ≡ some x
      → (w : PhysicalVertex) × (find a s.vertices ≡ some w)
        × (x.locality_option ≡ w.locality_option)
  linked_old a x g = elim (Bool-cases (p == a)) [
    | inl hit ↦ (
      u,
      ground arith,
      ground (arith, find-put k a v' v (put p u' s.vertices) f, find-put p a u' u s.vertices e),
    )
    | inr miss ↦ elim (Bool-cases (k == a)) [
      | inl hit ↦ (
        v,
        ground (arith, find-put p k u' u s.vertices e),
        ground (arith, find-put k a v' v (put p u' s.vertices) f),
      )
      | inr away ↦ (
        x,
        ground (arith, find-put k a v' v (put p u' s.vertices) f, find-put p a u' u s.vertices e),
        refl,
      )
    ]
  ]

  linked-released : (a : ℕ) → released a linked ≡ released a s.vertices
  linked-released a = ground (
    arith,
    released-put k a v' v (put p u' s.vertices) f,
    released-put p a u' u s.vertices e,
    released-some p u s.vertices e,
    released-some k v (put p u' s.vertices) f,
    released-put p k u' u s.vertices e,
  )

  linked-Inv : Inv owed running (record s { vertices = linked })
  linked-Inv = record {
    counters =
        link-IsCounted p k owed u u' v v' s.vertices inv.counters e f (ground arith)
          (ground arith, ground arith) higher same waiting room;
    fresh = λ a x g. let (w, h, _) = linked_old a x g in inv.fresh a w h;
    placeable = λ a x g.
        let (w, h, o) = linked_old a x g in
        subst (λ y. IsPlaceable s.places y) (sym o) (inv.placeable a w h);
    places = inv.places;
    shaped = IsShaped-books s _ _ _ _ inv.shaped;
    once = λ a. omega (arith, inv.once a, linked-released a);
  }

-- The successor as it stands once its predecessor has been written.
successor_after :
    (p k : ℕ) (v u u' : PhysicalVertex) (m : Table)
    → find k m ≡ some v
    → find p m ≡ some u
    → u'.predecessor_count ≡ u.predecessor_count
    → (w : PhysicalVertex) × (find k (put p u' m) ≡ some w)
      × (w.predecessor_count ≡ v.predecessor_count)
successor_after p k v u u' m e found same = elim (Bool-cases (p == k)) [
  | inl hit ↦ (u', find-put p k u' u m found ∙ rw hit refl, ground arith)
  | inr miss ↦ (v, find-put p k u' u m found ∙ rw miss e, refl)
]

-- An edge to a task that has not been released can be added. If the predecessor is still there the
-- successor waits for one more; if it is gone nothing changes.
pub add_dependency-Inv :
    (p k : ℕ) (v : PhysicalVertex) (owed running : List ℕ) (s : Scheduler)
    → Inv owed running s
    → find k s.vertices ≡ some v
    → 0 < v.predecessor_count
    → v.predecessor_count + 1 < word
    → (s' : Scheduler) × (add_dependency p k s ≡ some s')
      × Inv owed running s'
      × ((find p s.vertices ≡ none) × (s' ≡ s)
          ⊎ (v' : PhysicalVertex) × (find k s'.vertices ≡ some v')
            × (v'.predecessor_count ≡ v.predecessor_count + 1))
unfolding add_dependency
add_dependency-Inv p k v owed running s inv e waiting room =
    elim (Option-cases (find p s.vertices)) [
      | inl gone ↦ (s, rw (gone, add_dependency) refl, inv, inl (gone, refl))
      | inr (u, found) ↦
          let u' : PhysicalVertex = record u { successors = u.successors ++ k ∷ [] } in
          let (w, f, same) = successor_after p k v u u' s.vertices e found refl in
          let w' : PhysicalVertex = record w { predecessor_count = wrap_suc w.predecessor_count } in
          (
            record s { vertices = put k w' (put p u' s.vertices) },
            rw (found, add_dependency) (rw f refl),
            linked-Inv owed running s inv p k u u' w w' found f refl (omega arith) (refl, refl) refl
                (omega arith) (omega arith),
            inr (w', find-put k k w' w (put p u' s.vertices) f ∙ rw (==_refl k) refl, omega arith),
          )
    ]

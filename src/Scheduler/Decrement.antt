-- ===== src/Scheduler/Decrement.antt =====
-- `decrement_predecessor_count` of src/scheduler/scheduler.cpp keeps the scheduler's invariant.
use m3bp.Prelude.{
  ℕ, ◌+◌, ◌<◌, ◌≡◌, ◌∙◌, sym, subst, refl, none, some, List, ◌∷◌, arith, ◌==◌, count, if◌then◌else◌,
  word, count-cons, wrap_pred, inl, inr, Bool-cases,
}
use m3bp.Prelude.Table.{find, put, find-put}
use m3bp.Scheduler.State.{PhysicalVertex, Scheduler}
use m3bp.Scheduler.Graph.Counted.{Table, IsCounted, decrement-IsCounted}
use m3bp.Scheduler.Operations.{decrement_predecessor_count}
use m3bp.Scheduler.Invariant.{
  queued, released, released-some, IsPlaces, IsPlaceable, IsShaped, IsShaped-books, Inv,
}
use m3bp.Scheduler.Enqueue.{enqueue_lem}

-- What releasing tasks leaves alone.
pub record SameBooks (s s' : Scheduler) : Type 0 where
  pub places_same : s'.places ≡ s.places
  pub created_same : s'.created_task_count ≡ s.created_task_count
  pub unfinished_same : s'.unfinished_task_count ≡ s.unfinished_task_count
  pub exception_same : s'.exception ≡ s.exception

pub SameBooks-refl : (s : Scheduler) → SameBooks s s
SameBooks-refl s = record {
  places_same = refl;
  created_same = refl;
  unfinished_same = refl;
  exception_same = refl;
}

pub SameBooks-trans : (r s t : Scheduler) → SameBooks r s → SameBooks s t → SameBooks r t
SameBooks-trans r s t f g = record {
  places_same = g.places_same ∙ f.places_same;
  created_same = g.created_same ∙ f.created_same;
  unfinished_same = g.unfinished_same ∙ f.unfinished_same;
  exception_same = g.exception_same ∙ f.exception_same;
}

-- Every draw of a random worker is in range.
abbrev pub Draws : (ℕ → ℕ) → Scheduler → Type 0
Draws draw s = (k : ℕ) → draw k < s.places.max_concurrency

pub released-put :
    (k a : ℕ) (v w : PhysicalVertex) (m : Table)
    → find k m ≡ some w
    → released a (put k v m)
      ≡ (if k == a then (if v.predecessor_count == 0 then 1 else 0) else released a m)
unfolding released
released-put k a v w m e = elim (Bool-cases (k == a)) [
  | inl hit ↦ rw (find-put k a v w m e, hit, released) refl
  | inr miss ↦ rw (find-put k a v w m e, miss, released) refl
]

module _ (id : ℕ) (owed running : List ℕ) (s : Scheduler) (inv : Inv (id ∷ owed) running s)
    (v : PhysicalVertex) (e : find id s.vertices ≡ some v) where
  positive : (0 < v.predecessor_count) × (v.predecessor_count < word)
  positive = (
    ground (arith, inv.counters.counted id v e, count-cons id id owed),
    inv.counters.small id v e,
  )

  -- The vertex is written back with the lower counter, and `s'` has the new table.
  module _ (v' : PhysicalVertex) (s' : Scheduler)
      (lower : v'.predecessor_count + 1 ≡ v.predecessor_count) (same : v'.successors ≡ v.successors)
      (option : v'.locality_option ≡ v.locality_option)
      (keeps : 0 < v'.predecessor_count → v'.physical_task ≡ v.physical_task)
      (table : s'.vertices ≡ put id v' s.vertices) (books : SameBooks s s') (shaped : IsShaped s')
      (counts : (a : ℕ)
        → count a (queued s')
          ≡ count a (queued s)
            + (if a == id then (if v'.predecessor_count == 0 then 1 else 0) else 0)) where
    lowered-old :
        (a : ℕ) (u : PhysicalVertex)
        → find a s'.vertices ≡ some u
        → (w : PhysicalVertex) × (find a s.vertices ≡ some w)
          × (u.locality_option ≡ w.locality_option)
    lowered-old a u f =
        let f' : find a (put id v' s.vertices) ≡ some u = subst (λ m. find a m ≡ some u) table f in
        elim (Bool-cases (id == a)) [
          | inl hit ↦ (v, ground arith, ground (arith, find-put id a v' v s.vertices e))
          | inr miss ↦ (u, ground (arith, find-put id a v' v s.vertices e), refl)
        ]

    lowered-once : (a : ℕ) → count a (queued s') + count a running ≡ released a s'.vertices
    lowered-once a =
        subst (λ m. count a (queued s') + count a running ≡ released a m) (sym table)
          (ground (
            arith,
            positive,
            counts a,
            inv.once a,
            released-put id a v' v s.vertices e,
            released-some id v s.vertices e,
          ))

    pub lowered-Inv : Inv owed running s'
    lowered-Inv = record {
      counters =
          subst (IsCounted owed) (sym table)
            (decrement-IsCounted id owed v v' s.vertices inv.counters e lower same keeps);
      fresh = λ a u f.
          let (w, g, _) = lowered-old a u f in omega (arith, inv.fresh a w g, books.created_same);
      placeable = λ a u f.
          let (w, g, o) = lowered-old a u f in
          subst (λ x. IsPlaceable s'.places x) (sym o)
            (subst (λ p. IsPlaceable p w.locality_option) (sym books.places_same)
              (inv.placeable a w g));
      places = subst IsPlaces (sym books.places_same) inv.places;
      shaped = shaped;
      once = lowered-once;
    }

-- Making an owed decrement cannot fail, and keeps the invariant: the task whose counter falls to
-- zero is moved to one queue, any other stays.
pub decrement_predecessor_count-Inv :
    (draw : ℕ → ℕ) (id : ℕ) (owed running : List ℕ) (s : Scheduler)
    → Draws draw s
    → Inv (id ∷ owed) running s
    → (s' : Scheduler) × (decrement_predecessor_count draw id s ≡ some s')
      × Inv owed running s'
      × SameBooks s s'
unfolding decrement_predecessor_count
decrement_predecessor_count-Inv draw id owed running s draws inv =
    let (v, e) = inv.counters.live id (ground (arith, count-cons id id owed)) in
    let pos = positive id owed running s inv v e in
    elim (Bool-cases (wrap_pred v.predecessor_count == 0)) [
      | inl last ↦
          let (t, holds, named) = inv.counters.held id v e pos.0 in
          let v' : PhysicalVertex = record v {
            predecessor_count = wrap_pred v.predecessor_count;
            physical_task = none;
          } in
          let (s', f, q) =
            enqueue_lem (record s { vertices = put id v' s.vertices }) t inv.places
              (IsShaped-books s _ _ _ _ inv.shaped) (draw id) v.locality_option (draws id)
              (inv.placeable id v e) in
          let books : SameBooks s s' = record {
            places_same = q.places_same;
            created_same = q.created_same;
            unfinished_same = q.unfinished_same;
            exception_same = q.exception_same;
          } in
          (
            s',
            rw (e, last, holds) f,
            lowered-Inv id owed running s inv v e v' s' (ground arith) refl refl
                (λ h. absurd (ground arith)) q.vertices_same books q.shaped
                (λ a. ground (arith, q.counts a)),
            books,
          )
      | inr more ↦
          let v' : PhysicalVertex = record v {
            predecessor_count = wrap_pred v.predecessor_count;
          } in
          let same_books : SameBooks s (record s { vertices = put id v' s.vertices }) = record {
            places_same = refl;
            created_same = refl;
            unfinished_same = refl;
            exception_same = refl;
          } in
          (
            record s { vertices = put id v' s.vertices },
            rw (e, more) refl,
            lowered-Inv id owed running s inv v e v' _ (ground arith) refl refl (λ h. refl) refl
                same_books (IsShaped-books s _ _ _ _ inv.shaped) (λ a. ground arith),
            same_books,
          )
    ]

-- ===== src/Scheduler/Graph/Changes.antt =====
-- The other writes to the dependency graph keep its counters right: a new vertex, a new edge, and
-- the removal of a completed vertex.
use m3bp.Prelude.{
  ℕ, ◌+◌, ◌<◌, ◌≡◌, ◌≢◌, ◌⊎◌, ◌∙◌, subst, refl, none, some, List, [], ◌∷◌, ◌++◌, arith, ◌==◌, count,
  if◌then◌else◌, word, Bool-cases, inl, inr, count-cons, count-nil, count-append, ==_iff,
}
use m3bp.Prelude.Table.{
  find, put, erase, find-put, find-erase, put-Distinct, erase-Distinct, find-cons,
}
use m3bp.Scheduler.State.{PhysicalVertex}
use m3bp.Scheduler.Graph.Degree.{indegree, indegree-put, indegree-erase, indegree-cons}
use m3bp.Scheduler.Graph.Counted.{Table, Holds, IsCounted}

-- A vertex with one decrement owed is added under a new identifier.
module _ (id : ℕ) (owed : List ℕ) (v : PhysicalVertex) (m : Table) (c : IsCounted owed m)
    (absent : find id m ≡ none) (one : v.predecessor_count ≡ 1) (bare : v.successors ≡ [])
    (task : Holds id v) where
  degree_new : (a : ℕ) → indegree a ((id, v) ∷ m) ≡ indegree a m
  degree_new a =
      let h : count a v.successors ≡ count a [] = λ i. count a (bare i) in
      omega (arith, indegree-cons a id v m, count-nil a)

  -- Nothing was owed to the identifier.
  unowed : count id owed + indegree id m ≡ 0
  unowed = elim (Bool-cases (count id owed + indegree id m == 0)) [
    | inl e ↦ (==_iff _ _).0 e
    | inr n ↦ let (u, f) = c.live id (ground arith) in absurd (ground arith)
  ]

  create_old :
      (a : ℕ) (u : PhysicalVertex)
      → find a ((id, v) ∷ m) ≡ some u
      → ((id ≡ a) × (u ≡ v)) ⊎ ((id ≢ a) × (find a m ≡ some u))
  create_old a u f = ground (arith, find-cons a id v m)

  create-counted :
      (a : ℕ) (u : PhysicalVertex)
      → find a ((id, v) ∷ m) ≡ some u
      → u.predecessor_count ≡ count a (id ∷ owed) + indegree a ((id, v) ∷ m)
  create-counted a u f = elim (create_old a u f) [
    | inl (here, new) ↦
        let none_owed : count a owed + indegree a m ≡ 0 =
          subst (λ k. count k owed + indegree k m ≡ 0) here unowed in
        ground (arith, degree_new a, count-cons a id owed)
    | inr (there, old) ↦ ground (arith, degree_new a, count-cons a id owed, c.counted a u old)
  ]

  create-live :
      (a : ℕ)
      → 0 < count a (id ∷ owed) + indegree a ((id, v) ∷ m)
      → (u : PhysicalVertex) × (find a ((id, v) ∷ m) ≡ some u)
  create-live a h = elim (Bool-cases (id == a)) [
    | inl hit ↦ (v, find-cons a id v m ∙ (rw hit))
    | inr miss ↦
        let (u, f) = c.live a (ground (arith, degree_new a, count-cons a id owed)) in
        (u, find-cons a id v m ∙ rw miss f)
  ]

  pub create-IsCounted : IsCounted (id ∷ owed) ((id, v) ∷ m)
  create-IsCounted = record {
    distinct = (absent, c.distinct);
    live = create-live;
    counted = create-counted;
    small = λ a u f. ground (arith, create_old a u f, c.small a u);
    held = λ a u f pos. elim (create_old a u f) [
      | inl (here, new) ↦ let (t, k, n) = task in (t, ground arith, ground arith)
      | inr (there, old) ↦ c.held a u old pos
    ];
  }

-- A completed vertex goes, and a decrement is owed to each of its successors.
module _ (id : ℕ) (owed : List ℕ) (v : PhysicalVertex) (m : Table) (c : IsCounted owed m)
    (e : find id m ≡ some v) (released : v.predecessor_count ≡ 0) where
  found_left : (a : ℕ) → find a (erase id m) ≡ (if id == a then none else find a m)
  found_left a = find-erase id a m c.distinct

  erase_old :
      (a : ℕ) (u : PhysicalVertex) → find a (erase id m) ≡ some u → (id ≢ a) × (find a m ≡ some u)
  erase_old a u f = ground (arith, found_left a)

  balance :
      (a : ℕ)
      → count a (v.successors ++ owed) + indegree a (erase id m) ≡ count a owed + indegree a m
  balance a = omega (arith, count-append a v.successors owed, indegree-erase a id v m e)

  erase-live :
      (a : ℕ)
      → 0 < count a (v.successors ++ owed) + indegree a (erase id m)
      → (u : PhysicalVertex) × (find a (erase id m) ≡ some u)
  erase-live a h =
      let (u, f) = c.live a (omega (arith, balance a)) in
      elim (Bool-cases (id == a)) [
        | inl hit ↦
            let here : id ≡ a = (==_iff _ _).0 hit in
            absurd (ground (arith, balance id, c.counted id v e))
        | inr miss ↦ (u, found_left a ∙ rw miss f)
      ]

  pub erase-IsCounted : IsCounted (v.successors ++ owed) (erase id m)
  erase-IsCounted = record {
    distinct = erase-Distinct id m c.distinct;
    live = erase-live;
    counted = λ a u f. omega (arith, balance a, c.counted a u (erase_old a u f).1);
    small = λ a u f. c.small a u (erase_old a u f).1;
    held = λ a u f. c.held a u (erase_old a u f).1;
  }

-- An edge from `p` to a vertex `k` that has not been released.
module _ (p k : ℕ) (owed : List ℕ) (u u' v v' : PhysicalVertex) (m : Table) (c : IsCounted owed m)
    (e : find p m ≡ some u) (f : find k (put p u' m) ≡ some v)
    (longer : u'.successors ≡ u.successors ++ k ∷ [])
    (same_u : (u'.predecessor_count ≡ u.predecessor_count) × (u'.physical_task ≡ u.physical_task))
    (higher : v'.predecessor_count ≡ v.predecessor_count + 1)
    (same_v : (v'.successors ≡ v.successors) × (v'.physical_task ≡ v.physical_task))
    (waiting : 0 < v.predecessor_count) (room : v.predecessor_count + 1 < word) where
  abbrev linked : Table
  linked = put k v' (put p u' m)

  link_found :
      (a : ℕ) → find a linked ≡ (if k == a then some v' else (if p == a then some u' else find a m))
  link_found a = ground (arith, find-put k a v' v (put p u' m) f, find-put p a u' u m e)

  -- What a vertex was before, with its counter.
  link_old :
      (a : ℕ) (x : PhysicalVertex)
      → find a linked ≡ some x
      → (w : PhysicalVertex) × (find a m ≡ some w)
        × (x.predecessor_count ≡ w.predecessor_count + (if a == k then 1 else 0))
        × (x.physical_task ≡ w.physical_task)
        × (a ≡ k → w.predecessor_count ≡ v.predecessor_count)
  link_old a x g = elim (Bool-cases (p == a)) [
    | inl hit ↦ (
      u,
      ground arith,
      ground (arith, link_found a, find-put p k u' u m e),
      ground (arith, link_found a, find-put p k u' u m e),
      λ here. ground (arith, find-put p k u' u m e),
    )
    | inr miss ↦ elim (Bool-cases (k == a)) [
      | inl hit ↦ (
        v,
        ground (arith, find-put p k u' u m e),
        ground (arith, link_found a),
        ground (arith, link_found a),
        λ here. refl,
      )
      | inr away ↦
          (x, ground (arith, link_found a), ground arith, refl, λ here. absurd (ground arith))
    ]
  ]

  degree_linked : (a : ℕ) → indegree a linked ≡ indegree a m + (if a == k then 1 else 0)
  degree_linked a =
      let h : count a v'.successors ≡ count a v.successors = λ i. count a (same_v.0 i) in
      let g : count a u'.successors ≡ count a (u.successors ++ k ∷ []) = λ i. count a (longer i) in
      omega (
        arith,
        indegree-put a k v' v (put p u' m) f,
        indegree-put a p u' u m e,
        count-append a u.successors (k ∷ []),
        count-cons a k [],
        count-nil a,
      )

  link-live :
      (a : ℕ)
      → 0 < count a owed + indegree a linked
      → (x : PhysicalVertex) × (find a linked ≡ some x)
  link-live a h = elim (Bool-cases (k == a)) [
    | inl hit ↦ (v', ground (arith, link_found a))
    | inr miss ↦ elim (Bool-cases (p == a)) [
      | inl hit ↦ (u', ground (arith, link_found a))
      | inr away ↦
          let (x, g) = c.live a (ground (arith, degree_linked a)) in
          (x, ground (arith, link_found a))
    ]
  ]

  pub link-IsCounted : IsCounted owed linked
  link-IsCounted = record {
    distinct = put-Distinct k v' _ (put-Distinct p u' m c.distinct);
    live = link-live;
    counted = λ a x g.
        let (w, old, n, _, _) = link_old a x g in
        omega (arith, n, degree_linked a, c.counted a w old);
    small = λ a x g.
        let (w, old, n, _, at_k) = link_old a x g in ground (arith, n, at_k, c.small a w old);
    held = λ a x g pos.
        let (w, old, n, task, at_k) = link_old a x g in
        let (t, h, i) = c.held a w old (ground (arith, n, at_k)) in (t, task ∙ h, i);
  }

-- ===== src/Scheduler/Graph/Counted.antt =====
-- The counters of the dependency graph are right: a vertex counts the edges into it from vertices
-- that are still there, and the decrements that are owed to it. Owed are that of `commit_task`
-- until it is made, and those of a completed predecessor until its thread has made them.
use m3bp.Prelude.{
  ℕ, ◌+◌, ◌<◌, ◌≡◌, ◌≢◌, ◌⊎◌, ◌∙◌, subst, some, List, ◌∷◌, arith, ◌==◌, count, if◌then◌else◌, word,
  Bool-cases, inl, inr, count-cons,
}
use m3bp.Prelude.Table.{find, put, Distinct, find-put, put-Distinct}
use m3bp.Scheduler.State.{PhysicalTask, PhysicalVertex}
use m3bp.Scheduler.Graph.Degree.{indegree, indegree-put}

abbrev pub Table : Type 0
Table = List (ℕ × PhysicalVertex)

-- The vertex still holds its task, under its own identifier.
abbrev pub Holds : ℕ → PhysicalVertex → Type 0
Holds id v = (t : PhysicalTask) × (v.physical_task ≡ some t) × (t.physical_task_id ≡ id)

pub record IsCounted (owed : List ℕ) (m : Table) : Type 0 where
  pub distinct : Distinct m
  pub live :
      (id : ℕ) → 0 < count id owed + indegree id m → (v : PhysicalVertex) × (find id m ≡ some v)
  pub counted :
      (id : ℕ) (v : PhysicalVertex)
      → find id m ≡ some v
      → v.predecessor_count ≡ count id owed + indegree id m
  pub small : (id : ℕ) (v : PhysicalVertex) → find id m ≡ some v → v.predecessor_count < word
  pub held :
      (id : ℕ) (v : PhysicalVertex) → find id m ≡ some v → 0 < v.predecessor_count → Holds id v

-- Only how often a decrement is owed matters.
pub IsCounted-respects :
    (xs ys : List ℕ) (m : Table)
    → ((a : ℕ) → count a xs ≡ count a ys)
    → IsCounted xs m
    → IsCounted ys m
IsCounted-respects xs ys m same c = record {
  distinct = c.distinct;
  live = λ id h. c.live id (omega (arith, same id));
  counted = λ id v e. omega (arith, same id, c.counted id v e);
  small = c.small;
  held = c.held;
}

-- One owed decrement is made.
module _ (id : ℕ) (owed : List ℕ) (v v' : PhysicalVertex) (m : Table) (c : IsCounted (id ∷ owed) m)
    (e : find id m ≡ some v) (lower : v'.predecessor_count + 1 ≡ v.predecessor_count)
    (same : v'.successors ≡ v.successors)
    (keeps : 0 < v'.predecessor_count → v'.physical_task ≡ v.physical_task) where
  degree : (a : ℕ) → indegree a (put id v' m) ≡ indegree a m
  degree a =
      let h : count a v'.successors ≡ count a v.successors = λ i. count a (same i) in
      omega (arith, indegree-put a id v' v m e)

  found : (a : ℕ) → find a (put id v' m) ≡ (if id == a then some v' else find a m)
  found a = find-put id a v' v m e

  decrement-live :
      (a : ℕ)
      → 0 < count a owed + indegree a (put id v' m)
      → (u : PhysicalVertex) × (find a (put id v' m) ≡ some u)
  decrement-live a h = elim (Bool-cases (id == a)) [
    | inl hit ↦ (v', found a ∙ (rw hit))
    | inr miss ↦
        let (u, f) = c.live a (omega (arith, degree a, count-cons a id owed)) in
        (u, found a ∙ rw miss f)
  ]

  -- What a vertex of the new table was before.
  decrement-old :
      (a : ℕ) (u : PhysicalVertex)
      → find a (put id v' m) ≡ some u
      → ((id ≡ a) × (u ≡ v')) ⊎ ((id ≢ a) × (find a m ≡ some u))
  decrement-old a u f = ground (arith, found a)

  decrement-counted :
      (a : ℕ) (u : PhysicalVertex)
      → find a (put id v' m) ≡ some u
      → u.predecessor_count ≡ count a owed + indegree a (put id v' m)
  decrement-counted a u f = elim (decrement-old a u f) [
    | inl (here, new) ↦
        let old : find a m ≡ some v = subst (λ k. find k m ≡ some v) here e in
        ground (arith, degree a, count-cons a id owed, c.counted a v old)
    | inr (there, old) ↦ ground (arith, degree a, count-cons a id owed, c.counted a u old)
  ]

  pub decrement-IsCounted : IsCounted owed (put id v' m)
  decrement-IsCounted = record {
    distinct = put-Distinct id v' m c.distinct;
    live = decrement-live;
    counted = decrement-counted;
    small = λ a u f. ground (arith, decrement-old a u f, c.small a u, c.small id v e);
    held = λ a u f pos. elim (decrement-old a u f) [
      | inl (here, new) ↦
          let (t, k, n) = c.held id v e (omega arith) in (t, ground (arith, keeps), ground arith)
      | inr (there, old) ↦ c.held a u old pos
    ];
  }

-- ===== src/Scheduler/Graph/Degree.antt =====
-- How many edges of the graph end in a vertex.
use m3bp.Prelude.{
  ◌≤◌, ◌<◌, Bool-cases, ltb, inl, inr, ℕ, ◌+◌, ◌≡◌, some, List, [], ◌∷◌, arith, count, refl,
}
use m3bp.Prelude.Table.{find, put, erase, Distinct}
use m3bp.Scheduler.State.{PhysicalVertex}

pub indegree : ℕ → List (ℕ × PhysicalVertex) → ℕ
indegree id [] = 0
indegree id ((k, v) ∷ m) = count id v.successors + indegree id m

pub indegree-nil : (id : ℕ) → indegree id [] ≡ 0
unfolding indegree
indegree-nil id = refl

pub indegree-cons :
    (id k : ℕ) (v : PhysicalVertex) (m : List (ℕ × PhysicalVertex))
    → indegree id ((k, v) ∷ m) ≡ count id v.successors + indegree id m
unfolding indegree
indegree-cons id k v m = refl

pub indegree-put :
    (id k : ℕ) (v w : PhysicalVertex) (m : List (ℕ × PhysicalVertex))
    → find k m ≡ some w
    → indegree id (put k v m) + count id w.successors ≡ indegree id m + count id v.successors
unfolding indegree find put
indegree-put id k v w [] h = ground arith
indegree-put id k v w ((j, u) ∷ m) h = ground (arith, indegree-put id k v w m)

pub indegree-erase :
    (id k : ℕ) (w : PhysicalVertex) (m : List (ℕ × PhysicalVertex))
    → find k m ≡ some w
    → indegree id (erase k m) + count id w.successors ≡ indegree id m
unfolding indegree find erase
indegree-erase id k w [] h = ground arith
indegree-erase id k w ((j, u) ∷ m) h = ground (arith, indegree-erase id k w m)

-- An edge counts in the degree of the vertex that it ends in.
pub count-le-indegree :
    (id k : ℕ) (v : PhysicalVertex) (m : List (ℕ × PhysicalVertex))
    → find k m ≡ some v
    → count id v.successors ≤ indegree id m
unfolding indegree find
count-le-indegree id k v [] h = ground arith
count-le-indegree id k v ((j, u) ∷ m) h = ground (arith, count-le-indegree id k v m)

-- A vertex with a degree has an edge from some vertex.
pub indegree_pos :
    (id : ℕ) (m : List (ℕ × PhysicalVertex))
    → Distinct m
    → 0 < indegree id m
    → (k : ℕ) × (v : PhysicalVertex) × (find k m ≡ some v) × (0 < count id v.successors)
unfolding indegree find
indegree_pos id [] d h = absurd (omega arith)
indegree_pos id ((j, u) ∷ m) d h = elim (Bool-cases (ltb 0 (count id u.successors))) [
  | inl edge ↦ (j, u, ground arith, ground arith)
  | inr none_here ↦
      let (k, v, f, p) = indegree_pos id m d.1 (ground arith) in (k, v, ground (arith, d.0), p)
]

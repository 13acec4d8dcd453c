-- ===== src/Memory/Locking.antt =====
-- The references of src/memory/memory_reference.cpp keep the counts of their objects right.
use m3bp.Prelude.{
  ℕ, ◌+◌, ◌<◌, ◌≡◌, refl, ap, true, false, some, List, [], ◌∷◌, arith, word, wrap_suc, ltb, count,
  count-nil, count-cons, Bool-cases, inl, inr,
}
use m3bp.Memory.Manager.{
  AffinityMode, no_affinity, compact, scatter, MemoryObject, MemoryManager, reference_to,
  new_manager, Topology, Allocation, allocated, bad_alloc, manage, allocate_membind, allocate,
  allocate_at, allocate_on_node, lock, copy_locked, destroy_locked, assign_locked,
  reference_from_locked, destroy_reference,
}
use m3bp.Memory.References.{Inv, plus, share-Inv, lock_object-Inv, unlock_object-Inv}
use m3bp.Prelude.Words.{◌+w◌}
use m3bp.Prelude.Table.{find-nil}
use m3bp.Memory.Lifetime.{
  live_size-nil, Inv-same, drop_owner-Inv, manage-Inv, next_taken, next_taken-Inv,
}

-- `refs` and `locks` are the objects of the references that are alive, plain ones and locked ones.
-- An owner is either, and a locked one is a lock.
abbrev pub RefInv : List ℕ → List ℕ → MemoryManager → Type 0
RefInv refs locks m = Inv (λ a. count a refs + count a locks) (λ a. count a locks) m

-- What an allocation of `size` bytes tells: one reference to a fresh object, if there was a block;
-- else the identifier is lost and nothing else has changed.
abbrev pub Tells : Topology → List ℕ → List ℕ → ℕ → MemoryManager → Allocation → Type 0
Tells topo refs locks size m (allocated r m') =
    (topo.malloc size ≡ true)
    × (r ≡ reference_to m.next_identifier)
    × (m'.total_memory_usage ≡ m.total_memory_usage +w size)
    × RefInv (m.next_identifier ∷ refs) locks m'
Tells topo refs locks size m (bad_alloc m') =
    (topo.malloc size ≡ false)
    × (m' ≡ record m { next_identifier = m.next_identifier + 1 })
    × RefInv refs locks m'

module _ (topo : Topology) (refs locks : List ℕ) (size : ℕ) (m : MemoryManager)
    (inv : RefInv refs locks m) (room : m.next_identifier + 1 < word) (small : size < word) where
  allocate_at-Inv :
      (block_node numa_node : ℕ)
      → block_node < topo.node_count
      → (r : Allocation) × (allocate_at topo size block_node numa_node m ≡ some r)
        × Tells topo refs locks size m r
  unfolding allocate_at allocate_membind manage
  allocate_at-Inv block_node numa_node there =
      let owned : ℕ → ℕ = λ a. count a refs + count a locks in
      let locked : ℕ → ℕ = λ a. count a locks in
      let id = m.next_identifier in
      let known : ltb block_node topo.node_count ≡ true = ground arith in
      let next : wrap_suc id ≡ id + 1 = omega arith in
      elim (Bool-cases (topo.malloc size)) [
        | inl found ↦ (
          allocated (reference_to id) (manage id size numa_node (next_taken m)),
          rw (known, found) refl,
          (
            found,
            refl,
            refl,
            Inv-same _ _ _ _ _ (λ a. ground (arith, count-cons a id refs)) (λ a. refl)
                (manage-Inv owned locked size numa_node m inv room small),
          ),
        )
        | inr gone ↦ (
          bad_alloc (next_taken m),
          rw (known, gone) refl,
          (
            gone,
            ap (λ (n : ℕ). record m { next_identifier = n }) next,
            next_taken-Inv owned locked m inv room,
          ),
        )
      ]

-- Under the counts of references, with sizes and identifiers below 2 ^ 64, and nodes that exist, an
-- allocation on a node meets no failed assert. If `malloc` gives a block, there is one reference to
-- a fresh object, and its size is in use; else `std::bad_alloc` is thrown and nothing has changed
-- but the next identifier. The counts are kept either way.
pub allocate_on_node-Inv :
    (topo : Topology) (refs locks : List ℕ) (size numa_node : ℕ) (m : MemoryManager)
    → RefInv refs locks m
    → m.next_identifier + 1 < word
    → size < word
    → numa_node < topo.node_count
    → topo.binded_node < topo.node_count
    → (r : Allocation) × (allocate_on_node topo size numa_node m ≡ some r)
      × Tells topo refs locks size m r
unfolding allocate_on_node allocate
allocate_on_node-Inv topo refs locks size numa_node m inv room small there bound =
    let on_node = allocate_at-Inv topo refs locks size m inv room small numa_node numa_node there in
    elim m.affinity_mode
      as (λ mode.
        (r : Allocation) × (elim mode [
          | no_affinity ↦ allocate_at topo size topo.binded_node 0 m
          | compact ↦ allocate_at topo size numa_node numa_node m
          | scatter ↦ allocate_at topo size numa_node numa_node m
        ]
          ≡ some r)
        × Tells topo refs locks size m r) [
          | no_affinity ↦
              allocate_at-Inv topo refs locks size m inv room small topo.binded_node 0 bound
          | compact ↦ on_node
          | scatter ↦ on_node
        ]

-- A shared pointer is copied and its object locked.
copy_locked-Inv :
    (refs locks : List ℕ) (a : ℕ) (m : MemoryManager)
    → RefInv refs locks m
    → 0 < count a refs + count a locks
    → count a locks + 1 < word
    → (m' : MemoryManager) × (copy_locked (some a) m ≡ some m') × RefInv refs (a ∷ locks) m'
unfolding copy_locked
copy_locked-Inv refs locks a m inv h small =
    let owned : ℕ → ℕ = λ x. count x refs + count x locks in
    let locked : ℕ → ℕ = λ x. count x locks in
    let (m₁, e, i) = share-Inv owned locked m a inv h in
    let (m₂, f, j) = lock_object-Inv (plus 1 a owned) locked m₁ a i (ground arith) small in
    (
      m₂,
      rw e f,
      Inv-same _ _ _ _ m₂ (λ x. ground (arith, count-cons x a locks))
          (λ x. ground (arith, count-cons x a locks)) j,
    )

-- Locking through a live reference gives a locked one to the same object.
pub lock-Inv :
    (refs locks : List ℕ) (a : ℕ) (m : MemoryManager)
    → RefInv refs locks m
    → 0 < count a refs
    → count a locks + 1 < word
    → (m' : MemoryManager) × (lock (reference_to a) m ≡ some (some a, m'))
      × RefInv refs (a ∷ locks) m'
unfolding lock
lock-Inv refs locks a m inv h small =
    let (m', e, i) = copy_locked-Inv refs locks a m inv (omega arith) small in (m', rw e refl, i)

-- The end of a locked reference gives up its lock, and the object when nobody else holds it.
pub destroy_locked-Inv :
    (refs locks : List ℕ) (a : ℕ) (m : MemoryManager)
    → RefInv refs (a ∷ locks) m
    → count a locks + 1 < word
    → (m' : MemoryManager) × (destroy_locked (some a) m ≡ some m') × RefInv refs locks m'
unfolding destroy_locked
destroy_locked-Inv refs locks a m inv small =
    let owned : ℕ → ℕ = λ x. count x refs + count x locks in
    let locked : ℕ → ℕ = λ x. count x locks in
    let start : Inv (plus 1 a owned) (plus 1 a locked) m =
      Inv-same _ _ _ _ m (λ x. ground (arith, count-cons x a locks))
        (λ x. ground (arith, count-cons x a locks)) inv in
    let (m₁, e, i) = unlock_object-Inv (plus 1 a owned) locked m a start (ground arith) small in
    let (m₂, f, j) = drop_owner-Inv owned locked m₁ a i (λ z. omega arith) in (m₂, rw e f, j)

-- So does the end of a plain reference.
pub destroy_reference-Inv :
    (refs locks : List ℕ) (a : ℕ) (m : MemoryManager)
    → RefInv (a ∷ refs) locks m
    → (m' : MemoryManager) × (destroy_reference (reference_to a) m ≡ some m') × RefInv refs locks m'
unfolding destroy_reference
destroy_reference-Inv refs locks a m inv =
    let owned : ℕ → ℕ = λ x. count x refs + count x locks in
    let locked : ℕ → ℕ = λ x. count x locks in
    drop_owner-Inv owned locked m a
      (Inv-same _ _ _ _ m (λ x. ground (arith, count-cons x a refs)) (λ x. refl) inv)
      (λ z. omega arith)

-- Assigning one locked reference to another moves the lock, also when both are to one object and
-- nobody else holds it.
pub assign_locked-Inv :
    (refs locks : List ℕ) (a b : ℕ) (m : MemoryManager)
    → RefInv refs (a ∷ locks) m
    → 0 < count b refs + count b (a ∷ locks)
    → count a locks + 1 < word
    → count b locks + 1 < word
    → (m' : MemoryManager) × (assign_locked (some a) (some b) m ≡ some m')
      × RefInv refs (b ∷ locks) m'
unfolding assign_locked
assign_locked-Inv refs locks a b m inv h small small' =
    let owned : ℕ → ℕ = λ x. count x refs + count x locks in
    let locked : ℕ → ℕ = λ x. count x locks in
    let start : Inv (plus 1 a owned) (plus 1 a locked) m =
      Inv-same _ _ _ _ m (λ x. ground (arith, count-cons x a locks))
        (λ x. ground (arith, count-cons x a locks)) inv in
    let (m₁, e₁, i₁) = unlock_object-Inv (plus 1 a owned) locked m a start (ground arith) small in
    let (m₂, e₂, i₂) =
      share-Inv (plus 1 a owned) locked m₁ b i₁ (ground (arith, count-cons b a locks)) in
    let (m₃, e₃, i₃) =
      drop_owner-Inv (plus 1 b owned) locked m₂ a
        (Inv-same _ _ _ _ m₂ (λ x. ground arith) (λ x. refl) i₂) (λ z. ground arith) in
    let (m₄, e₄, i₄) = lock_object-Inv (plus 1 b owned) locked m₃ b i₃ (ground arith) small' in
    (
      m₄,
      rw (e₁, e₂, e₃) e₄,
      Inv-same _ _ _ _ m₄ (λ x. ground (arith, count-cons x b locks))
          (λ x. ground (arith, count-cons x b locks)) i₄,
    )

-- A plain reference in place of a locked one.
pub reference_from_locked-Inv :
    (refs locks : List ℕ) (a : ℕ) (m : MemoryManager)
    → RefInv refs (a ∷ locks) m
    → count a locks + 1 < word
    → (m' : MemoryManager) × (reference_from_locked (some a) m ≡ some (reference_to a, m'))
      × RefInv (a ∷ refs) locks m'
unfolding reference_from_locked
reference_from_locked-Inv refs locks a m inv small =
    let owned : ℕ → ℕ = λ x. count x refs + count x locks in
    let locked : ℕ → ℕ = λ x. count x locks in
    let start : Inv (plus 1 a owned) (plus 1 a locked) m =
      Inv-same _ _ _ _ m (λ x. ground (arith, count-cons x a locks))
        (λ x. ground (arith, count-cons x a locks)) inv in
    let (m', e, i) = unlock_object-Inv (plus 1 a owned) locked m a start (ground arith) small in
    (m', rw e refl, Inv-same _ _ _ _ m' (λ x. ground (arith, count-cons x a refs)) (λ x. refl) i)

-- A manager starts with nothing.
pub new_manager-Inv : (mode : AffinityMode) → RefInv [] [] (new_manager mode)
new_manager-Inv mode = record {
  distinct = tt;
  distinct_managed = tt;
  owners = λ a. ground (arith, find-nil MemoryObject a, count-nil a);
  locks = λ a. ground (arith, find-nil MemoryObject a, count-nil a);
  live = λ a o e. absurd (ground (arith, find-nil MemoryObject a));
  managed = λ a. ground (arith, find-nil ℕ a, count-nil a);
  fresh = λ a h. omega (arith, count-nil a);
  room = omega arith;
  usage = omega (arith, live_size-nil);
  quiet = refl;
}

-- ===== src/Memory/References.antt =====
-- The counts of src/memory/memory_object.cpp and memory_reference.cpp: an object lives as long as
-- it has owners, its lock count is the number of locked references, and the usage of
-- src/memory/memory_manager.cpp is the size of the objects that live.
use m3bp.Prelude.{
  ℕ, ◌+◌, ◌%◌, ◌<◌, ◌≤◌, ◌≡◌, refl, sym, ◌∙◌, ap, false, none, some, List, [], ◌∷◌, ◌==◌,
  if◌then◌else◌, arith, word, wrap_suc, wrap_pred, Option-cases, inl, inr,
}
use m3bp.Prelude.Table.{find, put, erase, Distinct, find-put, put-Distinct}
use m3bp.Memory.Manager.{MemoryObject, MemoryManager, share, lock_object, unlock_object}

abbrev pub Heap : Type 0
Heap = List (ℕ × MemoryObject)

abbrev pub owners_at : ℕ → Heap → ℕ
owners_at a m = elim (find a m) [ none ↦ 0 | some o ↦ o.owners ]

abbrev pub locks_at : ℕ → Heap → ℕ
locks_at a m = elim (find a m) [ none ↦ 0 | some o ↦ o.lock_count ]

unfoldable pub live_size : Heap → ℕ
live_size [] = 0
live_size ((a, o) ∷ m) = o.buffer_size + live_size m

-- `owned` and `locked` give for each object the shared pointers to it and the locks on it.
pub record Inv (owned locked : ℕ → ℕ) (m : MemoryManager) : Type 0 where
  pub distinct : Distinct m.objects
  pub distinct_managed : Distinct m.managed_objects
  pub owners : (a : ℕ) → owners_at a m.objects ≡ owned a
  pub locks : (a : ℕ) → locks_at a m.objects ≡ locked a
  pub live :
      (a : ℕ) (o : MemoryObject)
      → find a m.objects ≡ some o
      → (0 < o.owners) × (o.self_identifier ≡ a) × (o.buffer_size < word)
  pub managed : (a : ℕ) → find a m.managed_objects ≡ (if 0 == owned a then none else some a)
  pub fresh : (a : ℕ) → m.next_identifier ≤ a → owned a ≡ 0
  pub room : m.next_identifier < word
  pub usage : m.total_memory_usage ≡ live_size m.objects % word
  pub quiet : m.assert_on_release ≡ false

pub live_size-cons :
    (a : ℕ) (o : MemoryObject) (m : Heap) → live_size ((a, o) ∷ m) ≡ o.buffer_size + live_size m
unfolding live_size
live_size-cons a o m = refl

live_size-put :
    (a : ℕ) (o u : MemoryObject) (m : Heap)
    → find a m ≡ some o
    → u.buffer_size ≡ o.buffer_size
    → live_size (put a u m) ≡ live_size m
unfolding live_size find put
live_size-put a o u [] e s = refl
live_size-put a o u ((b, x) ∷ m) e s = ground (arith, live_size-put a o u m)

pub live_size-erase :
    (a : ℕ) (o : MemoryObject) (m : Heap)
    → find a m ≡ some o
    → live_size (erase a m) + o.buffer_size ≡ live_size m
unfolding live_size find erase
live_size-erase a o [] e = absurd (ground arith)
live_size-erase a o ((b, x) ∷ m) e = ground (arith, live_size-erase a o m)

pub owned_found :
    (owned locked : ℕ → ℕ) (m : MemoryManager) (a : ℕ)
    → Inv owned locked m
    → 0 < owned a
    → (o : MemoryObject) × (find a m.objects ≡ some o)
      × (o.owners ≡ owned a)
      × (o.lock_count ≡ locked a)
owned_found owned locked m a inv h = elim (Option-cases (find a m.objects)) [
  | inl e ↦ absurd (ground (arith, inv.owners a, e))
  | inr (o, e) ↦ (o, e, ground (arith, inv.owners a, e), ground (arith, inv.locks a, e))
]

-- An object is written anew, with other counts.
pub put-Inv :
    (owned locked owned' locked' : ℕ → ℕ) (m : MemoryManager) (a : ℕ) (o u : MemoryObject)
    → Inv owned locked m
    → find a m.objects ≡ some o
    → u.buffer_size ≡ o.buffer_size
    → u.self_identifier ≡ o.self_identifier
    → 0 < u.owners
    → ((x : ℕ) → owned' x ≡ (if a == x then u.owners else owned x))
    → ((x : ℕ) → locked' x ≡ (if a == x then u.lock_count else locked x))
    → Inv owned' locked' (record m { objects = put a u m.objects })
put-Inv owned locked owned' locked' m a o u inv e s i pos ow lo = record {
  distinct = put-Distinct a u m.objects inv.distinct;
  distinct_managed = inv.distinct_managed;
  owners = λ x. ground (arith, find-put a x u o m.objects e, inv.owners x, ow x);
  locks = λ x. ground (arith, find-put a x u o m.objects e, inv.locks x, lo x);
  live = λ x v f. ground (arith, find-put a x u o m.objects e, inv.live x v, inv.live a o e);
  managed = λ x. ground (arith, inv.managed x, ow x, inv.owners x, inv.owners a, inv.live a o e);
  fresh = λ x h. ground (arith, inv.fresh x h, ow x, inv.owners x, inv.live a o e);
  room = inv.room;
  usage = inv.usage ∙ ap (λ n. n % word) (sym (live_size-put a o u m.objects e s));
  quiet = inv.quiet;
}

-- `f` with `n` more at `a`.
abbrev pub plus : ℕ → ℕ → (ℕ → ℕ) → ℕ → ℕ
plus n a f x = if a == x then f x + n else f x

pub share-Inv :
    (owned locked : ℕ → ℕ) (m : MemoryManager) (a : ℕ)
    → Inv owned locked m
    → 0 < owned a
    → (m' : MemoryManager) × (share a m ≡ some m') × Inv (plus 1 a owned) locked m'
unfolding share
share-Inv owned locked m a inv h =
    let (o, e, ow, lo) = owned_found owned locked m a inv h in
    (
      record m { objects = put a (record o { owners = o.owners + 1 }) m.objects },
      rw e refl,
      put-Inv owned locked (plus 1 a owned) locked m a o _ inv e refl refl (omega arith)
          (λ x. ground arith) (λ x. ground arith),
    )

pub lock_object-Inv :
    (owned locked : ℕ → ℕ) (m : MemoryManager) (a : ℕ)
    → Inv owned locked m
    → 0 < owned a
    → locked a + 1 < word
    → (m' : MemoryManager) × (lock_object a m ≡ some m') × Inv owned (plus 1 a locked) m'
unfolding lock_object
lock_object-Inv owned locked m a inv h small =
    let (o, e, ow, lo) = owned_found owned locked m a inv h in
    (
      record m { objects = put a (record o { lock_count = wrap_suc o.lock_count }) m.objects },
      rw e refl,
      put-Inv owned locked owned (plus 1 a locked) m a o _ inv e refl refl (omega arith)
          (λ x. ground arith) (λ x. ground arith),
    )

pub unlock_object-Inv :
    (owned locked : ℕ → ℕ) (m : MemoryManager) (a : ℕ)
    → Inv owned (plus 1 a locked) m
    → 0 < owned a
    → locked a + 1 < word
    → (m' : MemoryManager) × (unlock_object a m ≡ some m') × Inv owned locked m'
unfolding unlock_object
unlock_object-Inv owned locked m a inv h small =
    let (o, e, ow, lo) = owned_found owned (plus 1 a locked) m a inv h in
    let one : o.lock_count ≡ locked a + 1 = ground arith in
    (
      record m { objects = put a (record o { lock_count = wrap_pred o.lock_count }) m.objects },
      rw e (ground arith),
      put-Inv owned (plus 1 a locked) owned locked m a o _ inv e refl refl (omega arith)
          (λ x. ground arith) (λ x. ground arith),
    )

-- ===== src/Memory/Lifetime.antt =====
-- How objects of src/memory/memory_object.cpp come and go: an allocation makes one, and the last
-- owner takes it away.
use m3bp.Prelude.{
  wrap_suc, ℕ, ◌+◌, ◌-◌, ◌<◌, ◌≡◌, refl, sym, ◌∙◌, ap, subst, none, some, List, [], ◌∷◌, ◌==◌,
  if◌then◌else◌, arith, word, Option-cases, Bool-cases, inl, inr,
}
use m3bp.Prelude.Table.{
  find, put, erase, Distinct, find-cons, find-erase, erase-Distinct, emplace-none,
}
use m3bp.Prelude.Words.{◌-w◌}
use m3bp.Memory.Manager.{
  MemoryObject, MemoryManager, new_object, manage, notify_release, destroy, drop_owner,
}
use m3bp.Memory.References.{
  Heap, owners_at, live_size, Inv, owned_found, put-Inv, live_size-cons, live_size-erase, plus,
}

-- The last owner takes the object with it.
last_dropped-Inv :
    (owned locked : ℕ → ℕ) (m : MemoryManager) (a : ℕ) (o : MemoryObject)
    → Inv (plus 1 a owned) locked m
    → find a m.objects ≡ some o
    → owned a ≡ 0
    → locked a ≡ 0
    → let left : MemoryManager = record m {
      objects = erase a m.objects;
      managed_objects = erase a m.managed_objects;
      total_memory_usage = m.total_memory_usage -w o.buffer_size;
    } in
      (destroy a o m ≡ some left) × Inv owned locked left
unfolding destroy notify_release
last_dropped-Inv owned locked m a o inv e none_left unlocked = (
  ground (arith, inv.locks a, inv.live a o e, inv.managed a, inv.quiet, inv.fresh a, inv.room),
  record {
    distinct = erase-Distinct a m.objects inv.distinct;
    distinct_managed = erase-Distinct a m.managed_objects inv.distinct_managed;
    owners = λ x. ground (arith, find-erase a x m.objects inv.distinct, inv.owners x);
    locks = λ x. ground (arith, find-erase a x m.objects inv.distinct, inv.locks x);
    live = λ x v f. ground (arith, find-erase a x m.objects inv.distinct, inv.live x v);
    managed =
        λ x. ground (arith, find-erase a x m.managed_objects inv.distinct_managed, inv.managed x);
    fresh = λ x h. ground (arith, inv.fresh x h);
    room = inv.room;
    usage = omega (arith, inv.usage, live_size-erase a o m.objects e, inv.live a o e);
    quiet = inv.quiet;
  },
)

pub drop_owner-Inv :
    (owned locked : ℕ → ℕ) (m : MemoryManager) (a : ℕ)
    → Inv (plus 1 a owned) locked m
    → (owned a ≡ 0 → locked a ≡ 0)
    → (m' : MemoryManager) × (drop_owner a m ≡ some m') × Inv owned locked m'
unfolding drop_owner
drop_owner-Inv owned locked m a inv free =
    let (o, e, ow, lo) = owned_found (plus 1 a owned) locked m a inv (ground arith) in
    let one : o.owners ≡ owned a + 1 = ground arith in
    elim (Bool-cases (owned a == 0)) [
      | inl last ↦
          let (d, i) =
            last_dropped-Inv owned locked m a o inv e (ground arith) (free (ground arith)) in
          (_, rw e (ground (arith, d)), i)
      | inr others ↦ (
        record m { objects = put a (record o { owners = o.owners - 1 }) m.objects },
        rw e (ground arith),
        put-Inv (plus 1 a owned) locked owned locked m a o _ inv e refl refl (ground arith)
            (λ x. ground arith) (λ x. ground arith),
      )
    ]

-- The manager with its next identifier taken.
abbrev pub next_taken : MemoryManager → MemoryManager
next_taken m = record m { next_identifier = wrap_suc m.next_identifier }

pub manage-Inv :
    (owned locked : ℕ → ℕ) (size numa_node : ℕ) (m : MemoryManager)
    → Inv owned locked m
    → m.next_identifier + 1 < word
    → size < word
    → Inv
        (plus 1 m.next_identifier owned)
        locked
        (manage m.next_identifier size numa_node (next_taken m))
unfolding manage
manage-Inv owned locked size numa_node m inv h small =
    let a = m.next_identifier in
    let none_owned : owned a ≡ 0 = inv.fresh a (omega arith) in
    let gone : find a m.objects ≡ none = elim (Option-cases (find a m.objects)) [
      | inl e ↦ e
      | inr (o, e) ↦ absurd (ground (arith, inv.owners a, inv.live a o e))
    ] in
    let unmanaged : find a m.managed_objects ≡ none = ground (arith, inv.managed a) in
    let u = new_object a size numa_node in
    let found : (x : ℕ)
        → find x ((a, u) ∷ m.objects) ≡ (if a == x then some u else find x m.objects) =
      λ x. find-cons x a u m.objects in
    let live : live_size ((a, u) ∷ m.objects) ≡ size + live_size m.objects =
      live_size-cons a u m.objects in
    record {
      distinct = (gone, inv.distinct);
      distinct_managed =
          subst Distinct (sym (emplace-none a a m.managed_objects unmanaged))
            (unmanaged, inv.distinct_managed);
      owners = λ x. ground (arith, found x, inv.owners x);
      locks = λ x. ground (arith, found x, inv.locks x, gone);
      live = λ x v f. ground (arith, found x, inv.live x v);
      managed = λ x.
          rw (emplace-none a a m.managed_objects unmanaged)
            (ground (arith, find-cons x a a m.managed_objects, inv.managed x));
      fresh = λ x k. ground (arith, inv.fresh x);
      room = omega arith;
      usage = rw live (omega (arith, inv.usage));
      quiet = inv.quiet;
    }

-- An identifier that is taken for nothing.
pub next_taken-Inv :
    (owned locked : ℕ → ℕ) (m : MemoryManager)
    → Inv owned locked m
    → m.next_identifier + 1 < word
    → Inv owned locked (next_taken m)
next_taken-Inv owned locked m inv h = record {
  distinct = inv.distinct;
  distinct_managed = inv.distinct_managed;
  owners = inv.owners;
  locks = inv.locks;
  live = inv.live;
  managed = inv.managed;
  fresh = λ a k. inv.fresh a (omega arith);
  room = omega arith;
  usage = inv.usage;
  quiet = inv.quiet;
}

-- Only the counts matter, not how they are written.
pub Inv-same :
    (owned locked owned' locked' : ℕ → ℕ) (m : MemoryManager)
    → ((a : ℕ) → owned' a ≡ owned a)
    → ((a : ℕ) → locked' a ≡ locked a)
    → Inv owned locked m
    → Inv owned' locked' m
Inv-same owned locked owned' locked' m f g inv = record {
  distinct = inv.distinct;
  distinct_managed = inv.distinct_managed;
  owners = λ a. inv.owners a ∙ sym (f a);
  locks = λ a. inv.locks a ∙ sym (g a);
  live = inv.live;
  managed = λ a. rw (f a) (inv.managed a);
  fresh = λ a h. f a ∙ inv.fresh a h;
  room = inv.room;
  usage = inv.usage;
  quiet = inv.quiet;
}

unowned_none :
    (m : Heap)
    → ((a : ℕ) (o : MemoryObject) → find a m ≡ some o → 0 < o.owners)
    → ((a : ℕ) → owners_at a m ≡ 0)
    → m ≡ []
unowned_none [] live none_owned = refl
unowned_none ((a, o) ∷ m) live none_owned =
    let here : find a ((a, o) ∷ m) ≡ some o = ground (arith, find-cons a a o m) in
    absurd (ground (arith, live a o here, none_owned a))

unmanaged_none : (m : List (ℕ × ℕ)) → ((a : ℕ) → find a m ≡ none) → m ≡ []
unmanaged_none [] gone = refl
unmanaged_none ((a, b) ∷ m) gone = absurd (ground (arith, find-cons a a b m, gone a))

pub live_size-nil : live_size [] ≡ 0
unfolding live_size
live_size-nil = refl

-- With nothing owned, nothing is left.
pub Inv-nothing :
    (owned locked : ℕ → ℕ) (m : MemoryManager)
    → Inv owned locked m
    → ((a : ℕ) → owned a ≡ 0)
    → (m.objects ≡ []) × (m.managed_objects ≡ []) × (m.total_memory_usage ≡ 0)
Inv-nothing owned locked m inv h =
    let empty : m.objects ≡ [] =
      unowned_none m.objects (λ a o e. (inv.live a o e).0) (λ a. inv.owners a ∙ h a) in
    let size : live_size m.objects ≡ 0 = ap live_size empty ∙ live_size-nil in
    (
      empty,
      unmanaged_none m.managed_objects (λ a. ground (arith, inv.managed a, h a)),
      omega (arith, inv.usage, size),
    )

-- ===== src/Memory/Manager.antt =====
-- src/memory/memory_manager.cpp, memory_object.cpp and memory_reference.cpp: blocks of memory, held
-- by counted references, of which some lock the block. An object is known by its address, for
-- which its identifier stands; a shared pointer is an address, and `owners` counts those to an
-- object. `none` is a failed assert. What the blocks hold is in Layout; `malloc` gives them.
use m3bp.Prelude.{
  ℕ, ◌+◌, ◌-◌, Bool, true, false, Option, none, some, List, [], ◌∷◌, ◌==◌, ltb, if◌then◌else◌,
  ◌>>=◌, max_id, wrap_suc, wrap_pred,
}
use m3bp.Prelude.Table.{find, put, erase, emplace}
use m3bp.Prelude.Words.{◌+w◌, ◌-w◌}

pub data AffinityMode : Type 0 where
  no_affinity compact scatter : AffinityMode

pub record MemoryObject : Type 0 where
  pub lock_count : ℕ
  pub self_identifier : ℕ
  pub buffer_size : ℕ
  pub locality : ℕ
  pub owners : ℕ

pub record MemoryManager : Type 0 where
  pub affinity_mode : AffinityMode
  pub managed_objects : List (ℕ × ℕ)
  pub next_identifier : ℕ
  pub total_memory_usage : ℕ
  pub assert_on_release : Bool
  pub objects : List (ℕ × MemoryObject)

abbrev pub new_manager : AffinityMode → MemoryManager
new_manager affinity = record {
  affinity_mode = affinity;
  managed_objects = [];
  next_identifier = 0;
  total_memory_usage = 0;
  assert_on_release = false;
  objects = [];
}

-- A reference that does not lock, with the identifier it had.
pub record MemoryReference : Type 0 where
  pub memory_object : Option ℕ
  pub identifier : ℕ

abbrev pub reference_to : ℕ → MemoryReference
reference_to a = record { memory_object = some a; identifier = a }

abbrev pub null_reference : MemoryReference
null_reference = record { memory_object = none; identifier = max_id }

abbrev pub new_object : (identifier size numa_node : ℕ) → MemoryObject
new_object identifier size numa_node = record {
  lock_count = 0;
  self_identifier = identifier;
  buffer_size = size;
  locality = numa_node;
  owners = 1;
}

-- A block is there: the object is made and managed.
unfoldable pub manage : (identifier size numa_node : ℕ) → MemoryManager → MemoryManager
manage identifier size numa_node m = record m {
  objects = (identifier, new_object identifier size numa_node) ∷ m.objects;
  managed_objects = emplace identifier identifier m.managed_objects;
  total_memory_usage = m.total_memory_usage +w size;
}

-- What src/system/topology.cpp knows and asks for: the number of nodes, the node that the calling
-- thread is bound to (0 without locality), and whether `malloc` gives a block of some size.
pub record Topology : Type 0 where
  pub node_count : ℕ
  pub binded_node : ℕ
  pub malloc : ℕ → Bool

-- `allocate_membind`: a failed assert, or whether there is a block; none throws `std::bad_alloc`.
unfoldable pub allocate_membind : Topology → (size numa_node : ℕ) → Option Bool
allocate_membind topo size numa_node =
    if ltb numa_node topo.node_count then some (topo.malloc size) else none

pub data Allocation : Type 0 where
  allocated : MemoryReference → MemoryManager → Allocation
  bad_alloc : MemoryManager → Allocation

-- The identifier is taken before the object is made, also when that throws.
unfoldable pub allocate_at :
    Topology → (size block_node numa_node : ℕ) → MemoryManager → Option Allocation
unfolding manage allocate_membind
allocate_at topo size block_node numa_node m = do
  let new_id = m.next_identifier
  let next = record m { next_identifier = wrap_suc new_id }
  found ← allocate_membind topo size block_node
  if found
      then some (allocated (reference_to new_id) (manage new_id size numa_node next))
      else some (bad_alloc next)

-- Without a node.
unfoldable pub allocate : Topology → ℕ → MemoryManager → Option Allocation
allocate topo size m = allocate_at topo size topo.binded_node 0 m

-- On a node, unless there is no affinity.
unfoldable pub allocate_on_node :
    Topology → (size numa_node : ℕ) → MemoryManager → Option Allocation
allocate_on_node topo size numa_node m = elim m.affinity_mode [
  | no_affinity ↦ allocate topo size m
  | compact ↦ allocate_at topo size numa_node numa_node m
  | scatter ↦ allocate_at topo size numa_node numa_node m
]

unfoldable pub notify_release : (identifier size : ℕ) → MemoryManager → Option MemoryManager
notify_release identifier size m = do
  managed ← find identifier m.managed_objects
  if m.assert_on_release
      then none
      else some (record m {
        managed_objects = erase identifier m.managed_objects;
        total_memory_usage = m.total_memory_usage -w size;
      })

-- The destructor of an object, which goes away with its last owner.
unfoldable pub destroy : ℕ → MemoryObject → MemoryManager → Option MemoryManager
unfolding notify_release
destroy a object m =
    let freed : MemoryManager = record m { objects = erase a m.objects } in
    if object.lock_count == 0
    then (if object.self_identifier == max_id
        then some freed
        else notify_release object.self_identifier object.buffer_size freed)
    else none

-- A shared pointer is copied, and goes out of scope.
unfoldable pub share : ℕ → MemoryManager → Option MemoryManager
share a m = do
  o ← find a m.objects
  some (record m { objects = put a (record o { owners = o.owners + 1 }) m.objects })

unfoldable pub drop_owner : ℕ → MemoryManager → Option MemoryManager
unfolding destroy
drop_owner a m = do
  o ← find a m.objects
  if o.owners == 1
      then destroy a o m
      else some (record m { objects = put a (record o { owners = o.owners - 1 }) m.objects })

unfoldable pub lock_object : ℕ → MemoryManager → Option MemoryManager
lock_object a m = do
  o ← find a m.objects
  some (record m { objects = put a (record o { lock_count = wrap_suc o.lock_count }) m.objects })

unfoldable pub unlock_object : ℕ → MemoryManager → Option MemoryManager
unlock_object a m = do
  o ← find a m.objects
  if ltb 0 o.lock_count
      then some (record m {
        objects = put a (record o { lock_count = wrap_pred o.lock_count }) m.objects;
      })
      else none

abbrev on_object :
    (ℕ → MemoryManager → Option MemoryManager) → Option ℕ → MemoryManager → Option MemoryManager
on_object act none m = some m
on_object act (some a) m = act a m

-- A locked reference is its shared pointer. It is made from a copy of the pointer of a reference
-- or of a locked one, and gives up its lock before its ownership.
unfoldable pub copy_locked : Option ℕ → MemoryManager → Option MemoryManager
unfolding share lock_object
copy_locked pointer m = do m' ← on_object share pointer m; on_object lock_object pointer m'

unfoldable pub lock : MemoryReference → MemoryManager → Option (Option ℕ × MemoryManager)
unfolding copy_locked
lock mr m = do m' ← copy_locked mr.memory_object m; some (mr.memory_object, m')

unfoldable pub destroy_locked : Option ℕ → MemoryManager → Option MemoryManager
unfolding unlock_object drop_owner
destroy_locked pointer m = do
  m' ← on_object unlock_object pointer m
  on_object drop_owner pointer m'

-- `operator=`: the old object is unlocked, the new one shared, the old one given up, and the new
-- one locked.
unfoldable pub assign_locked : (old new : Option ℕ) → MemoryManager → Option MemoryManager
unfolding unlock_object share drop_owner lock_object
assign_locked old new m = do
  unlocked ← on_object unlock_object old m
  shared ← on_object share new unlocked
  dropped ← on_object drop_owner old shared
  on_object lock_object new dropped

-- With a reference that is moved from, which is null afterwards and keeps its lock for the new one.
unfoldable pub move_assign_locked : (old new : Option ℕ) → MemoryManager → Option MemoryManager
unfolding unlock_object drop_owner
move_assign_locked old new m = do
  unlocked ← on_object unlock_object old m
  on_object drop_owner old unlocked

-- A reference made of a locked one: from a copy, which may not be null, or in place of it.
unfoldable pub reference_of_locked :
    Option ℕ → MemoryManager → Option (MemoryReference × MemoryManager)
unfolding share
reference_of_locked none m = none
reference_of_locked (some a) m = do m' ← share a m; some (reference_to a, m')

unfoldable pub reference_from_locked :
    Option ℕ → MemoryManager → Option (MemoryReference × MemoryManager)
unfolding unlock_object
reference_from_locked none m = some (null_reference, m)
reference_from_locked (some a) m = do m' ← unlock_object a m; some (reference_to a, m')

unfoldable pub destroy_reference : MemoryReference → MemoryManager → Option MemoryManager
unfolding drop_owner
destroy_reference mr m = on_object drop_owner mr.memory_object m

-- The report at the end of a run, after which no object may be released.
abbrev pub log_memory_leaks : MemoryManager → MemoryManager
log_memory_leaks m = record m { assert_on_release = true }

-- ===== src/Memory/Examples.antt =====
-- The buffers of src/memory/serialized_buffer.cpp at a few sizes.
use m3bp.Prelude.{
  ℕ, ◌+◌, ◌≡◌, Option, ltb, subst, sym, none, some, [], ◌∷◌, arith, count-nil, count-cons,
}
use m3bp.Memory.Layout.{
  Block, allocate_value_only_buffer, allocate_key_value_buffer, allocate_grouped_buffer,
}
use m3bp.Memory.Regions.{
  ValuesFit, allocate_value_only_buffer-ValuesFit, allocate_key_value_buffer-ValuesFit,
}
use m3bp.Memory.Grouped.{KeysFit, allocate_grouped_buffer-Fits}
use m3bp.Memory.Manager.{
  scatter, Topology, Allocation, allocated, bad_alloc, MemoryManager, reference_to, new_manager,
  allocate_on_node, lock, destroy_locked, assign_locked, reference_from_locked, destroy_reference,
}
use m3bp.Memory.Locking.{
  RefInv, new_manager-Inv, allocate_on_node-Inv, lock-Inv, destroy_locked-Inv,
  destroy_reference-Inv, assign_locked-Inv, reference_from_locked-Inv, Tells,
}
use m3bp.Memory.Release.{plain, locked, destroy_all, no_leak}

-- A block with something in it.
abbrev full : Block
full i = i + 77

allocate_value_only_buffer-ValuesFit_example :
    let (size, b) = allocate_value_only_buffer 10 1001 full in
    ValuesFit b 16 size 1001 10
    × (b.keys_header ≡ none)
    × (b.values_key_lengths ≡ none)
    × (b.values_group_offsets ≡ none)
allocate_value_only_buffer-ValuesFit_example =
    allocate_value_only_buffer-ValuesFit 10 1001 full (omega arith)

allocate_key_value_buffer-ValuesFit_example :
    let (size, b) = allocate_key_value_buffer 10 1001 full in
    (end : ℕ) × ValuesFit b 16 end 1001 10
    × (end + 80 ≡ size)
    × (b.keys_header ≡ none)
    × (b.values_key_lengths ≡ some end)
    × (b.values_group_offsets ≡ none)
allocate_key_value_buffer-ValuesFit_example =
    allocate_key_value_buffer-ValuesFit 10 1001 full (omega arith)

allocate_grouped_buffer-Fits_example :
    let (size, b) = allocate_grouped_buffer 10 4 33 1001 full in
    (keys_stop values_stop : ℕ) × KeysFit b keys_stop 33 4
    × ValuesFit b keys_stop values_stop 1001 10
    × (b.values_key_lengths ≡ none)
    × (b.values_group_offsets ≡ some values_stop)
    × (values_stop + 40 ≡ size)
allocate_grouped_buffer-Fits_example = allocate_grouped_buffer-Fits 10 4 33 1001 full (omega arith)

-- A manager, one block on node 1 with a reference to it, and a lock on that.
abbrev manager : MemoryManager
manager = new_manager scatter

-- Two nodes, and memory for all but the largest blocks.
abbrev two_nodes : Topology
two_nodes = record { node_count = 2; binded_node = 0; malloc = λ size. ltb size 1000000 }

abbrev got : Option Allocation → MemoryManager
got (some (allocated r m)) = m
got (some (bad_alloc m)) = m
got none = manager

abbrev one_block : MemoryManager
one_block = got (allocate_on_node two_nodes 4096 1 manager)

allocate_on_node-Inv_example :
    (r : Allocation) × (allocate_on_node two_nodes 4096 1 manager ≡ some r)
    × Tells two_nodes [] [] 4096 manager r
allocate_on_node-Inv_example =
    allocate_on_node-Inv two_nodes [] [] 4096 1 manager (new_manager-Inv scatter) (omega arith)
      (omega arith) (omega arith) (omega arith)

block_of :
    (r : Allocation)
    → allocate_on_node two_nodes 4096 1 manager ≡ some r
    → Tells two_nodes [] [] 4096 manager r
    → RefInv (0 ∷ []) [] (got (some r))
block_of (allocated r m) e told = told.3
block_of (bad_alloc m) e told = absurd (ground (arith, told.0))

one_block-RefInv : RefInv (0 ∷ []) [] one_block
one_block-RefInv =
    let (r, e, told) = allocate_on_node-Inv_example in
    subst (λ (o : Option Allocation). RefInv (0 ∷ []) [] (got o)) (sym e) (block_of r e told)

lock-Inv_example :
    (m' : MemoryManager) × (lock (reference_to 0) one_block ≡ some (some 0, m'))
    × RefInv (0 ∷ []) (0 ∷ []) m'
lock-Inv_example =
    lock-Inv (0 ∷ []) [] 0 one_block one_block-RefInv (ground (arith, count-cons 0 0 []))
      (omega (arith, count-nil 0))

destroy_reference-Inv_example :
    (m' : MemoryManager) × (destroy_reference (reference_to 0) one_block ≡ some m')
    × RefInv [] [] m'
destroy_reference-Inv_example = destroy_reference-Inv [] [] 0 one_block one_block-RefInv

-- The manager with the block locked.
locked_block : (m' : MemoryManager) × RefInv (0 ∷ []) (0 ∷ []) m'
locked_block =
    let (m', e, i) =
      lock-Inv (0 ∷ []) [] 0 one_block one_block-RefInv (ground (arith, count-cons 0 0 []))
        (omega (arith, count-nil 0)) in
    (m', i)

destroy_locked-Inv_example :
    (m' : MemoryManager) × (destroy_locked (some 0) locked_block.0 ≡ some m')
    × RefInv (0 ∷ []) [] m'
destroy_locked-Inv_example =
    destroy_locked-Inv (0 ∷ []) [] 0 locked_block.0 locked_block.1 (omega (arith, count-nil 0))

assign_locked-Inv_example :
    (m' : MemoryManager) × (assign_locked (some 0) (some 0) locked_block.0 ≡ some m')
    × RefInv (0 ∷ []) (0 ∷ []) m'
assign_locked-Inv_example =
    assign_locked-Inv (0 ∷ []) [] 0 0 locked_block.0 locked_block.1
      (ground (arith, count-cons 0 0 [])) (omega (arith, count-nil 0)) (omega (arith, count-nil 0))

reference_from_locked-Inv_example :
    (m' : MemoryManager) × (reference_from_locked (some 0) locked_block.0
      ≡ some (reference_to 0, m'))
    × RefInv (0 ∷ 0 ∷ []) [] m'
reference_from_locked-Inv_example =
    reference_from_locked-Inv (0 ∷ []) [] 0 locked_block.0 locked_block.1
      (omega (arith, count-nil 0))

no_leak_example :
    (m' : MemoryManager) × (destroy_all (plain 0 ∷ locked 0 ∷ []) locked_block.0 ≡ some m')
    × (m'.objects ≡ [])
    × (m'.managed_objects ≡ [])
    × (m'.total_memory_usage ≡ 0)
no_leak_example = no_leak (plain 0 ∷ locked 0 ∷ []) locked_block.0 locked_block.1 (omega arith)

-- ===== src/Vmem/Tests.antt =====
-- The list of blocks at concrete states.
use test_kernel.Base.{ℕ, ◌≡◌, refl, inr, arith, true, ◌==◌, if◌then◌else◌, [], ◌∷◌, none, some}
use test_kernel.Boot.{MultibootInfo, MmapEntry, Entries}
use test_kernel.Vmem.{
  Heap, find_gap, palloc_next, palloc, pfree, add_dirty_block, remove_dirty_block,
}
use test_kernel.Vmem.Chain.{IsChain}
use test_kernel.Vmem.Insert.{Inserted, add_dirty_block-Inserted}
use test_kernel.Vmem.Remove.{Removed, pfree-Removed}
use test_kernel.Vmem.Gap.{palloc-adds_nothing}
use test_kernel.Vmem.Endless.{dirty_blocks-endless}

-- Two blocks, at 0x100 and 0x200, and the part of the memory from `begin` on.
abbrev two_blocks : (begin : ℕ) → Heap
two_blocks begin a =
    if a == 0
    then record { begin_address = begin; end_address = 0x100000; next = 0x100 }
    else if a == 0x100
    then record { begin_address = 0x1000; end_address = 0x2000; next = 0x200 }
    else if a == 0x200
    then record { begin_address = 0x3000; end_address = 0x4000; next = 0 }
    else record { begin_address = 0; end_address = 0; next = 0 }

abbrev blocks_IsChain : (begin : ℕ) → IsChain (two_blocks begin) 0x100 (0x100 ∷ 0x200 ∷ [])
blocks_IsChain begin = (refl, omega arith, (omega arith, tt), (refl, omega arith, tt, refl))

add_dirty_block-Inserted_example :
    (r : Heap) × (add_dirty_block 3 0x300 0x2000 0x3000 (two_blocks 0) ≡ some r)
    × Inserted (two_blocks 0) 0x300 0x2000 0x3000 (0x100 ∷ 0x200 ∷ []) r
add_dirty_block-Inserted_example =
    add_dirty_block-Inserted 3 0x300 0x2000 0x3000 (two_blocks 0) (0x100 ∷ 0x200 ∷ []) (omega arith)
      (omega arith, (omega arith, tt)) (omega arith, (omega arith, tt)) (blocks_IsChain 0)
      (inr refl) (omega arith)

pfree-Removed_example :
    (r : Heap) × (remove_dirty_block 3 0x3000 (two_blocks 0) ≡ some (true, r))
    × (pfree 3 0x3000 (two_blocks 0) ≡ some r)
    × Removed (two_blocks 0) 0x3000 (0x100 ∷ 0x200 ∷ []) r
pfree-Removed_example =
    pfree-Removed 3 0x3000 (two_blocks 0) (0x100 ∷ 0x200 ∷ []) (omega arith, (omega arith, tt))
      (blocks_IsChain 0) refl (omega arith)

abbrev low_memory : MmapEntry
low_memory = record { size = 20; addr = 0; len = 0x9fc00; type = 1 }

abbrev high_memory : MmapEntry
high_memory = record { size = 20; addr = 0x100000; len = 0x7ee0000; type = 1 }

abbrev entries : Entries
entries p = if p == 0x9000 then low_memory else high_memory

abbrev info : MultibootInfo
info = record {
  flags = 0x41;
  mem_lower = 639;
  mem_upper = 129920;
  cmdline = 0x8000;
  mmap_length = 48;
  mmap_addr = 0x9000;
}

dirty_blocks-endless_example :
    (add_dirty_block 100 0x300 0x9000 0xA000 (two_blocks 0x8000) ≡ none)
    × (remove_dirty_block 100 0x9000 (two_blocks 0x8000) ≡ none)
    × (pfree 100 0x9000 (two_blocks 0x8000) ≡ none)
dirty_blocks-endless_example =
    dirty_blocks-endless 100 0x300 0x9000 0xA000 0x100 (two_blocks 0x8000) (0x200 ∷ [])
      (omega arith) (omega arith, (omega arith, tt)) (blocks_IsChain 0x8000)
      (omega arith, omega arith, (omega arith, omega arith, tt)) (omega arith) (omega arith)

-- A second `palloc` that finds the same `new_block` on the stack links the block to itself.
linked_to_itself :
    ((palloc_next 0x300 0x1000 (palloc_next 0x300 0x1000 (two_blocks 0x8000)).1).1 0x300).next
    ≡ 0x300
unfolding palloc_next
linked_to_itself = refl

-- The room behind the last block is taken to reach to the beginning of the part, modulo 2^32.
gap_behind_list : find_gap 0x2000 3 7 0x200 0x1000 (two_blocks 0x8000) ≡ some (0x200, 0xFFFFC000)
unfolding find_gap
gap_behind_list = refl

-- The address 0x1800 lies in the first block.
palloc-adds_nothing_example :
    palloc 2 0x200000 0 0 0x300 0x1800 0x9000 (two_blocks 0) ≡ some (0x1800, two_blocks 0)
palloc-adds_nothing_example =
    palloc-adds_nothing 0 0x200000 0 0 0x300 0x1800 0x9000 0x100 0x200 (two_blocks 0) []
      (blocks_IsChain 0) (omega arith) (omega arith) (omega arith) (omega arith)

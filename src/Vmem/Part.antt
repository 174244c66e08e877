-- ===== src/Vmem/Part.antt =====
-- TestKernel1/src/arch/ia32/vmem.c: the part of the memory that `pinit` chooses, and a page of it.
use test_kernel.Base.{ℕ, ◌+◌, ◌==◌, if◌then◌else◌, List, [], ◌∷◌, Option, none, some, u32}
use test_kernel.Boot.{MmapEntry}
use test_kernel.Vmem.{Heap, take_entry}

-- The last usable entry, and its range modulo 2^32.
abbrev pub last_usable : List MmapEntry → Option MmapEntry
last_usable [] = none
last_usable (e ∷ es) = elim (last_usable es) [
  | some f ↦ some f
  | none ↦ if e.type == 1 then some e else none
]

abbrev pub entry_range : MmapEntry → ℕ × ℕ
entry_range e = (u32 e.addr, u32 (e.addr + e.len))

abbrev part_of : Option MmapEntry → ℕ × ℕ → ℕ × ℕ
part_of none r = r
part_of (some e) r = entry_range e

-- All entries, one after the other.
abbrev take_all : List MmapEntry → Heap → Heap
take_all [] h = h
take_all (e ∷ es) h = take_all es (take_entry 0 e h)

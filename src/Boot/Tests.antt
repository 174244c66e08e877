-- ===== src/Boot/Tests.antt =====
-- The start-up code at concrete states.
use test_kernel.Base.{
  ℕ, ◌≡◌, ◌⊎◌, inl, inr, refl, some, List, [], ◌∷◌, ◌==◌, if◌then◌else◌, arith, ◌%◌,
}
use test_kernel.Boot.{
  MultibootInfo, MmapEntry, Entries, get_free_page_address, get_page_address, search_map,
  page_of_entry, align_to,
}
use test_kernel.Boot.Stack.{Stacked, move_stack}
use test_kernel.Boot.Stack.Moved.{IsMove, StackMoved, move_stack-StackMoved}
use test_kernel.Mem.{Bytes}
use test_kernel.Boot.Region.{IsImage, IsMap, FirstOffer}
use test_kernel.Boot.Search.{SomeEntry, IsFreePage, get_free_page_address-IsFreePage}

-- The low memory, the hole below 1 MB, and 127 MB from 1 MB on.
abbrev low_memory : MmapEntry
low_memory = record { size = 20; addr = 0; len = 0x9fc00; type = 1 }

abbrev hole : MmapEntry
hole = record { size = 20; addr = 0x9fc00; len = 0x60400; type = 2 }

abbrev high_memory : MmapEntry
high_memory = record { size = 20; addr = 0x100000; len = 0x7ee0000; type = 1 }

abbrev entries : Entries
entries p = if p == 0x9000 then low_memory else if p == 0x9018 then hole else high_memory

abbrev info : MultibootInfo
info = record {
  flags = 0x40;
  mem_lower = 639;
  mem_upper = 129920;
  cmdline = 0x8000;
  mmap_length = 72;
  mmap_addr = 0x9000;
}

abbrev all_entries : List MmapEntry
all_entries = low_memory ∷ hole ∷ high_memory ∷ []

image : IsImage 0x100000 0x110abc
image = record { ordered = omega arith; not_null = omega arith; low = omega arith }

entries-IsMap : IsMap info entries 0x9000 all_entries
entries-IsMap = (refl, refl, (refl, refl, (refl, refl, refl)))

-- The first page behind the kernel.
behind_kernel : get_free_page_address 0x100000 0x110abc 4 info entries ≡ some 0x111000
unfolding get_free_page_address search_map page_of_entry align_to
behind_kernel = refl

get_free_page_address-IsFreePage_example :
    (r : ℕ) × (get_free_page_address 0x100000 0x110abc 4 info entries ≡ some r)
    × (get_page_address 0x100000 0x110abc 4 7 info entries ≡ some r)
    × FirstOffer 0x100000 0x110abc all_entries r
    × ((r ≡ 0) ⊎ SomeEntry (λ e. IsFreePage 0x100000 0x110abc e r) all_entries)
get_free_page_address-IsFreePage_example =
    get_free_page_address-IsFreePage 0x100000 0x110abc 4 7 info entries all_entries image
      (inr (omega arith), (inl (omega arith), (inr (omega arith), tt)))
      (
        inr (inl (omega arith)),
        (inl (omega arith), (inr (inr (omega arith, omega arith, omega arith)), tt)),
      )
      entries-IsMap (omega arith)

-- Behind a kernel that lies elsewhere, the page is not in the entry that was chosen.
outside_region :
    page_of_entry 0x100000 0x110abc (record high_memory { addr = 0x400000; len = 0x10000 })
    ≡ some 0x111000
unfolding page_of_entry align_to
outside_region = refl

-- A stack of 256 bytes below 0x107100, which moves to the 8 KB below 0x200000.
small_stack-IsMove : IsMove 0x200000 8192 0x107000 0x107100
small_stack-IsMove = record {
  ordered = omega arith;
  fits = omega arith;
  above_page = omega arith;
  below_end = omega arith;
  initial_small = omega arith;
  words = (refl, refl, refl, refl);
  apart = inr (omega arith);
}

abbrev pattern_bytes : Bytes
pattern_bytes x = x % 256

move_stack-StackMoved_example :
    (r : Stacked) × (move_stack 1048577 0x200000 8192 0x107000 0x107080 0x107100 pattern_bytes
      ≡ some r)
    × StackMoved 0x200000 8192 0x107000 0x107080 0x107100 pattern_bytes r
move_stack-StackMoved_example =
    move_stack-StackMoved 1048577 0x200000 8192 0x107000 0x107080 0x107100 pattern_bytes
      small_stack-IsMove (omega arith) (omega arith)

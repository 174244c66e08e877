-- ===== src/Boot/Start/Tests.antt =====
-- The start of the kernel on a concrete machine.
use test_kernel.Base.{
  ℕ, ◌+◌, ◌-◌, ◌/◌, ◌%◌, ◌^◌, ◌≡◌, inl, inr, refl, ap, ◌∙◌, arith, false, some, List, [], ◌∷◌, ◌==◌,
  if◌then◌else◌,
}
use test_kernel.Boot.{
  MultibootInfo, MmapEntry, Entries, get_free_page_address, search_map, page_of_entry, align_to,
}
use test_kernel.Boot.Region.{IsMap}
use test_kernel.Boot.Console.{System, codes, string_at}
use test_kernel.Boot.PagingTest.{Mmu, test_paging}
use test_kernel.Boot.PagingTest.Unseen.{IsApart, Unseen, test_paging-Unseen}
use test_kernel.Boot.Start.{Machine, Layout, kernel_main}
use test_kernel.Boot.Start.Running.{IsBootable, IsRunning, kernel_main-IsRunning}
use test_kernel.Display.{Display}
use test_kernel.Gdt.{init_gdt}
use test_kernel.Idt.Tests.{empty_idt}
use test_kernel.Idt.Pic.Tests.{two_chips, firmware, master-IsPic, slave-IsPic}
use test_kernel.Idt.Pic.Remapped.{Chip}
use test_kernel.Mem.{Bytes}
use test_kernel.Mem.Words.{load32}
use test_kernel.Paging.{decode_page_table_entry}
use test_kernel.Paging.Directory.{PageDirectory, init_directory}
use test_kernel.Paging.Directory.Identity.{Maps}
use test_kernel.Threads.Lifecycle.{boot}

abbrev layout : Layout
layout = record {
  header = 0x100000;
  end = 0x600abc;
  stub = 0x100800;
  handlers = 0x104000;
  segments = 0x104800;
  directory = 0x108000;
  x = 0x105004;
  report_buff = 0x90000;
  test_buff = 0x90040;
}

-- The processor's walk, with a directory that lies at `layout.directory`.
mmu : Mmu
mmu k v =
    let table =
      ((decode_page_table_entry (k.catalog (v / 2 ^ 22))).physical_address - (0x108000 + 4096))
      / 4096 in
    (decode_page_table_entry (k.tables table (v / 2 ^ 12 % 2 ^ 10))).physical_address + v % 2 ^ 12

mmu-Maps : (k : PageDirectory) (v p : ℕ) → Maps 0x108000 k v p → mmu k v ≡ p
unfolding mmu
mmu-Maps k v p w =
    let found = w.table_found.leads_to in
    let table : ((decode_page_table_entry (k.catalog (v / 2 ^ 22))).physical_address
            - (0x108000 + 4096))
          / 4096
        ≡ w.table =
      omega (arith, found) in
    ap
      (λ t.
        (decode_page_table_entry (k.tables t (v / 2 ^ 12 % 2 ^ 10))).physical_address + v % 2 ^ 12)
      table
    ∙ ap (λ q. q + v % 2 ^ 12) w.page_found.leads_to
    ∙ w.target

-- The command line "go" at 0x8000, and 10 at `x`.
abbrev memory : Bytes
memory a = if a == 0x8000 then 103 else if a == 0x8001 then 111 else if a == 0x105004 then 10 else 0

abbrev low_memory : MmapEntry
low_memory = record { size = 20; addr = 0; len = 0x9fc00; type = 1 }

abbrev high_memory : MmapEntry
high_memory = record { size = 20; addr = 0x100000; len = 0x7ee0000; type = 1 }

abbrev entries : Entries
entries p = if p == 0x9000 then low_memory else high_memory

abbrev info : MultibootInfo
info = record {
  flags = 0x41;
  mem_lower = 639;
  mem_upper = 129920;
  cmdline = 0x8000;
  mmap_length = 48;
  mmap_addr = 0x9000;
}

abbrev some_entries : List MmapEntry
some_entries = low_memory ∷ high_memory ∷ []

entries-IsMap : IsMap info entries 0x9000 some_entries
entries-IsMap = (refl, refl, (refl, refl, refl))

abbrev empty_directory : PageDirectory
empty_directory = record { catalog = λ i. 0; tables = λ i j. 0 }

abbrev black : Display
black = record {
  terminals = λ i. record {
    buff = λ j. 0;
    tty_cursor = 0;
    tty_attribute = 0;
    is_visible = false;
    terminal_num = 0;
  };
  tmp_terminal_num = 0;
  video = λ j. 0;
}

abbrev loaded : System
loaded = record {
  memory = memory;
  display = black;
  kernel_directory = empty_directory;
  current_directory = empty_directory;
}

command_there : string_at 20 0x8000 memory ≡ some (codes "go")
unfolding string_at
command_there = refl

ten_there : load32 memory 0x105004 ≡ 10
unfolding load32
ten_there = refl

page_found : get_free_page_address 0x100000 0x600abc 20 info entries ≡ some 0x601000
unfolding get_free_page_address search_map page_of_entry align_to
page_found = refl

places-IsApart : IsApart 0x105004 0x601000 0x90040
places-IsApart = record {
  low = omega arith;
  inside = omega arith;
  aligned = refl;
  fits = omega arith;
  pages = inr (omega arith);
  buffer = inl (omega arith);
  buffer_new = inl (omega arith);
}

layout-IsBootable : IsBootable layout 20 0x601000 info entries some_entries (codes "go") loaded
layout-IsBootable = record {
  map = entries-IsMap;
  enough = omega arith;
  command_there = command_there;
  command_apart = inl (omega arith);
  page_found = page_found;
  ten = ten_there;
  x_apart = inl (omega arith);
  apart = places-IsApart;
  stub_small = omega arith;
  directory_aligned = refl;
  directory_low = omega arith;
}

abbrev machine : Machine (Chip × Chip)
machine = record {
  initial_esp = 0;
  interrupts_on = false;
  threads = boot;
  gdt = init_gdt 0;
  idt = empty_idt;
  ports = firmware;
  system = loaded;
}

kernel_main-IsRunning_example :
    (t : Machine (Chip × Chip)) × (kernel_main two_chips layout mmu 20 0x107000 info entries machine
      ≡ some t)
    × IsRunning layout (λ s. s.0) (λ s. s.1) 0x107000 info some_entries (codes "go") machine t
kernel_main-IsRunning_example =
    kernel_main-IsRunning two_chips (λ s. s.0) (λ s. s.1) master-IsPic slave-IsPic layout mmu 20
      0x601000 0x107000 info entries some_entries (codes "go") mmu-Maps machine refl refl refl
      (omega arith) (omega arith) layout-IsBootable

-- With the kernel's directory filled.
abbrev mapped : System
mapped = record loaded { kernel_directory = init_directory 0x108000 empty_directory }

test_paging-Unseen_example :
    (t : System) × (test_paging 0x100000 0x600abc 0x105004 0x90040 20 mmu info entries mapped
      ≡ some t)
    × Unseen 0x105004 0x601000 mapped t
test_paging-Unseen_example =
    test_paging-Unseen 0x100000 0x600abc 0x105004 0x90040 20 0x108000 0x601000 mmu info entries
      empty_directory mapped refl (omega arith) refl mmu-Maps ten_there page_found places-IsApart

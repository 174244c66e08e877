-- ===== src/Paging/Directory.antt =====
-- src/arch/ia32/cpu/tables.c: `init_directory`, which fills the kernel's page directory.
pub mod Identity
pub mod Rows
use test_kernel.Base.{ℕ, ◌+◌, ◌*◌, ◌%◌, ◌^◌, ◌≡◌, Bool, true, false, update, u32}
use test_kernel.Base.Loops.{count_up}
use test_kernel.Paging.{PageTableEntryInfo, encode_page_table_entry, set_page_table_entry}

-- `page_directory`: one catalog, and 1024 tables of 1024 entries.
pub record PageDirectory : Type 0 where
  pub catalog : ℕ → ℕ
  pub tables : ℕ → ℕ → ℕ

-- The address of `tables[i]` in a directory that the linker put at `base`: the catalog's 4096
-- bytes come first.
abbrev pub table_address : ℕ → ℕ → ℕ
table_address base i = u32 (base + 4096 + i * 4096)

-- The entries that `init_directory` writes differ in the address alone.
abbrev pub kernel_entry : ℕ → PageTableEntryInfo
kernel_entry address = record {
  is_presented = true;
  is_writeable = true;
  is_user_accessible = false;
  is_cache_write_though = true;
  is_cashing_disabled = false;
  was_accessed = false;
  was_written = false;
  is_expanded = false;
  is_global = false;
  custom_bits = 0;
  physical_address = address;
}

-- `(i * 1024 + j) * 4096` is computed in `int`, and stored as a 32-bit word.
unfoldable pub fill_page : ℕ → ℕ → PageDirectory → PageDirectory
fill_page i j d = record d {
  tables = update d.tables i (
      update (d.tables i) j (encode_page_table_entry (kernel_entry (u32 ((i * 1024 + j) * 4096)))));
}

unfoldable pub fill_table : ℕ → ℕ → PageDirectory → PageDirectory
unfolding fill_page
fill_table base i d = count_up (fill_page i) 1024 0 (record d {
  catalog = update d.catalog i (encode_page_table_entry (kernel_entry (table_address base i)));
})

-- The writes of `init_directory`; loading `cr3` and setting bit 31 of `cr0` is not modelled.
unfoldable pub init_directory : ℕ → PageDirectory → PageDirectory
unfolding fill_table
init_directory base d = count_up (fill_table base) 1024 0 d

-- ===== src/Paging/Pages.antt =====
-- src/arch/ia32/cpu/tables.c: `alloc_page`, `free_page`, `switch_directory` and their globals.
pub mod Laws
use test_kernel.Base.{
  ℕ, zero, suc, ◌+◌, ◌-◌, ◌*◌, ◌/◌, ◌%◌, ◌^◌, Bool, true, false, Option, none, some, ◌==◌, not, ltb,
}
use test_kernel.Base.{if◌then◌else◌, ◌||◌, update, sub32}
use test_kernel.Paging.{PageTableEntryInfo, encode_page_table_entry, decode_page_table_entry}
use test_kernel.Paging.Directory.{PageDirectory}

-- `free_page_t`; `next` is an address.
pub record FreePage : Type 0 where
  pub table_index : ℕ
  pub page_index : ℕ
  pub next : ℕ

-- The globals; `node_at` is the memory that `free_pages_head` points into, 0 is the null pointer.
pub record PageManager : Type 0 where
  pub current_directory : PageDirectory
  pub free_pages_head : ℕ
  pub last_table_index : ℕ
  pub last_page_index : ℕ
  pub node_at : ℕ → FreePage

-- `current_directory.tables[i].pages[j]`: the tables lie behind one another, so an index from
-- 1024 on reaches the next table, and what lies behind the last table is a fault.
abbrev pub in_directory : ℕ → ℕ → Bool
in_directory i j = ltb (i * 1024 + j) 1048576

abbrev pub slot : PageDirectory → ℕ → ℕ → ℕ
slot d i j = d.tables (i + j / 1024) (j % 1024)

abbrev pub set_slot : PageDirectory → ℕ → ℕ → ℕ → PageDirectory
set_slot d i j bits = record d {
  tables = update d.tables (i + j / 1024) (update (d.tables (i + j / 1024)) (j % 1024) bits);
}

-- The rights that `alloc_page` gives: `(x == 1) ? … : …` on both arguments.
abbrev pub granted : ℕ → ℕ → PageTableEntryInfo → PageTableEntryInfo
granted is_kernel is_writeable info = record info {
  is_presented = true;
  is_writeable = is_writeable == 1;
  is_user_accessible = not (is_kernel == 1);
}

-- The branch of `alloc_page` for the list of free pages. There is no test that the list has a head:
-- where it is null, the node is what lies at address 0, which can be read as any other.
unfoldable pub take_free : PageManager → Option (ℕ × PageManager)
take_free m =
    let node = m.node_at m.free_pages_head in
    if not (in_directory node.table_index node.page_index)
    then none
    else some (
      slot m.current_directory node.table_index node.page_index,
      record m { free_pages_head = node.next },
    )

-- The other branch: the next page of the table, or the first page of the next table, whose entry
-- in the catalog is marked present.
unfoldable pub take_next : ℕ → ℕ → PageManager → PageManager
take_next is_kernel is_writeable m =
    let d = m.current_directory in
    let t = m.last_table_index + 1 in
    if not (m.last_page_index == 1024)
    then record m { last_page_index = m.last_page_index + 1 }
    else if not (m.last_table_index == 1024)
    then record m {
      last_page_index = 0;
      last_table_index = t;
      current_directory = record d {
        catalog = update d.catalog t (
            encode_page_table_entry
              (granted is_kernel is_writeable (decode_page_table_entry (d.catalog t))));
      };
    }
    else m

-- `if (free_page != 0)` tests the function `free_page`, whose address is `free_page_address`.
unfoldable pub choose_page : ℕ → ℕ → ℕ → PageManager → Option (ℕ × PageManager)
unfolding take_free take_next
choose_page free_page_address is_kernel is_writeable m =
    let n = take_next is_kernel is_writeable m in
    if not (free_page_address == 0)
    then take_free m
    else if in_directory n.last_table_index n.last_page_index
    then some (slot n.current_directory n.last_table_index n.last_page_index, n)
    else none

-- The end of `alloc_page`: the entry gets its rights, and is stored at the last indices.
unfoldable pub store_page : ℕ → ℕ → ℕ → PageManager → Option (ℕ × PageManager)
store_page is_kernel is_writeable page m =
    let bits =
      encode_page_table_entry (granted is_kernel is_writeable (decode_page_table_entry page)) in
    if in_directory m.last_table_index m.last_page_index
    then some (
      bits,
      record m {
        current_directory = set_slot m.current_directory m.last_table_index m.last_page_index bits;
      },
    )
    else none

unfoldable pub alloc_page : ℕ → ℕ → ℕ → PageManager → Option (ℕ × PageManager)
unfolding choose_page store_page
alloc_page free_page_address is_kernel is_writeable m =
    elim (choose_page free_page_address is_kernel is_writeable m) [
      | none ↦ none
      | some (page, n) ↦ store_page is_kernel is_writeable page n
    ]

-- One of the n bytes from a on is used.
unfoldable pub touches : (used : ℕ → Bool) → (a n : ℕ) → Bool
touches used a zero = false
touches used a (suc n) = used a || touches used (a + 1) n

-- `free_page` on the entry `tables[i].pages[j]`. `new_page` is never assigned: `wild` is what it
-- happens to hold, and the 12 bytes of the node go there, whatever it is. `used` are the addresses
-- of the directory and of the other variables that the function reads or writes; where the node
-- falls on them, `spoilt` is what it leaves. `base` is `&current_directory`.
unfoldable pub free_page :
    (used : ℕ → Bool) (spoilt : PageManager → PageManager) (base wild i j : ℕ)
    → PageManager
    → Option PageManager
unfolding touches
free_page used spoilt base wild i j m =
    let info = decode_page_table_entry (slot m.current_directory i j) in
    let index = sub32 info.physical_address base / 4096 / 1024 in
    let n = record m {
      current_directory =
          set_slot m.current_directory i j
            (encode_page_table_entry (record info { is_presented = false }));
    } in
    if not (in_directory i j)
    then none
    else if touches used wild 12
    then some (spoilt n)
    else some (record n {
      node_at =
          update m.node_at wild
            (record { table_index = index; page_index = index; next = m.free_pages_head });
      free_pages_head = wild;
    })

-- `switch_directory`, without the loads of `cr3` and `cr0`.
unfoldable pub switch_directory : PageDirectory → PageManager → PageManager
switch_directory dir m = record m { current_directory = dir }

-- ===== src/Paging/Pages/Laws.antt =====
-- What `alloc_page` and `free_page` do on every path that returns.
use test_kernel.Base.{
  ℕ, ◌+◌, ◌*◌, ◌/◌, ◌^◌, ◌<◌, ◌≡◌, ◌≢◌, true, false, inl, inr, Option-cases, some, arith, sub32,
}
use test_kernel.Paging.{encode_page_table_entry, decode_page_table_entry}
use test_kernel.Paging.Pages.{in_directory, PageManager, slot, granted, alloc_page}

-- What one successful `alloc_page` did: it took the head of the free list, copied the entry that
-- the head names into the slot at the last indices, with the new rights, and moved neither index.
pub record TookHead (is_kernel is_writeable : ℕ) (m : PageManager) (page : ℕ) (n : PageManager)
    : Type 0 where
  pub next_head : n.free_pages_head ≡ (m.node_at m.free_pages_head).next
  pub same_table : n.last_table_index ≡ m.last_table_index
  pub same_page : n.last_page_index ≡ m.last_page_index
  pub same_catalog : n.current_directory.catalog ≡ m.current_directory.catalog
  pub copied :
      page
      ≡ encode_page_table_entry (
          granted is_kernel is_writeable (
            decode_page_table_entry (
              slot m.current_directory
                (m.node_at m.free_pages_head).table_index
                (m.node_at m.free_pages_head).page_index)))
  pub stored : slot n.current_directory m.last_table_index m.last_page_index ≡ page
  pub others_kept :
      (i j : ℕ)
      → j < 1024
      → i * 1024 + j ≢ m.last_table_index * 1024 + m.last_page_index
      → n.current_directory.tables i j ≡ m.current_directory.tables i j

module _ (fp is_kernel is_writeable : ℕ) {m n : PageManager} {page : ℕ} where
  TookHead-alloc_page :
      fp ≢ 0
      → alloc_page fp is_kernel is_writeable m ≡ some (page, n)
      → TookHead is_kernel is_writeable m page n
  unfolding alloc_page
  TookHead-alloc_page nz h = record {
    next_head = ground arith;
    same_table = ground arith;
    same_page = ground arith;
    same_catalog = ground arith;
    copied = ground arith;
    stored = ground arith;
    others_kept = λ i j jt ne. ground arith;
  }

alloc_page-returns :
    (fp is_kernel is_writeable : ℕ) (m : PageManager)
    → fp ≢ 0
    → in_directory
        (m.node_at m.free_pages_head).table_index
        (m.node_at m.free_pages_head).page_index
      ≡ true
    → in_directory m.last_table_index m.last_page_index ≡ true
    → (page : ℕ) × (n : PageManager) × (alloc_page fp is_kernel is_writeable m ≡ some (page, n))
unfolding alloc_page
alloc_page-returns fp is_kernel is_writeable m nz named there =
    elim (Option-cases (alloc_page fp is_kernel is_writeable m)) [
      | inl lost ↦ absurd (ground (arith, nz, named, there, lost))
      | inr ((page, n), ran) ↦ (page, n, ran)
    ]

-- Where a function's address is not null, and both the entry that the node at `free_pages_head`
-- names and the one at the last indices lie in the directory, `alloc_page` returns. It took that
-- node, be the pointer to it null or not, stored the entry that it names at the last indices, with
-- the new rights, and changed no other entry. The branch that moves on to a fresh page is never
-- taken.
pub alloc_page-TookHead :
    (fp is_kernel is_writeable : ℕ) (m : PageManager)
    → fp ≢ 0
    → in_directory
        (m.node_at m.free_pages_head).table_index
        (m.node_at m.free_pages_head).page_index
      ≡ true
    → in_directory m.last_table_index m.last_page_index ≡ true
    → (page : ℕ) × (n : PageManager) × (alloc_page fp is_kernel is_writeable m ≡ some (page, n))
      × TookHead is_kernel is_writeable m page n
alloc_page-TookHead fp is_kernel is_writeable m nz named there =
    let (page, n, ran) : (page : ℕ) × (n : PageManager) × (alloc_page fp is_kernel is_writeable m
          ≡ some (page, n)) =
      alloc_page-returns fp is_kernel is_writeable m nz named there in
    (page, n, ran, TookHead-alloc_page fp is_kernel is_writeable nz ran)

-- `free_page` clears the present bit of its entry, keeps the other bits of it and every other entry
-- of the directory, and puts a node in front of the free list whose two indices are equal.
pub record Freed (base wild i j : ℕ) (m n : PageManager) : Type 0 where
  pub cleared :
      decode_page_table_entry (slot n.current_directory i j)
      ≡ record (decode_page_table_entry (slot m.current_directory i j)) { is_presented = false }
  pub others_kept :
      (k l : ℕ)
      → l < 1024
      → k * 1024 + l ≢ i * 1024 + j
      → n.current_directory.tables k l ≡ m.current_directory.tables k l
  pub at_wild : n.free_pages_head ≡ wild
  pub linked : (n.node_at n.free_pages_head).next ≡ m.free_pages_head
  pub one_index :
      (n.node_at n.free_pages_head).table_index ≡ (n.node_at n.free_pages_head).page_index
  pub by_table :
      (n.node_at n.free_pages_head).table_index
      ≡ sub32 (decode_page_table_entry (slot m.current_directory i j)).physical_address base
        / 2 ^ 22

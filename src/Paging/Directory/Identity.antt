-- ===== src/Paging/Directory/Identity.antt =====
-- `init_directory` maps every 32-bit address to itself.
use test_kernel.Base.{ℕ, ◌+◌, ◌*◌, ◌/◌, ◌%◌, ◌^◌, ◌≤◌, ◌<◌, ◌≡◌, refl, ◌∙◌, ap, sym, subst}
use test_kernel.Base.{true, false, update, u32, arith}
use test_kernel.Base.Loops.{count_up, count_up_inv}
use test_kernel.Paging.{PageTableEntryInfo, encode_page_table_entry, decode_page_table_entry}
use test_kernel.Paging.Entry.{decode-encode}
use test_kernel.Paging.Directory.Rows.{Row, Row-more}
use test_kernel.Paging.Directory.{
  PageDirectory, table_address, kernel_entry, fill_page, fill_table, init_directory,
}

-- An entry that the processor follows to `address`: present, writeable, for the supervisor only,
-- and of the 4 KB size.
pub record IsKernelEntry (info : PageTableEntryInfo) (address : ℕ) : Type 0 where
  pub present : info.is_presented ≡ true
  pub writeable : info.is_writeable ≡ true
  pub supervisor : info.is_user_accessible ≡ false
  pub small_page : info.is_expanded ≡ false
  pub leads_to : info.physical_address ≡ address

-- The walk of the processor with 4 KB pages: bits 31-22 of the address select an entry of the
-- catalog, which holds the address of a table; bits 21-12 select the table's entry, which holds
-- the address of the page; bits 11-0 are the offset. `base` is where the directory lies.
pub record Maps (base : ℕ) (d : PageDirectory) (v p : ℕ) : Type 0 where
  pub table : ℕ
  pub table_exists : table < 1024
  pub table_found :
      IsKernelEntry (decode_page_table_entry (d.catalog (v / 2 ^ 22))) (base + 4096 + table * 4096)
  pub page : ℕ
  pub page_found :
      IsKernelEntry (decode_page_table_entry (d.tables table (v / 2 ^ 12 % 2 ^ 10))) page
  pub target : page + v % 2 ^ 12 ≡ p

abbrev page_bits : ℕ → ℕ → ℕ
page_bits i j = encode_page_table_entry (kernel_entry (u32 ((i * 1024 + j) * 4096)))

abbrev catalog_bits : ℕ → ℕ → ℕ
catalog_bits base i = encode_page_table_entry (kernel_entry (table_address base i))

fill_page-Row :
    {i j : ℕ} {d₀ d : PageDirectory}
    → Row (page_bits i) i j d₀ d
    → Row (page_bits i) i (j + 1) d₀ (fill_page i j d)
unfolding fill_page
fill_page-Row {i} {j} {d₀} {d} r = Row-more (page_bits i) i j d₀ d r

record Filled (base i : ℕ) (d : PageDirectory) : Type 0 where
  catalog_filled : (k : ℕ) → k < i → d.catalog k ≡ catalog_bits base k
  tables_filled : (k m : ℕ) → k < i → m < 1024 → d.tables k m ≡ page_bits k m

fill_table-Filled :
    {base i : ℕ} {d : PageDirectory} → Filled base i d → Filled base (i + 1) (fill_table base i d)
unfolding fill_table
fill_table-Filled {base} {i} {d} f = record {
  catalog_filled = λ k lt. ground (arith, f.catalog_filled k, row.catalog_same k);
  tables_filled =
      λ k m lt mt. ground (arith, f.tables_filled k m, row.filled m mt, row.others_same k m);
}
  where
    d₁ : PageDirectory
    d₁ = record d { catalog = update d.catalog i (catalog_bits base i) }

    row : Row (page_bits i) i 1024 d₁ (count_up (fill_page i) 1024 0 d₁)
    row =
        count_up_inv (λ j s. Row (page_bits i) i j d₁ s) (fill_page i) 1024
          (λ j s _ r. fill_page-Row r) 1024 0 d₁ refl
          (record {
            catalog_same = λ k. refl;
            others_same = λ k m ne. refl;
            filled = λ m lt. absurd (omega arith);
          })

init_directory-Filled : (base : ℕ) (d : PageDirectory) → Filled base 1024 (init_directory base d)
unfolding init_directory
init_directory-Filled base d =
    count_up_inv (λ i s. Filled base i s) (fill_table base) 1024 (λ i s _ f. fill_table-Filled f)
      1024 0 d refl
      (record {
        catalog_filled = λ k lt. absurd (omega arith);
        tables_filled = λ k m lt mt. absurd (omega arith);
      })

-- An aligned address survives the encoding.
kernel_entry_kept :
    (a b bits : ℕ)
    → a < 2 ^ 32
    → a % 4096 ≡ 0
    → a ≡ b
    → bits ≡ encode_page_table_entry (kernel_entry a)
    → IsKernelEntry (decode_page_table_entry bits) b
kernel_entry_kept a b bits lt al e h =
    subst (λ i. IsKernelEntry i b)
      (sym (ap decode_page_table_entry h ∙ decode-encode (kernel_entry a) lt))
      (record {
        present = refl;
        writeable = refl;
        supervisor = refl;
        small_page = refl;
        leads_to = omega arith;
      })

-- After `init_directory` the processor's walk finds, for every 32-bit address, a present entry in
-- the catalog and in the table, both writeable, for the supervisor only and write-through, and
-- the physical address is the virtual one. The directory is aligned to a page, as its declaration
-- asks, and its 1025 pages lie below 4 GB.
pub init_directory_identity :
    (base : ℕ) (d : PageDirectory) (v : ℕ)
    → base % 4096 ≡ 0
    → base + 1025 * 4096 ≤ 2 ^ 32
    → v < 2 ^ 32
    → Maps base (init_directory base d) v v
init_directory_identity base d v aligned below small = record {
  table = i;
  table_exists = omega arith;
  table_found =
      kernel_entry_kept (table_address base i) (base + 4096 + i * 4096) _ (omega arith)
        (omega arith) (omega arith) (f.catalog_filled i (omega arith));
  page = u32 ((i * 1024 + j) * 4096);
  page_found =
      kernel_entry_kept (u32 ((i * 1024 + j) * 4096)) _ _ (omega arith) (omega arith) refl
        (f.tables_filled i j (omega arith) (omega arith));
  target = omega arith;
}
  where
    i : ℕ
    i = v / 2 ^ 22

    j : ℕ
    j = v / 2 ^ 12 % 2 ^ 10

    f : Filled base 1024 (init_directory base d)
    f = init_directory-Filled base d

-- ===== src/Paging/Tests.antt =====
-- Page tables at concrete inputs: tests of tables.c, and the theorems at inputs that meet them.
use test_kernel.Base.{ℕ, Bool, ◌&&◌, leb, ltb, ◌≡◌, refl, some, arith, update}
use test_kernel.Paging.{
  PageTableEntryInfo, encode_page_table_entry, decode_page_table_entry, set_page_table_entry,
  get_page_table_entry,
}
use test_kernel.Paging.Entry.{normalised, encode-decode_inverse}
use test_kernel.Paging.Directory.{PageDirectory, kernel_entry, init_directory}
use test_kernel.Paging.Directory.Identity.{Maps, init_directory_identity}
use test_kernel.Paging.Pages.{PageManager, set_slot, alloc_page, touches, free_page}
use test_kernel.Paging.Pages.Laws.{TookHead, alloc_page-TookHead}

abbrev pub zero_directory : PageDirectory
zero_directory = record { catalog = λ i. 0; tables = λ i j. 0 }

abbrev video_entry : PageTableEntryInfo
video_entry = record (kernel_entry 0xb8123) { custom_bits = 13 }

encode_video : encode_page_table_entry video_entry ≡ 0xb8a0b
unfolding encode_page_table_entry
encode_video = refl

get_set :
    (get_page_table_entry
      (set_page_table_entry (λ i. 0) 7 (kernel_entry 0x5000))
      7).physical_address
    ≡ 0x5000
unfolding get_page_table_entry set_page_table_entry encode_page_table_entry decode_page_table_entry
get_set = refl

encode-decode_inverse_example :
    (decode_page_table_entry (encode_page_table_entry video_entry) ≡ normalised video_entry)
    × (encode_page_table_entry (decode_page_table_entry 0xb8a0b) ≡ 0xb8a0b)
encode-decode_inverse_example =
    encode-decode_inverse video_entry 0xb8a0b (omega arith) (omega arith)

init_directory_identity_example :
    Maps 0x200000 (init_directory 0x200000 zero_directory) 0xb8765 0xb8765
init_directory_identity_example =
    init_directory_identity 0x200000 zero_directory 0xb8765 (omega arith) (omega arith)
      (omega arith)

-- A free list of one node, which names entry 3 of table 2.
abbrev one_free : PageManager
one_free = record {
  current_directory = record zero_directory { tables = λ i j. 0x7002 };
  free_pages_head = 64;
  last_table_index = 0;
  last_page_index = 0;
  node_at = λ a. record { table_index = 2; page_index = 3; next = 0 };
}

abbrev after_alloc : PageManager
after_alloc = record one_free {
  free_pages_head = 0;
  current_directory = set_slot one_free.current_directory 0 0 0x7007;
}

alloc_one : alloc_page 0x100200 0 1 one_free ≡ some (0x7007, after_alloc)
unfolding alloc_page encode_page_table_entry decode_page_table_entry
alloc_one = refl

alloc_page-TookHead_example :
    (page : ℕ) × (n : PageManager) × (alloc_page 0x100200 0 1 one_free ≡ some (page, n))
    × TookHead 0 1 one_free page n
alloc_page-TookHead_example = alloc_page-TookHead 0x100200 0 1 one_free (omega arith) refl refl

abbrev after_free : PageManager
after_free = record after_alloc {
  current_directory = set_slot after_alloc.current_directory 0 0 0x7006;
  node_at =
      update one_free.node_at 128 (record { table_index = 1023; page_index = 1023; next = 0 });
  free_pages_head = 128;
}

-- The directory lies at 0x400000, and the three other variables behind it.
used : ℕ → Bool
used a = leb 0x400000 a && ltb a 0x80200c

free_one : free_page used (λ m. m) 0x400000 128 0 0 after_alloc ≡ some after_free
unfolding free_page touches used encode_page_table_entry decode_page_table_entry
free_one = refl

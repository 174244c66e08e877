-- ===== src/Boot/PagingTest.antt =====
-- TestKernel1/src/main.c: `test` and `test_paging`. What the processor makes of an address with
-- the directory that cr3 points to, which is the kernel's, is a parameter; all other accesses
-- than the read of `x` are to addresses that are mapped to themselves.
pub mod Page
pub mod Unseen
use test_kernel.Base.{
  ℕ, ◌+◌, ◌*◌, ◌/◌, ◌%◌, ◌^◌, Option, none, some, List, if◌then◌else◌, ltb, ◌==◌, u32, sub32,
}
use test_kernel.Boot.{MultibootInfo, Entries, get_free_page_address, signed_rem}
use test_kernel.Boot.Console.{System, codes, ◌>>=◌, put_line}
use test_kernel.Mem.{memcpy, itoa}
use test_kernel.Mem.Words.{load32, store32}
use test_kernel.Paging.{encode_page_table_entry, decode_page_table_entry}
use test_kernel.Paging.Directory.{PageDirectory}
use test_kernel.Paging.Pages.{in_directory, slot, set_slot}
use test_kernel.Vmem.{signed_div}

abbrev pub Mmu : Type 0
Mmu = PageDirectory → ℕ → ℕ

-- `test`: what it stores in `*p`. `x` is `&x`.
unfoldable pub test : Mmu → (x : ℕ) → System → ℕ
test mmu x s = if load32 s.memory (mmu s.kernel_directory x) == 10 then 1 else 0

-- `test(&y)` and the three calls of `puts` behind it; the buffer has 20 bytes.
unfoldable pub print_test : Mmu → (x buff : ℕ) → List ℕ → System → Option System
print_test mmu x buff label s = put_line 20 1 label (codes ".\n") (itoa (test mmu x s) buff 20) s

-- The new page: a copy of the page of `x`, with 5 for `x`.
unfoldable pub copy_page : (x new : ℕ) → System → System
copy_page x new s =
    let old = u32 (signed_div x 4096 * 4096) in
    let copy = (memcpy new old 4096 s.memory).1 in
    record s { memory = store32 (u32 (new + sub32 x old)) 5 copy }

-- The indices of the entry of `x` in the directory. The source divides by 1204.
abbrev pub catalog_entry : ℕ → ℕ
catalog_entry x = signed_div (signed_div x 4096) 1024

abbrev pub page_entry : ℕ → ℕ
page_entry x = signed_rem (signed_div x 4096) 1204

-- `*entry = encode_page_table_entry(info)`, where `info` is what the entry was with the address
-- `new`.
unfoldable pub remap : (x new : ℕ) → System → System
remap x new s =
    let info =
      decode_page_table_entry (slot s.current_directory (catalog_entry x) (page_entry x)) in
    record s {
      current_directory =
          set_slot s.current_directory (catalog_entry x) (page_entry x)
            (encode_page_table_entry (record info { physical_address = new }));
    }

-- `test_paging`; an entry behind the end of the directory is a fault.
unfoldable pub test_paging :
    (header end x buff fuel : ℕ) → Mmu → MultibootInfo → Entries → System → Option System
test_paging header end x buff fuel mmu info m s =
    get_free_page_address header end fuel info m >>= λ new.
    if in_directory (catalog_entry x) (page_entry x)
    then (do
      t ← print_test mmu x buff (codes "test 1: ") (copy_page x new s)
      print_test mmu x buff (codes "test 2: ") (remap x new t))
    else none

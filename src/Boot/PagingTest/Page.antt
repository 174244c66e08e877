-- ===== src/Boot/PagingTest/Page.antt =====
-- TestKernel1/src/main.c: the page that `test_paging` makes and the entry that it changes.
use test_kernel.Base.{
  ℕ, ◌+◌, ◌*◌, ◌/◌, ◌%◌, ◌^◌, ◌<◌, ◌≤◌, ◌≡◌, ◌⊎◌, subst, ap, ◌∙◌, arith, true, u32, sub32,
  update-same,
}
use test_kernel.Boot.{signed_rem}
use test_kernel.Boot.Console.{System}
use test_kernel.Boot.PagingTest.{copy_page, catalog_entry, page_entry, remap}
use test_kernel.Mem.{Bytes}
use test_kernel.Mem.Words.{load32, load32-store32, store32-outside, memcpy-copies}
use test_kernel.Paging.{encode_page_table_entry, decode_page_table_entry}
use test_kernel.Paging.Directory.{PageDirectory}
use test_kernel.Paging.Entry.{decode-encode}
use test_kernel.Paging.Pages.{in_directory, slot, set_slot}
use test_kernel.Vmem.{signed_div}

pub entry-in_directory :
    (x : ℕ) → x < 2147483648 → in_directory (catalog_entry x) (page_entry x) ≡ true
entry-in_directory x low =
    let page : signed_div x 4096 ≡ x / 4096 = ground arith in
    let table : signed_div (x / 4096) 1024 ≡ x / 4096 / 1024 = ground arith in
    let place : signed_rem (x / 4096) 1204 ≡ x / 4096 % 1204 = ground arith in
    rw (page, table, place) (ground arith)

slot-set_slot : (k : PageDirectory) (i j bits : ℕ) → slot (set_slot k i j bits) i j ≡ bits
slot-set_slot k i j bits =
    ap (λ t. t (j % 1024)) (update-same k.tables (i + j / 1024) _)
    ∙ update-same (k.tables (i + j / 1024)) (j % 1024) bits

-- What `remap` makes of the entry.
pub remap-leads_to :
    (x new : ℕ) (s : System)
    → new % 4096 ≡ 0
    → new < 4294967296
    → (decode_page_table_entry
        (slot (remap x new s).current_directory (catalog_entry x) (page_entry x))).physical_address
      ≡ new
unfolding remap
remap-leads_to x new s aligned small =
    let entry =
      decode_page_table_entry (slot s.current_directory (catalog_entry x) (page_entry x)) in
    ap (λ b. (decode_page_table_entry b).physical_address)
      (slot-set_slot s.current_directory (catalog_entry x) (page_entry x)
        (encode_page_table_entry (record entry { physical_address = new })))
    ∙ ap (λ i. i.physical_address) (decode-encode (record entry { physical_address = new }) small)
    ∙ omega arith

-- The new page.
pub copied_page :
    (x new : ℕ) (s : System)
    → x < 2147483648
    → x % 4096 ≤ 4092
    → new + 4096 ≤ 4294967296
    → (new + 4096 ≤ x / 4096 * 4096) ⊎ (x / 4096 * 4096 + 4096 ≤ new)
    → (load32 (copy_page x new s).memory (new + x % 4096) ≡ 5)
      × ((k : ℕ)
          → k < 4096
          → (k < x % 4096) ⊎ (x % 4096 + 4 ≤ k)
          → (copy_page x new s).memory (new + k) ≡ s.memory (x / 4096 * 4096 + k))
unfolding copy_page
copied_page x new s low inside fits apart =
    let page : u32 (signed_div x 4096 * 4096) ≡ x / 4096 * 4096 = ground arith in
    let place : u32 (new + sub32 x (x / 4096 * 4096)) ≡ new + x % 4096 = ground arith in
    let copied = memcpy-copies new (x / 4096 * 4096) 4096 s.memory (ground (arith, apart)) in
    rw (page, place)
      (
        load32-store32 (new + x % 4096) 5 _ (omega arith),
        λ k lt out.
            store32-outside (new + x % 4096) 5 (new + k) _ (ground (arith, out)) ∙ copied.0 k lt,
      )

-- The entry's place in numbers.
pub entry_place :
    (x : ℕ) → x < 2147483648 → (catalog_entry x ≡ x / 2 ^ 22) × (page_entry x ≡ x / 2 ^ 12 % 1204)
entry_place x low = (ground arith, ground arith)

pub own_slot :
    (k : PageDirectory) (x j new : ℕ)
    → j < 1024
    → x / 2 ^ 12 ≡ j
    → (decode_page_table_entry (slot k (x / 2 ^ 22) (x / 2 ^ 12 % 1204))).physical_address ≡ new
    → (decode_page_table_entry (k.tables 0 j)).physical_address ≡ new
own_slot k x j new lt e h =
    let first : x / 2 ^ 22 + x / 2 ^ 12 % 1204 / 1024 ≡ 0 = omega (arith, e) in
    let same : x / 2 ^ 12 % 1204 % 1024 ≡ j = omega (arith, e) in
    subst (λ q. (decode_page_table_entry (k.tables 0 q)).physical_address ≡ new) same
      (subst
        (λ q.
          (decode_page_table_entry (k.tables q (x / 2 ^ 12 % 1204 % 1024))).physical_address ≡ new)
        first h)

-- A byte of the word at the place of `x` on the new page.
pub word_byte :
    (new r d : ℕ) (m n : Bytes)
    → ((k : ℕ) → k < 4096 → m (new + k) ≡ n (new + k))
    → r + d < 4096
    → m (new + r + d) ≡ n (new + r + d)
word_byte new r d m n same lt =
    let e : new + (r + d) ≡ new + r + d = omega arith in subst (λ q. m q ≡ n q) e (same (r + d) lt)

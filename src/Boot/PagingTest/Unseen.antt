-- ===== src/Boot/PagingTest/Unseen.antt =====
-- TestKernel1/src/main.c: what `test_paging` finds.
use test_kernel.Base.{
  ℕ, ◌+◌, ◌-◌, ◌*◌, ◌/◌, ◌%◌, ◌^◌, ◌<◌, ◌≤◌, ◌≡◌, ◌⊎◌, refl, sym, ap, ◌∙◌, arith, true, some, List,
  [], ◌∷◌, u32, sub32, update, update-same, update-ne,
}
use test_kernel.Boot.{MultibootInfo, Entries, get_free_page_address}
use test_kernel.Boot.Console.{
  System, codes, string_at, string_at-end, string_at-more, put_line, put_line-puts,
}
use test_kernel.Boot.PagingTest.{
  Mmu, test, print_test, copy_page, catalog_entry, page_entry, remap, test_paging,
}
use test_kernel.Boot.PagingTest.Page.{
  entry-in_directory, remap-leads_to, copied_page, entry_place, own_slot, word_byte,
}
use test_kernel.Display.{Display, puts}
use test_kernel.Mem.{Bytes, memset, itoa}
use test_kernel.Mem.Words.{load32, load32-same, load32-copied, store32-outside, memcpy-copies}
use test_kernel.Mem.Decimal.{KeptOutside, itoa-plain, put_digits-stops, atoi-itoa}
use test_kernel.Paging.{decode_page_table_entry}
use test_kernel.Paging.Directory.{PageDirectory, init_directory}
use test_kernel.Paging.Directory.Identity.{Maps, init_directory_identity}
use test_kernel.Paging.Pages.{in_directory, slot}
use test_kernel.Vmem.{signed_div}

-- One digit.
itoa-digit :
    (i buff : ℕ) (m : Bytes)
    → i < 10
    → string_at 20 (itoa i buff 20 m).0 (itoa i buff 20 m).1 ≡ some ((48 + i) ∷ [])
itoa-digit i buff m lt =
    let end : ℕ = buff + 20 - 1 in
    let cleared : Bytes = update (memset buff 0 20 m).1 end 0 in
    let written : Bytes = update cleared (end - 1) (48 + i % 10) in
    let made : itoa i buff 20 m ≡ (end - 1, written) =
      itoa-plain i buff 20 m (omega arith) ∙ put_digits-stops 18 end i cleared lt in
    let digit : written (end - 1) ≡ 48 + i = update-same cleared (end - 1) _ ∙ omega arith in
    let behind : end - 1 + 1 ≡ end = omega arith in
    let null : written (end - 1 + 1) ≡ 0 =
      ap written behind
      ∙ update-ne cleared (end - 1) end _ (omega arith)
      ∙ update-same (memset buff 0 20 m).1 end 0 in
    ap (λ (r : ℕ × Bytes). string_at 20 r.0 r.1) made
    ∙ string_at-more 19 (end - 1) [] written (omega (arith, digit))
        (string_at-end 18 (end - 1 + 1) written null)
    ∙ ap (λ c. some (c ∷ [])) digit

itoa-kept : (i buff : ℕ) (m : Bytes) → i < 10 → KeptOutside buff 20 m (itoa i buff 20 m).1
itoa-kept i buff m lt =
    let (_, _, _, kept) = atoi-itoa i buff 20 11 m (omega arith) (omega arith) (omega arith) in kept

module _ (mmu : Mmu) (x buff : ℕ) where
  -- The processor reads `x` where it is, and `x` is 10.
  record Sees (s : System) : Type 0 where
    identity : mmu s.kernel_directory x ≡ x
    ten : load32 s.memory x ≡ 10

  Sees-one : (s : System) → Sees s → test mmu x s ≡ 1
  unfolding test
  Sees-one s w =
      let read : load32 s.memory (mmu s.kernel_directory x) ≡ 10 =
        ap (load32 s.memory) w.identity ∙ w.ten in
      rw read refl

  print_test-one :
      (label : List ℕ) (s : System)
      → Sees s
      → (buff + 20 ≤ x) ⊎ (x + 4 ≤ buff)
      → (t : System) × (print_test mmu x buff label s ≡ some t)
        × (t.display ≡ puts 1 (codes ".\n") (puts 1 (codes "1") (puts 1 label s.display)))
        × (t.kernel_directory ≡ s.kernel_directory)
        × (t.current_directory ≡ s.current_directory)
        × Sees t
        × KeptOutside buff 20 s.memory t.memory
  unfolding print_test
  print_test-one label s w apart =
      let m : Bytes = (itoa 1 buff 20 s.memory).1 in
      let kept = itoa-kept 1 buff s.memory (omega arith) in
      (
        record s {
          memory = m;
          display = puts 1 (codes ".\n") (puts 1 (codes "1") (puts 1 label s.display));
        },
        ap (λ y. put_line 20 1 label (codes ".\n") (itoa y buff 20) s) (Sees-one s w)
            ∙ put_line-puts 20 1 label (codes ".\n") (codes "1") (itoa 1 buff 20) s
                (itoa-digit 1 buff s.memory (omega arith)),
        refl,
        refl,
        refl,
        record {
          identity = w.identity;
          ten = load32-same x m s.memory (λ a le lt. kept a (ground (arith, apart))) ∙ w.ten;
        },
        kept,
      )

  copy_page-Sees :
      (new : ℕ) (s : System)
      → Sees s
      → x < 2147483648
      → x % 4096 ≤ 4092
      → new + 4096 ≤ 4294967296
      → (new + 4096 ≤ x / 4096 * 4096) ⊎ (x / 4096 * 4096 + 4096 ≤ new)
      → Sees (copy_page x new s)
  unfolding copy_page
  copy_page-Sees new s w low inside fits apart =
      let page : u32 (signed_div x 4096 * 4096) ≡ x / 4096 * 4096 = ground arith in
      let place : u32 (new + sub32 x (x / 4096 * 4096)) ≡ new + x % 4096 = ground arith in
      let copied = memcpy-copies new (x / 4096 * 4096) 4096 s.memory (ground (arith, apart)) in
      record {
        identity = w.identity;
        ten =
            rw (page, place)
              (load32-same x _ s.memory (λ a le lt.
                  store32-outside (new + x % 4096) 5 a _ (ground (arith, apart))
                  ∙ copied.1 a (ground (arith, apart)))
                ∙ w.ten);
      }

  remap-Sees : (new : ℕ) (s : System) → Sees s → Sees (remap x new s)
  unfolding remap
  remap-Sees new s w = record { identity = w.identity; ten = w.ten }

-- Where `x`, the new page and the buffer lie: `x` in one page below 2 GB, which the new page does
-- not touch, and the buffer neither in `x` nor in the new page.
pub record IsApart (x new buff : ℕ) : Type 0 where
  pub low : x < 2147483648
  pub inside : x % 4096 ≤ 4092
  pub aligned : new % 4096 ≡ 0
  pub fits : new + 4096 ≤ 4294967296
  pub pages : (new + 4096 ≤ x / 4096 * 4096) ⊎ (x / 4096 * 4096 + 4096 ≤ new)
  pub buffer : (buff + 20 ≤ x) ⊎ (x + 4 ≤ buff)
  pub buffer_new : (buff + 20 ≤ new) ⊎ (new + 4096 ≤ buff)

-- The text of the two tests.
tests_text :
    (d : Display)
    → puts 1 (codes ".\n") (
        puts 1 (codes "1") (
          puts 1
            (codes "test 2: ")
            (puts 1 (codes ".\n") (puts 1 (codes "1") (puts 1 (codes "test 1: ") d)))))
      ≡ puts 1 (codes "test 1: 1.\ntest 2: 1.\n") d
unfolding puts
tests_text d = refl

test_paging-runs :
    (header end x buff fuel new : ℕ) (mmu : Mmu) (info : MultibootInfo) (m : Entries)
    (s t u : System)
    → get_free_page_address header end fuel info m ≡ some new
    → in_directory (catalog_entry x) (page_entry x) ≡ true
    → print_test mmu x buff (codes "test 1: ") (copy_page x new s) ≡ some t
    → print_test mmu x buff (codes "test 2: ") (remap x new t) ≡ some u
    → test_paging header end x buff fuel mmu info m s ≡ some u
unfolding test_paging
test_paging-runs header end x buff fuel new mmu info m s t u free there first second =
    rw (test_paging, free, there, first) second

test-five :
    (new x : ℕ) (t : System)
    → load32 t.memory (new + x % 4096) ≡ 5
    → test (λ k v. new + v % 4096) x t ≡ 0
unfolding test
test-five new x t five = rw five refl

-- What `test_paging` leaves of s.
pub record Unseen (x new : ℕ) (s t : System) : Type 0 where
  pub shown : t.display ≡ puts 1 (codes "test 1: 1.\ntest 2: 1.\n") s.display
  pub kernel_same : t.kernel_directory ≡ s.kernel_directory
  pub ten : load32 t.memory x ≡ 10
  pub five : load32 t.memory (new + x % 4096) ≡ 5
  pub copied :
      (k : ℕ)
      → k < 4096
      → (k < x % 4096) ⊎ (x % 4096 + 4 ≤ k)
      → t.memory (new + k) ≡ s.memory (x / 4096 * 4096 + k)
  pub entry :
      (decode_page_table_entry
        (slot t.current_directory (x / 2 ^ 22) (x / 2 ^ 12 % 1204))).physical_address
      ≡ new
  pub own_entry :
      (j : ℕ)
      → j < 1024
      → x / 2 ^ 12 ≡ j
      → (decode_page_table_entry (t.current_directory.tables 0 j)).physical_address ≡ new
  pub found_there : test (λ k v. new + v % 4096) x t ≡ 0

-- Where the kernel's directory is as `init_directory` left it, `x` is 10, the search for a free
-- page finds `new`, the new page, `x` and the buffer lie apart, and no interrupt is raised
-- meanwhile, `test_paging` returns, and prints 1 for both tests: the processor, which goes by the
-- kernel's directory, still finds 10. The new page holds 5 in the place of `x` and is a copy of the
-- page of `x` elsewhere; the entry x / 2^12 % 1204 of the table x / 2^22 in the current directory
-- leads to it, which is the entry of `x` if `x` lies below 4 MB; and `test` would give 0 for a
-- processor to which `x` were there.
pub test_paging-Unseen :
    (header end x buff fuel base new : ℕ) (mmu : Mmu) (info : MultibootInfo) (m : Entries)
    (d : PageDirectory) (s : System)
    → base % 4096 ≡ 0
    → base + 1025 * 4096 ≤ 2 ^ 32
    → s.kernel_directory ≡ init_directory base d
    → ((k : PageDirectory) (v p : ℕ) → Maps base k v p → mmu k v ≡ p)
    → load32 s.memory x ≡ 10
    → get_free_page_address header end fuel info m ≡ some new
    → IsApart x new buff
    → (t : System) × (test_paging header end x buff fuel mmu info m s ≡ some t) × Unseen x new s t
unfolding copy_page remap
test_paging-Unseen header end x buff fuel base new mmu info m d s aligned below kernel walks ten
      free a =
    let sees : Sees mmu x buff s = record {
      identity = rw kernel (
          walks (init_directory base d) x x
            (init_directory_identity base d x aligned below (omega (arith, a))));
      ten = ten;
    } in
    let (t, first, shown, same, current, w, kept) =
      print_test-one mmu x buff (codes "test 1: ") (copy_page x new s)
        (copy_page-Sees mmu x buff new s sees a.low a.inside a.fits a.pages) a.buffer in
    let (u, second, shown2, same2, current2, w2, kept2) =
      print_test-one mmu x buff (codes "test 2: ") (remap x new t) (remap-Sees mmu x buff new t w)
        a.buffer in
    let (five, copied) = copied_page x new s a.low a.inside a.fits a.pages in
    let (table, page) = entry_place x a.low in
    let still : (k : ℕ) → k < 4096 → u.memory (new + k) ≡ (copy_page x new s).memory (new + k) =
      λ k lt.
        kept2 (new + k) (ground (arith, a.buffer_new))
        ∙ kept (new + k) (ground (arith, a.buffer_new)) in
    let there : load32 u.memory (new + x % 4096) ≡ 5 =
      load32-copied (new + x % 4096) (new + x % 4096) u.memory (copy_page x new s).memory (λ d lt.
        word_byte new (x % 4096) d u.memory (copy_page x new s).memory still
          (omega (arith, a.inside, lt)))
      ∙ five in
    let leads : (decode_page_table_entry
          (slot u.current_directory (x / 2 ^ 22) (x / 2 ^ 12 % 1204))).physical_address
        ≡ new =
      rw (sym table, sym page)
        (ap
            (λ k.
              (decode_page_table_entry (slot k (catalog_entry x) (page_entry x))).physical_address)
            current2
          ∙ remap-leads_to x new t a.aligned (omega (arith, a))) in
    (
      u,
      test_paging-runs header end x buff fuel new mmu info m s t u free (entry-in_directory x a.low)
          first second,
      record {
        shown =
            shown2
            ∙ ap (λ e. puts 1 (codes ".\n") (puts 1 (codes "1") (puts 1 (codes "test 2: ") e)))
                shown
            ∙ tests_text s.display;
        kernel_same = same2 ∙ same;
        ten = w2.ten;
        five = there;
        copied = λ k lt out. still k lt ∙ copied k lt out;
        entry = leads;
        own_entry = λ j lt e. own_slot u.current_directory x j new lt e leads;
        found_there = test-five new x u there;
      },
    )

-- ===== src/Boot.antt =====
-- TestKernel1/src/main.c: the boot loader's map of the memory, and the search for a free page in
-- it. The map lies in memory: an entry is read at an address. `header` and `end` are the
-- addresses of `_multiboot_header` and `_end`.
pub mod Region
pub mod Search
pub mod Stack
pub mod Console
pub mod Report
pub mod PagingTest
pub mod Start
mod Tests
use test_kernel.Base.{
  ℕ, zero, suc, ◌+◌, ◌-◌, ◌*◌, ◌%◌, ◌^◌, Bool, true, false, ◌&&◌, not, Option, none, some,
  if◌then◌else◌, ltb, ◌==◌, signed_lt, u32, sub32,
}

-- `struct multiboot_info`, the fields that the kernel reads.
pub record MultibootInfo : Type 0 where
  pub flags : ℕ
  pub mem_lower : ℕ
  pub mem_upper : ℕ
  pub cmdline : ℕ
  pub mmap_length : ℕ
  pub mmap_addr : ℕ

-- `multiboot_memory_map_t`; `addr` and `len` are 64-bit words.
pub record MmapEntry : Type 0 where
  pub size : ℕ
  pub addr : ℕ
  pub len : ℕ
  pub type : ℕ

abbrev pub Entries : Type 0
Entries = ℕ → MmapEntry

-- `a % b` in C on the patterns of an `int` a and a positive b: the result has the sign of a.
abbrev pub signed_rem : ℕ → ℕ → ℕ
signed_rem a b = if ltb a 2147483648 then a % b else sub32 0 (sub32 0 a % b)

-- `align_to`, on patterns.
unfoldable pub align_to : (size alignment : ℕ) → ℕ
align_to size alignment =
    sub32 (u32 (size + sub32 alignment (signed_rem (sub32 size 1) alignment))) 1

-- The condition and the step of the loops over the map.
abbrev pub in_map : MultibootInfo → ℕ → Bool
in_map info p = ltb p (u32 (info.mmap_addr + info.mmap_length))

abbrev pub next_entry : Entries → ℕ → ℕ
next_entry m p = u32 (p + (m p).size + 4)

-- The body of the loop in `get_free_page_address`: `some r` where it returns r.
unfoldable pub page_of_entry : (header end : ℕ) → MmapEntry → Option ℕ
page_of_entry header end e =
    let a_rn = align_to (u32 e.addr) 4096 in
    let b_rn = u32 (e.addr + e.len) in
    let b_m = align_to end 4096 in
    if (e.type == 1) && not (signed_lt a_rn 1048576)
    then (if signed_lt 4096 (sub32 header a_rn)
        then some a_rn
        else if signed_lt 4096 (sub32 b_rn b_m)
        then some b_m
        else none)
    else none

-- The loop from the entry at p on; `none` where the fuel runs out.
unfoldable pub search_map : (header end : ℕ) → MultibootInfo → Entries → (fuel p : ℕ) → Option ℕ
search_map header end info m zero p = none
search_map header end info m (suc fuel) p =
    let rest = search_map header end info m fuel (next_entry m p) in
    if in_map info p
    then elim (page_of_entry header end (m p)) [ some r ↦ some r | none ↦ rest ]
    else some 0

unfoldable pub get_free_page_address : (header end fuel : ℕ) → MultibootInfo → Entries → Option ℕ
get_free_page_address header end fuel info m = search_map header end info m fuel info.mmap_addr

-- `get_page_address` has the same text, and does not use its first parameter.
unfoldable pub get_page_address : (header end fuel source : ℕ) → MultibootInfo → Entries → Option ℕ
get_page_address header end fuel source info m = search_map header end info m fuel info.mmap_addr

-- ===== src/Vmem.antt =====
-- TestKernel1/src/arch/ia32/vmem.c: the part of the memory that pages are taken from, and the
-- list of blocks in use. The functions write through pointers that they never assign: what such a
-- pointer holds is an argument, named after it.
pub mod Chain
pub mod Insert
pub mod Remove
pub mod Pages
pub mod Endless
pub mod Part
pub mod Gap
mod Tests
use test_kernel.Base.{
  ℕ, zero, suc, ◌+◌, ◌-◌, ◌*◌, ◌/◌, ◌%◌, ◌^◌, Bool, true, false, ◌&&◌, not, Option, none, some,
  if◌then◌else◌, ltb, leb, ◌==◌, update, u32, sub32, bit_and, ◌>>◌,
}
use test_kernel.Boot.{MultibootInfo, MmapEntry, Entries, in_map, next_entry, signed_rem}

-- `dirty_block_t`, and `mem_part_t`, which has the same layout with `dirty_block` for `next`.
pub record Block : Type 0 where
  pub begin_address : ℕ
  pub end_address : ℕ
  pub next : ℕ

-- The structures in memory by their addresses; two of them do not overlap. Address 0 can be read
-- and written, and the variable `memory` holds 0, since no code assigns it: the part of the
-- memory is the structure at 0.
abbrev pub Heap : Type 0
Heap = ℕ → Block

abbrev pub memory : ℕ
memory = 0

abbrev pub set_next : ℕ → ℕ → Heap → Heap
set_next a v h = update h a (record (h a) { next = v })

abbrev pub set_begin : ℕ → ℕ → Heap → Heap
set_begin a v h = update h a (record (h a) { begin_address = v })

abbrev pub set_end : ℕ → ℕ → Heap → Heap
set_end a v h = update h a (record (h a) { end_address = v })

-- The loops over the list: what `temp` and `prev` are at the end; `none` where the fuel runs out.
unfoldable pub find_block : (begin_address fuel temp prev : ℕ) → Heap → Option (ℕ × ℕ)
find_block begin_address zero temp prev h = none
find_block begin_address (suc fuel) temp prev h =
    let rest = find_block begin_address fuel (h temp).next temp h in
    if ltb (h temp).begin_address begin_address && not ((h temp).begin_address == 0)
    then rest
    else some (temp, prev)

unfoldable pub add_dirty_block : (fuel new_block begin_address end_address : ℕ) → Heap → Option Heap
add_dirty_block fuel new_block begin_address end_address h =
    let h1 = set_end new_block end_address (set_begin new_block begin_address h) in
    if (h1 memory).next == 0
    then some (set_next memory new_block (set_next new_block 0 h1))
    else elim (find_block begin_address fuel (h1 memory).next 0 h1) [
      | none ↦ none
      | some w ↦ some (set_next new_block w.0 (set_next w.1 new_block h1))
    ]

unfoldable pub remove_dirty_block : (fuel begin_address : ℕ) → Heap → Option (Bool × Heap)
remove_dirty_block fuel begin_address h = elim (find_block begin_address fuel (h memory).next 0 h) [
  | none ↦ none
  | some w ↦
      (if (h w.0).begin_address == 0
        then some (false, h)
        else some (true, set_next w.1 (h w.0).next h))
]

-- The body of the loop of `take_multiboot_info`. Its `i` is 0 in every round, and the other branch
-- only writes a local block.
unfoldable pub take_entry : (i : ℕ) → MmapEntry → Heap → Heap
take_entry i e h =
    if (e.type == 1) && (i == 0)
    then set_end memory (u32 (e.addr + e.len)) (set_begin memory (u32 e.addr) h)
    else h

unfoldable pub take_entries : MultibootInfo → Entries → (fuel p : ℕ) → Heap → Option Heap
take_entries info m zero p h = none
take_entries info m (suc fuel) p h =
    let rest = take_entries info m fuel (next_entry m p) (take_entry 0 (m p) h) in
    if in_map info p then rest else some h

unfoldable pub take_multiboot_info : MultibootInfo → Entries → (fuel : ℕ) → Heap → Option Heap
take_multiboot_info info m fuel h =
    if bit_and (info.flags >> 6) 1 == 0 then some h else take_entries info m fuel info.mmap_addr h

-- `pinit` returns no value, whatever its type says.
unfoldable pub pinit : MultibootInfo → Entries → (fuel : ℕ) → Heap → Option Heap
pinit info m fuel h = take_multiboot_info info m fuel h

-- `a / b` in C on the patterns of an `int` a and a positive b: the quotient is rounded to 0.
abbrev pub signed_div : ℕ → ℕ → ℕ
signed_div a b = if ltb a 2147483648 then a / b else sub32 0 (sub32 0 a / b)

-- `size`, or the address, in whole pages.
abbrev pub round_up : (x r : ℕ) → ℕ
round_up x r = if ltb 0 r then u32 ((x + 1) * 0x1000) else u32 (x * 0x1000)

-- The loop in `palloc`: `prev` and `len` at the end.
unfoldable pub find_gap : (size fuel prev temp len : ℕ) → Heap → Option (ℕ × ℕ)
find_gap size zero prev temp len h = none
find_gap size (suc fuel) prev temp len h =
    let after = (h temp).next in
    let rest =
      find_gap size fuel temp after (sub32 (h temp).end_address (h after).begin_address) h in
    if ltb len size && not (temp == 0) then rest else some (prev, len)

-- `palloc` where the list has blocks, on a size in whole pages.
unfoldable pub palloc_behind : (fuel prev new_block size : ℕ) → Heap → Option Heap
palloc_behind fuel prev new_block size h =
    let temp = (h memory).next in
    let len = sub32 (h temp).begin_address (h memory).begin_address in
    elim (find_gap size fuel prev temp len h) [
      | none ↦ none
      | some w ↦
          (if ltb w.1 size
            then add_dirty_block fuel new_block (h w.0).end_address
                (u32 ((h w.0).end_address + size)) h
            else some h)
    ]

-- `palloc` of the address 0.
unfoldable pub palloc_next : (new_block size : ℕ) → Heap → ℕ × Heap
palloc_next new_block size h =
    let address = (h memory).begin_address in
    let h1 = set_begin new_block (h memory).begin_address h in
    let h2 = set_end new_block (u32 ((h1 memory).begin_address + size)) h1 in
    let h3 = set_begin memory (u32 ((h2 memory).begin_address + 0x1000)) h2 in
    let h4 = set_next new_block (h3 memory).next h3 in (address, set_next memory new_block h4)

-- `palloc`: the new value of `address`, which it returns, and the memory. `end` is what `_end`
-- holds, `added_block` the `new_block` of `add_dirty_block`.
unfoldable pub palloc :
    (fuel end prev new_block added_block address size : ℕ) → Heap → Option (ℕ × Heap)
palloc fuel end prev new_block added_block address size h =
    if address == 0
    then some (palloc_next new_block size h)
    else if leb end address
    then some (0, h)
    else if not ((h memory).next == 0)
    then elim (palloc_behind fuel prev added_block (round_up (size / 0x1000) (size % 0x1000)) h) [
      | none ↦ none
      | some r ↦ some (address, r)
    ]
    else (let gap = sub32 (h memory).begin_address address in
        let page = round_up (signed_div gap 0x1000) (signed_rem gap 0x1000) in
        elim (add_dirty_block fuel added_block page (round_up (size / 0x1000) (size % 0x1000)) h) [
          | none ↦ none
          | some r ↦ some (page, r)
        ])

unfoldable pub pfree : (fuel address : ℕ) → Heap → Option Heap
pfree fuel address h = elim (remove_dirty_block fuel address h) [ none ↦ none | some r ↦ some r.1 ]

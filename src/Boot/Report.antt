-- ===== src/Boot/Report.antt =====
-- TestKernel1/src/main.c: `printMultibootInfo`. The boot loader's map does not overlap with the
-- buffer.
pub mod Hex
pub mod Text
use test_kernel.Base.{
  ℕ, zero, suc, ◌+◌, ◌*◌, ◌%◌, ◌^◌, Option, none, some, List, if◌then◌else◌, ◌==◌, bit_and, ◌>>◌,
  u32,
}
use test_kernel.Boot.{MultibootInfo, MmapEntry, Entries, in_map, next_entry}
use test_kernel.Boot.Console.{System, codes, ◌>>=◌, put_line}
use test_kernel.Mem.{utox, ultox}

-- `print(label); print(utox(n, buff, l)); print("\n")`, and the same with `ultox`. The buffer has
-- 20 bytes.
abbrev pub print_uint : List ℕ → (n buff : ℕ) → System → Option System
print_uint label n buff = put_line 20 2 label (codes "\n") (utox n buff 20)

abbrev pub print_ulong : List ℕ → (n buff : ℕ) → System → Option System
print_ulong label n buff = put_line 20 2 label (codes "\n") (ultox n buff 20)

unfoldable pub print_entry : (buff : ℕ) → MmapEntry → System → Option System
print_entry buff e s = do
  s ← print_ulong (codes "addr: ") e.addr buff s
  s ← print_ulong (codes "  length: ") e.len buff s
  print_uint (codes "  type: ") e.type buff s

-- The loop over the map; `none` where the fuel runs out.
unfoldable pub print_entries :
    (buff : ℕ) → MultibootInfo → Entries → (fuel p : ℕ) → System → Option System
print_entries buff info m zero p s = none
print_entries buff info m (suc fuel) p s =
    let rest = print_entry buff (m p) s >>= print_entries buff info m fuel (next_entry m p) in
    if in_map info p then rest else some s

unfoldable pub print_memory : (buff : ℕ) → MultibootInfo → System → Option System
print_memory buff info s = if bit_and (info.flags >> 0) 1 == 0 then some s else do
  s ← print_uint (codes "mem lower: ") (u32 (info.mem_lower * 1024)) buff s
  print_uint (codes "mem upper: ") (u32 (info.mem_upper * 1024)) buff s

unfoldable pub print_map :
    (buff : ℕ) → MultibootInfo → Entries → (fuel : ℕ) → System → Option System
print_map buff info m fuel s =
    if bit_and (info.flags >> 6) 1 == 0
    then some s
    else print_entries buff info m fuel info.mmap_addr s

-- `printMultibootInfo`: `header` and `end` are the addresses of the linker's symbols, `buff` that
-- of the buffer.
unfoldable pub print_multiboot_info :
    (header end buff fuel : ℕ) → MultibootInfo → Entries → System → Option System
print_multiboot_info header end buff fuel info m s = do
  s ← print_uint (codes "flags: ") info.flags buff s
  s ← print_memory buff info s
  s ← print_map buff info m fuel s
  s ← put_line fuel 2 (codes "cmdline: ") (codes "\n") (λ b. (info.cmdline, b)) s
  s ← print_ulong (codes "start: ") header buff s
  print_ulong (codes "end: ") end buff s

-- ===== src/Paging.antt =====
-- src/arch/ia32/cpu/tables.c and include/arch/ia32/cpu/tables.h: page table entries.
-- An entry's `int bits` is its 32-bit pattern; a C `bool` is a Bool, read by `!= 0`.
pub mod Entry
pub mod Directory
pub mod Pages
mod Tests
use test_kernel.Base.{ℕ, ◌+◌, ◌*◌, bit_and, bit_or, Bool, true, false, ◌==◌, not}
use test_kernel.Base.{if◌then◌else◌, ◌<<◌, ◌>>◌, update}

-- `page_table_entry_info_t`: `custom_bits` is a byte, `physical_address` a 32-bit word.
pub record PageTableEntryInfo : Type 0 where
  pub is_presented : Bool
  pub is_writeable : Bool
  pub is_user_accessible : Bool
  pub is_cache_write_though : Bool
  pub is_cashing_disabled : Bool
  pub was_accessed : Bool
  pub was_written : Bool
  pub is_expanded : Bool
  pub is_global : Bool
  pub custom_bits : ℕ
  pub physical_address : ℕ

-- `b ? 1 : 0`
abbrev pub flag : Bool → ℕ
flag b = if b then 1 else 0

unfoldable pub encode_page_table_entry : PageTableEntryInfo → ℕ
encode_page_table_entry info =
    let b = bit_or 0 (flag info.is_presented << 0) in
    let b = bit_or b (flag info.is_writeable << 1) in
    let b = bit_or b (flag info.is_user_accessible << 2) in
    let b = bit_or b (flag info.is_cache_write_though << 3) in
    let b = bit_or b (flag info.is_cashing_disabled << 4) in
    let b = bit_or b (flag info.was_accessed << 5) in
    let b = bit_or b (flag info.was_written << 6) in
    let b = bit_or b (flag info.is_expanded << 7) in
    let b = bit_or b (flag info.is_global << 8) in
    let b = bit_or b (bit_and info.custom_bits 0x07 << 9) in
    bit_or b (bit_and info.physical_address 0xfffff000)

-- `((bits >> k) & 0x1) != 0`
abbrev pub test_bit : ℕ → ℕ → Bool
test_bit bits k = not (bit_and (bits >> k) 0x1 == 0)

unfoldable pub decode_page_table_entry : ℕ → PageTableEntryInfo
decode_page_table_entry bits = record {
  is_presented = test_bit bits 0;
  is_writeable = test_bit bits 1;
  is_user_accessible = test_bit bits 2;
  is_cache_write_though = test_bit bits 3;
  is_cashing_disabled = test_bit bits 4;
  was_accessed = test_bit bits 5;
  was_written = test_bit bits 6;
  is_expanded = test_bit bits 7;
  is_global = test_bit bits 8;
  custom_bits = bit_and (bits >> 9) 0x7;
  physical_address = bit_and bits 0xfffff000;
}

-- A `page_table` is the function from the index to the bits of the entry.
unfoldable pub set_page_table_entry : (ℕ → ℕ) → ℕ → PageTableEntryInfo → ℕ → ℕ
set_page_table_entry table index info = update table index (encode_page_table_entry info)

unfoldable pub get_page_table_entry : (ℕ → ℕ) → ℕ → PageTableEntryInfo
get_page_table_entry table index = decode_page_table_entry (table index)

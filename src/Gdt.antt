-- ===== src/Gdt.antt =====
-- src/arch/ia32/cpu/gdt.c and the descriptor types of include/arch/ia32/cpu/tables.h: segment
-- descriptors and selectors. An `int` argument is its 32-bit pattern.
pub mod Descriptors
pub mod Selectors
mod Tests
use test_kernel.Base.{ℕ, ◌+◌, ◌-◌, ◌*◌, ◌/◌, ◌%◌, ◌^◌, bit_and, bit_or, Bool, true, false}
use test_kernel.Base.{◌==◌, not, if◌then◌else◌, ◌<<◌, ◌>>◌, u8, u16}

-- `descriptor_t`: three bytes and two 16-bit words, and the byte of the granularity.
pub record Descriptor : Type 0 where
  pub limit_low : ℕ
  pub base_low : ℕ
  pub base_middle : ℕ
  pub access : ℕ
  pub granularity : ℕ
  pub base_high : ℕ

-- `raw_descriptor_t`, by its bytes.
pub record RawDescriptor : Type 0 where
  pub b0 : ℕ
  pub b1 : ℕ
  pub b2 : ℕ
  pub b3 : ℕ
  pub b4 : ℕ
  pub b5 : ℕ
  pub b6 : ℕ
  pub b7 : ℕ

unfoldable pub compile_descriptor : (base limit access gran : ℕ) → Descriptor
compile_descriptor base limit access gran = record {
  limit_low = u16 (bit_and limit 0xFFFF);
  base_low = u16 (bit_and base 0xFFFF);
  base_middle = u8 (bit_and (base >> 16) 0xFF);
  access = access;
  granularity = u8 (bit_or (u8 (bit_and (limit >> 16) 0x0F)) (bit_and gran 0xF0));
  base_high = u8 (bit_and (base >> 24) 0xFF);
}

unfoldable pub make_descriptor : Descriptor → RawDescriptor
make_descriptor info = record {
  b0 = u8 (bit_and (info.limit_low >> 0) 0xff);
  b1 = u8 (bit_and (info.limit_low >> 8) 0xff);
  b2 = u8 (bit_and (info.base_low >> 0) 0xff);
  b3 = u8 (bit_and (info.base_low >> 8) 0xff);
  b4 = u8 (bit_and info.base_middle 0xff);
  b5 = info.access;
  b6 = u8 (bit_and info.granularity 0xff);
  b7 = u8 (bit_and info.base_high 0xff);
}

unfoldable pub parse_descriptor : RawDescriptor → Descriptor
parse_descriptor s = record {
  limit_low = u16 (bit_or (u16 (bit_and (s.b1 << 8) 0xff)) (bit_and (s.b0 << 0) 0xff));
  base_low = u16 (bit_or (u16 (bit_and (s.b3 << 8) 0xff)) (bit_and (s.b2 << 0) 0xff));
  base_middle = u8 (bit_and s.b4 0xff);
  access = s.b5;
  granularity = u8 (bit_and s.b6 0xf0);
  base_high = u8 (bit_and s.b7 0xff);
}

-- `selector_info_t`
pub record SelectorInfo : Type 0 where
  pub index : ℕ
  pub use_ldt : Bool
  pub rpl_level : ℕ

unfoldable pub make_selector : ℕ → Bool → ℕ → SelectorInfo
make_selector index use_ldt rpl_level = record {
  index = index;
  use_ldt = use_ldt;
  rpl_level = rpl_level;
}

-- `raw_selector_t` is its 16 bits.
unfoldable pub compile_selector : SelectorInfo → ℕ
compile_selector info =
    let s = u16 (bit_or 0 (bit_and (info.index << 3) 0xfff8)) in
    let s = u16 (bit_or s (bit_and ((if info.use_ldt then 1 else 0) << 2) 0x0040)) in
    u16 (bit_or s (bit_and info.rpl_level 0x0003))

unfoldable pub parse_selector : ℕ → SelectorInfo
parse_selector bits = record {
  index = u16 (bit_and bits 0xfff8 >> 3);
  use_ldt = not (bit_and bits 0x0040 == 0);
  rpl_level = u8 (bit_and bits 0x0003);
}

-- `gdt_segment_t`: the five descriptors, in the order of the structure.
pub record GdtSegment : Type 0 where
  pub null_descr : RawDescriptor
  pub code32_descr : RawDescriptor
  pub data32_descr : RawDescriptor
  pub code16_descr : RawDescriptor
  pub data16_descr : RawDescriptor

-- What `init_gdt` leaves in its globals and its `gdt_ptr_t`; `seg_address` is `&seg`.
pub record GdtState : Type 0 where
  pub seg : GdtSegment
  pub code_selector : ℕ
  pub data_selector : ℕ
  pub limit : ℕ
  pub adr : ℕ

-- The loads of the segment registers are not modelled.
unfoldable pub init_gdt : ℕ → GdtState
unfolding compile_descriptor make_descriptor make_selector compile_selector
init_gdt seg_address = record {
  seg = record {
    null_descr = make_descriptor (compile_descriptor 0 0 0 0);
    code32_descr = make_descriptor (compile_descriptor 0 0xFFFFFFFF 0xFA 0xCF);
    data32_descr = make_descriptor (compile_descriptor 0 0xFFFFFFFF 0xF2 0xCF);
    code16_descr = make_descriptor (compile_descriptor 0 0xFFFFFFFF 0x9A 0xCF);
    data16_descr = make_descriptor (compile_descriptor 0 0xFFFFFFFF 0x92 0xCF);
  };
  code_selector = compile_selector (make_selector 3 false 0);
  data_selector = compile_selector (make_selector 4 false 0);
  limit = 8 * 5 - 1;
  adr = seg_address;
}

-- ===== src/Gdt/Tests.antt =====
-- Descriptors and selectors at concrete inputs: tests of gdt.c, and the theorems at inputs.
use test_kernel.Base.{◌+◌, ◌*◌, ◌/◌, ◌%◌, ◌^◌, ◌≡◌, refl, true, arith}
use test_kernel.Gdt.{
  compile_descriptor, make_descriptor, parse_descriptor, SelectorInfo, compile_selector, init_gdt,
}
use test_kernel.Gdt.Descriptors.{
  segment_base, segment_limit, segment_flags, parse-compile_descriptor,
}
use test_kernel.Gdt.Selectors.{compile_selector_lem}

-- The code segment that selector 3 names: ring 0, and 4 GB in pages of 4 KB.
code_segment :
    ((init_gdt 0x5000).code_selector ≡ 0x18)
    × (segment_limit (init_gdt 0x5000).seg.code16_descr ≡ 0xFFFFF)
    × ((init_gdt 0x5000).seg.code16_descr.b5 ≡ 0x9A)
unfolding init_gdt
code_segment = (refl, refl, refl)

parse-compile_descriptor_example :
    let c = compile_descriptor 0x12345678 0xABCDE 0x9A 0xCF in
    let d = make_descriptor c in
    (segment_base d ≡ 0x12345678)
    × (segment_limit d ≡ 0xABCDE % 2 ^ 20)
    × (d.b5 ≡ 0x9A)
    × (segment_flags d ≡ 0xCF / 16)
    × (parse_descriptor d ≡ record c {
      limit_low = c.limit_low % 256;
      base_low = c.base_low % 256;
      granularity = c.granularity / 16 % 16 * 16;
    })
parse-compile_descriptor_example =
    parse-compile_descriptor 0x12345678 0xABCDE 0x9A 0xCF (omega arith) (omega arith)

abbrev ldt_five : SelectorInfo
ldt_five = record { index = 5; use_ldt = true; rpl_level = 3 }

compile_selector_lem_example : compile_selector ldt_five ≡ 5 % 2 ^ 13 * 8 + 3 % 4
compile_selector_lem_example = compile_selector_lem ldt_five

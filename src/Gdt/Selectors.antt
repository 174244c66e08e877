-- ===== src/Gdt/Selectors.antt =====
-- Segment selectors: `compile_selector` as arithmetic, and what parsing gives back.
use test_kernel.Base.{
  ℕ, ◌+◌, ◌*◌, ◌/◌, ◌%◌, ◌^◌, ◌<◌, ◌≡◌, bit_and, arith, ◌∙◌, ap, u8, u16, ◌<<◌, ◌>>◌, refl, not,
  ◌==◌, Bool, true, false, if◌then◌else◌,
}
use test_kernel.Base.Bits.{zero-bit_or, bit_or-zero, bit_or_above, bit_and_low, bit_and_high}
use test_kernel.Gdt.{SelectorInfo, compile_selector, parse_selector}

bit_and_index : (a : ℕ) → bit_and a 0xfff8 ≡ a / 8 % 2 ^ 13 * 8
bit_and_index a = bit_and_high 3 a 0x1fff ∙ ap (λ (t : ℕ). t * 8) (bit_and_low 13 (a / 8))

bit_and_0x40 : (a : ℕ) → bit_and a 0x40 ≡ a / 64 % 2 * 64
bit_and_0x40 a = bit_and_high 6 a 1 ∙ ap (λ (t : ℕ). t * 64) (bit_and_low 1 (a / 64))

-- `(useLdt ? 1 : 0) << 2` lies below bit 6, so the mask 0x40 clears it.
ldt_dropped : (b : Bool) → bit_and ((if b then 1 else 0) << 2) 0x40 ≡ 0
ldt_dropped true = refl
ldt_dropped false = refl

-- The 16 bits hold the low 13 bits of the index, and the low two bits of the level; the choice
-- between the two tables leaves no trace in them.
pub compile_selector_lem :
    (info : SelectorInfo) → compile_selector info ≡ info.index % 2 ^ 13 * 8 + info.rpl_level % 4
unfolding compile_selector
compile_selector_lem info =
    rw
      (
        ldt_dropped info.use_ldt,
        bit_and_index (info.index * 8),
        zero-bit_or,
        bit_or-zero,
        bit_and_low 2 info.rpl_level,
        in_range,
      )
      (omega (arith, bit_or_above 2 (info.index % 2 ^ 13 * 2) (info.rpl_level % 4) (omega arith)))
  where
    in_range : info.index * 8 / 8 % 2 ^ 13 * 8 % 2 ^ 16 % 2 ^ 16 ≡ info.index % 2 ^ 13 * 2 * 2 ^ 2
    in_range = omega arith

-- Parsing a compiled selector gives back the index and the level, of 13 and two bits; the table
-- flag that it reports is bit 3 of the index.
pub parse-compile_selector :
    (info : SelectorInfo)
    → info.index < 2 ^ 13
    → info.rpl_level < 4
    → parse_selector (compile_selector info)
      ≡ record info { use_ldt = not (info.index / 8 % 2 == 0) }
unfolding parse_selector
parse-compile_selector info hi hr =
    rw (compile_selector_lem info)
      (λ j. record { index = index j; use_ldt = use_ldt j; rpl_level = rpl_level j })
  where
    bits : ℕ
    bits = info.index % 2 ^ 13 * 8 + info.rpl_level % 4

    index : u16 (bit_and bits 0xfff8 >> 3) ≡ info.index
    index = omega (arith, bit_and_index bits)

    use_ldt : not (bit_and bits 0x40 == 0) ≡ not (info.index / 8 % 2 == 0)
    use_ldt = rw (bit_and_0x40 bits) (ground arith)

    rpl_level : u8 (bit_and bits 3) ≡ info.rpl_level
    rpl_level = omega (arith, bit_and_low 2 bits)

-- ===== src/Gdt/Descriptors.antt =====
-- Segment descriptors: what the processor reads from the eight bytes, and what parsing loses.
use test_kernel.Base.{
  ℕ, ◌+◌, ◌*◌, ◌/◌, ◌%◌, ◌^◌, ◌<◌, ◌≡◌, bit_and, bit_or, arith, ◌∙◌, ap, u8, u16, ◌<<◌, ◌>>◌, refl,
}
use test_kernel.Base.Bits.{zero-bit_or, bit_or_field, bit_and_low, bit_and_high}
use test_kernel.Gdt.{
  Descriptor, RawDescriptor, compile_descriptor, make_descriptor, parse_descriptor,
}

-- The fields of a descriptor as the processor reads them from its bytes.
abbrev pub segment_base : RawDescriptor → ℕ
segment_base d = d.b2 + d.b3 * 2 ^ 8 + d.b4 * 2 ^ 16 + d.b7 * 2 ^ 24

abbrev pub segment_limit : RawDescriptor → ℕ
segment_limit d = d.b0 + d.b1 * 2 ^ 8 + d.b6 % 16 * 2 ^ 16

abbrev pub segment_flags : RawDescriptor → ℕ
segment_flags d = d.b6 / 16

bit_and_byte : (a : ℕ) → bit_and a 0xff ≡ a % 256
bit_and_byte = bit_and_low 8

bit_and_upper : (a : ℕ) → bit_and a 0xf0 ≡ a / 16 % 16 * 16
bit_and_upper a = bit_and_high 4 a 15 ∙ ap (λ (t : ℕ). t * 16) (bit_and_low 4 (a / 16))

granularity_sum :
    (l gran : ℕ) → bit_or (u8 (bit_and l 0x0F)) (bit_and gran 0xF0) ≡ l % 16 + gran / 16 % 16 * 16
granularity_sum l gran =
    rw (bit_and_low 4 l, bit_and_upper gran)
      (bit_or_field 4 (l % 16 % 256) (gran / 16 % 16) (omega arith) ∙ omega arith)

word_low : (a : ℕ) → bit_and a 0xFFFF ≡ a % 2 ^ 16
word_low = bit_and_low 16

-- A parsed 16-bit field: the upper byte is masked away after its shift.
low_byte_kept :
    (hi lo : ℕ)
    → lo < 256
    → u16 (bit_or (u16 (bit_and (hi << 8) 0xff)) (bit_and (lo << 0) 0xff)) ≡ lo
low_byte_kept hi lo h =
    rw (bit_and_byte (hi * 256), bit_and_byte (lo * 1), no_high) (omega (arith, zero-bit_or))
  where
    no_high : hi * 256 % 256 % 2 ^ 16 ≡ 0
    no_high = omega arith

-- The compiled bytes hold the base, the low 20 bits of the limit, the access byte and the upper
-- half of the granularity, where the processor reads them.
make-compile_descriptor :
    (base limit access gran : ℕ)
    → base < 2 ^ 32
    → gran < 256
    → let d = make_descriptor (compile_descriptor base limit access gran) in
      (segment_base d ≡ base)
      × (segment_limit d ≡ limit % 2 ^ 20)
      × (d.b5 ≡ access)
      × (segment_flags d ≡ gran / 16)
unfolding make_descriptor compile_descriptor
make-compile_descriptor base limit access gran hb hg =
    simp (bit_and_byte, word_low, granularity_sum) (omega arith, omega arith, refl, omega arith)

-- Parsing gives back the low byte of the base and of the limit, and the upper half of the
-- granularity byte.
parse-make_descriptor :
    (d : Descriptor)
    → d.base_middle < 256
    → d.base_high < 256
    → parse_descriptor (make_descriptor d) ≡ record d {
      limit_low = d.limit_low % 256;
      base_low = d.base_low % 256;
      granularity = d.granularity / 16 % 16 * 16;
    }
unfolding make_descriptor parse_descriptor
parse-make_descriptor d hm hh = λ j. record d {
  limit_low = word d.limit_low j;
  base_low = word d.base_low j;
  granularity = upper j;
  base_middle = middle j;
  base_high = high j;
}
  where
    word :
        (w : ℕ)
        → u16 (
            bit_or
              (u16 (bit_and (u8 (bit_and (w >> 8) 0xff) << 8) 0xff))
              (bit_and (u8 (bit_and (w >> 0) 0xff) << 0) 0xff))
          ≡ w % 256
    word w =
        rw (bit_and_byte (w / 1)) (low_byte_kept _ (w / 1 % 256 % 256) (omega arith) ∙ omega arith)

    upper : u8 (bit_and (u8 (bit_and d.granularity 0xff)) 0xf0) ≡ d.granularity / 16 % 16 * 16
    upper = omega (arith, bit_and_byte, bit_and_upper)

    middle : u8 (bit_and (u8 (bit_and d.base_middle 0xff)) 0xff) ≡ d.base_middle
    middle = omega (arith, bit_and_byte)

    high : u8 (bit_and (u8 (bit_and d.base_high 0xff)) 0xff) ≡ d.base_high
    high = omega (arith, bit_and_byte)

compile_descriptor-bytes :
    (base limit access gran : ℕ)
    → ((compile_descriptor base limit access gran).base_middle < 256)
      × ((compile_descriptor base limit access gran).base_high < 256)
unfolding compile_descriptor
compile_descriptor-bytes base limit access gran =
    (omega (arith, bit_and_byte), omega (arith, bit_and_byte))

-- For a 32-bit base and a byte of granularity, the bytes made of a compiled descriptor hold,
-- where the processor reads them, the base, the low 20 bits of the limit, the access byte and the
-- upper half of the granularity; parsing these bytes gives the compiled descriptor back, but of
-- its two 16-bit fields only the low bytes and of the granularity only the upper half.
pub parse-compile_descriptor :
    (base limit access gran : ℕ)
    → base < 2 ^ 32
    → gran < 256
    → let c = compile_descriptor base limit access gran in
      let d = make_descriptor c in
      (segment_base d ≡ base)
      × (segment_limit d ≡ limit % 2 ^ 20)
      × (d.b5 ≡ access)
      × (segment_flags d ≡ gran / 16)
      × (parse_descriptor d ≡ record c {
        limit_low = c.limit_low % 256;
        base_low = c.base_low % 256;
        granularity = c.granularity / 16 % 16 * 16;
      })
parse-compile_descriptor base limit access gran hb hg =
    let (b, l, a, f) = make-compile_descriptor base limit access gran hb hg in
    let (middle, high) = compile_descriptor-bytes base limit access gran in
    (b, l, a, f, parse-make_descriptor (compile_descriptor base limit access gran) middle high)

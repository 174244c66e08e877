-- ===== src/Paging/Entry.antt =====
-- The encoding of page table entries: it is a sum of fields, and decoding inverts it.
use test_kernel.Base.{ℕ, ◌+◌, ◌*◌, ◌/◌, ◌%◌, ◌^◌, ◌<◌, bit_and, bit_or, Bool, true, false}
use test_kernel.Base.{◌≡◌, refl, ap, ◌==◌, not, ◌∙◌, arith, ◌<<◌}
use test_kernel.Base.Bits.{bit_or_field, bit_and_low, bit_and_high}
use test_kernel.Paging.{
  PageTableEntryInfo, flag, test_bit, encode_page_table_entry, decode_page_table_entry,
}

flag-lt : (b : Bool) → flag b < 2
flag-lt true = omega arith
flag-lt false = omega arith

-- `& 0xfffff000` clears the offset in the page.
pub bit_and_page : (a : ℕ) → bit_and a 0xfffff000 ≡ a / 4096 % 2 ^ 20 * 4096
bit_and_page a = bit_and_high 12 a 0xfffff ∙ ap (λ (t : ℕ). t * 4096) (bit_and_low 20 (a / 4096))

-- The nine flags as a number below 512.
abbrev flags : PageTableEntryInfo → ℕ
flags i =
    flag i.is_presented
    + flag i.is_writeable * 2
    + flag i.is_user_accessible * 4
    + flag i.is_cache_write_though * 8
    + flag i.is_cashing_disabled * 16
    + flag i.was_accessed * 32
    + flag i.was_written * 64
    + flag i.is_expanded * 128
    + flag i.is_global * 256

-- Each `|=` adds a field above those that are there.
or_fields :
    (f0 f1 f2 f3 f4 f5 f6 f7 f8 c p : ℕ)
    → f0 < 2
    → f1 < 2
    → f2 < 2
    → f3 < 2
    → f4 < 2
    → f5 < 2
    → f6 < 2
    → f7 < 2
    → f8 < 2
    → c < 8
    → bit_or
        (bit_or
          (bit_or
            (bit_or
              (bit_or
                (bit_or
                  (bit_or
                    (bit_or (bit_or (bit_or (bit_or 0 (f0 << 0)) (f1 << 1)) (f2 << 2)) (f3 << 3))
                    (f4 << 4))
                  (f5 << 5))
                (f6 << 6))
              (f7 << 7))
            (f8 << 8))
          (c << 9))
        (p << 12)
      ≡ f0
        + f1 * 2
        + f2 * 4
        + f3 * 8
        + f4 * 16
        + f5 * 32
        + f6 * 64
        + f7 * 128
        + f8 * 256
        + c * 512
        + p * 4096
or_fields f0 f1 f2 f3 f4 f5 f6 f7 f8 c p h0 h1 h2 h3 h4 h5 h6 h7 h8 hc =
    rw
      (
        bit_or_field 0 (0) f0 (omega arith),
        bit_or_field 1 (0 + f0 * 2 ^ 0) f1 (omega arith),
        bit_or_field 2 (0 + f0 * 2 ^ 0 + f1 * 2 ^ 1) f2 (omega arith),
        bit_or_field 3 (0 + f0 * 2 ^ 0 + f1 * 2 ^ 1 + f2 * 2 ^ 2) f3 (omega arith),
        bit_or_field 4 (0 + f0 * 2 ^ 0 + f1 * 2 ^ 1 + f2 * 2 ^ 2 + f3 * 2 ^ 3) f4 (omega arith),
        bit_or_field 5 (0 + f0 * 2 ^ 0 + f1 * 2 ^ 1 + f2 * 2 ^ 2 + f3 * 2 ^ 3 + f4 * 2 ^ 4) f5
            (omega arith),
        bit_or_field 6
            (0 + f0 * 2 ^ 0 + f1 * 2 ^ 1 + f2 * 2 ^ 2 + f3 * 2 ^ 3 + f4 * 2 ^ 4 + f5 * 2 ^ 5) f6
            (omega arith),
        bit_or_field 7
            (0
              + f0 * 2 ^ 0
              + f1 * 2 ^ 1
              + f2 * 2 ^ 2
              + f3 * 2 ^ 3
              + f4 * 2 ^ 4
              + f5 * 2 ^ 5
              + f6 * 2 ^ 6)
            f7 (omega arith),
        bit_or_field 8
            (0
              + f0 * 2 ^ 0
              + f1 * 2 ^ 1
              + f2 * 2 ^ 2
              + f3 * 2 ^ 3
              + f4 * 2 ^ 4
              + f5 * 2 ^ 5
              + f6 * 2 ^ 6
              + f7 * 2 ^ 7)
            f8 (omega arith),
        bit_or_field 9
            (0
              + f0 * 2 ^ 0
              + f1 * 2 ^ 1
              + f2 * 2 ^ 2
              + f3 * 2 ^ 3
              + f4 * 2 ^ 4
              + f5 * 2 ^ 5
              + f6 * 2 ^ 6
              + f7 * 2 ^ 7
              + f8 * 2 ^ 8)
            c (omega arith),
        bit_or_field 12
            (0
              + f0 * 2 ^ 0
              + f1 * 2 ^ 1
              + f2 * 2 ^ 2
              + f3 * 2 ^ 3
              + f4 * 2 ^ 4
              + f5 * 2 ^ 5
              + f6 * 2 ^ 6
              + f7 * 2 ^ 7
              + f8 * 2 ^ 8
              + c * 2 ^ 9)
            p (omega arith),
      )
      (omega arith)

encode-sum :
    (i : PageTableEntryInfo)
    → encode_page_table_entry i
      ≡ flags i + i.custom_bits % 8 * 512 + i.physical_address / 4096 % 2 ^ 20 * 4096
unfolding encode_page_table_entry
encode-sum i =
    rw (bit_and_low 3 i.custom_bits, bit_and_page i.physical_address)
      (or_fields _ _ _ _ _ _ _ _ _ (i.custom_bits % 8) (i.physical_address / 4096 % 2 ^ 20)
        (flag-lt _) (flag-lt _) (flag-lt _) (flag-lt _) (flag-lt _) (flag-lt _) (flag-lt _)
        (flag-lt _) (flag-lt _) (omega arith))

pub test_bit-mod : (b k : ℕ) → test_bit b k ≡ not (b / 2 ^ k % 2 == 0)
test_bit-mod b k = rw (bit_and_low 1 (b / 2 ^ k))

-- What an encoded entry keeps: three custom bits, and the page of the address.
abbrev pub normalised : PageTableEntryInfo → PageTableEntryInfo
normalised i = record i {
  custom_bits = i.custom_bits % 8;
  physical_address = i.physical_address / 4096 * 4096;
}

flag_read : (b : Bool) → not (flag b == 0) ≡ b
flag_read true = refl
flag_read false = refl

-- The bit `k` of a sum of fields.
test_bit-flag : (x k : ℕ) (b : Bool) → x / 2 ^ k % 2 ≡ flag b → test_bit x k ≡ b
test_bit-flag x k b h = rw (test_bit-mod, h) (flag_read b)

pub flag-test_bit : (x k : ℕ) → flag (test_bit x k) ≡ x / 2 ^ k % 2
flag-test_bit x k = ground (arith, test_bit-mod x k)

module _ (i : PageTableEntryInfo) where
  abbrev word : ℕ
  word = flags i + i.custom_bits % 8 * 512 + i.physical_address / 4096 % 2 ^ 20 * 4096

  ruleset bounds = (arith, flag-lt)

  -- Decoding an encoded entry gives back every flag, the three custom bits and the page address.
  pub decode-encode :
      i.physical_address < 2 ^ 32
      → decode_page_table_entry (encode_page_table_entry i) ≡ normalised i
  unfolding decode_page_table_entry
  decode-encode h = rw (encode-sum i) (λ j. record {
    is_presented = test_bit-flag word 0 i.is_presented (omega bounds) j;
    is_writeable = test_bit-flag word 1 i.is_writeable (omega bounds) j;
    is_user_accessible = test_bit-flag word 2 i.is_user_accessible (omega bounds) j;
    is_cache_write_though = test_bit-flag word 3 i.is_cache_write_though (omega bounds) j;
    is_cashing_disabled = test_bit-flag word 4 i.is_cashing_disabled (omega bounds) j;
    was_accessed = test_bit-flag word 5 i.was_accessed (omega bounds) j;
    was_written = test_bit-flag word 6 i.was_written (omega bounds) j;
    is_expanded = test_bit-flag word 7 i.is_expanded (omega bounds) j;
    is_global = test_bit-flag word 8 i.is_global (omega bounds) j;
    custom_bits = custom j;
    physical_address = address j;
  })
    where
      custom : bit_and (word / 512) 7 ≡ i.custom_bits % 8
      custom = bit_and_low 3 (word / 512) ∙ omega bounds

      address : bit_and word 0xfffff000 ≡ i.physical_address / 4096 * 4096
      address = bit_and_page word ∙ omega bounds

-- Encoding a decoded word gives back all its 32 bits.
pub encode-decode :
    (bits : ℕ) → bits < 2 ^ 32 → encode_page_table_entry (decode_page_table_entry bits) ≡ bits
unfolding decode_page_table_entry
encode-decode bits h =
    rw (encode-sum, bit_and_low 3 (bits / 512), bit_and_page bits) (omega (arith, flag-test_bit))

-- An entry with three custom bits and the address of a page.
pub record IsNormal (i : PageTableEntryInfo) : Type 0 where
  pub custom_small : i.custom_bits < 8
  pub aligned : i.physical_address % 4096 ≡ 0
  pub word : i.physical_address < 2 ^ 32

pub decode-IsNormal : (bits : ℕ) → IsNormal (decode_page_table_entry bits)
unfolding decode_page_table_entry
decode-IsNormal bits = record {
  custom_small = omega (arith, bit_and_low 3 (bits / 512));
  aligned = omega (arith, bit_and_page bits);
  word = omega (arith, bit_and_page bits);
}

pub decode-encode_normal :
    (i : PageTableEntryInfo) → IsNormal i → decode_page_table_entry (encode_page_table_entry i) ≡ i
decode-encode_normal i h =
    decode-encode i h.word ∙ λ j. record i { custom_bits = custom j; physical_address = address j }
  where
    custom : i.custom_bits % 8 ≡ i.custom_bits
    custom = omega (arith, h.custom_small)

    address : i.physical_address / 4096 * 4096 ≡ i.physical_address
    address = omega (arith, h.aligned)

-- For an information with a 32-bit address, decoding what was encoded gives back every flag, the
-- three custom bits and the address of the page; and encoding what was decoded from a 32-bit
-- entry gives back the entry.
pub encode-decode_inverse :
    (info : PageTableEntryInfo) (bits : ℕ)
    → info.physical_address < 2 ^ 32
    → bits < 2 ^ 32
    → (decode_page_table_entry (encode_page_table_entry info) ≡ normalised info)
      × (encode_page_table_entry (decode_page_table_entry bits) ≡ bits)
encode-decode_inverse info bits small lt = (decode-encode info small, encode-decode bits lt)

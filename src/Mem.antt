-- ===== src/Mem.antt =====
-- src/mem.c: copies and fills of memory, and conversions of numbers to text. Memory is a function
-- of the address; characters are their codes.
pub mod Decimal
pub mod Words
mod Tests
use test_kernel.Base.{
  ℕ, zero, suc, ◌+◌, ◌-◌, ◌*◌, ◌/◌, ◌%◌, ◌^◌, Bool, true, false, ◌&&◌, Option, none, some,
  if◌then◌else◌, ltb, leb, ◌==◌, update, u32, sub32, ◌>>◌,
}
use test_kernel.Base.Loops.{count_up}

abbrev pub Bytes : Type 0
Bytes = ℕ → ℕ

-- `memcpy` for a length that is not negative: its result and the memory.
unfoldable pub memcpy : (to from length : ℕ) → Bytes → ℕ × Bytes
memcpy to from length m =
    (to + length, count_up (λ k n. update n (to + k) (n (from + k))) length 0 m)

unfoldable pub memset : (to value length : ℕ) → Bytes → ℕ × Bytes
memset to value length m = (to + length, count_up (λ k n. update n (to + k) value) length 0 m)

-- The `do` loop of `utoa` and `itoa`: digits downwards from `buff`, in at most `rest` further
-- rounds.
unfoldable pub put_digits : (rest buff u : ℕ) → Bytes → ℕ × Bytes
put_digits zero buff u m = (buff - 1, update m (buff - 1) (48 + u % 10))
put_digits (suc rest) buff u m =
    let n = update m (buff - 1) (48 + u % 10) in
    let more = put_digits rest (buff - 1) (u / 10) n in if u / 10 == 0 then (buff - 1, n) else more

-- `utoa`: it clears the buffer and writes the digits in front of it.
unfoldable pub utoa : (i buff buff_len : ℕ) → Bytes → ℕ × Bytes
utoa i buff buff_len m =
    put_digits (buff_len - 2) buff i (update (memset buff 0 buff_len m).1 buff 0)

-- `itoa`, with the 32-bit pattern of the `int`.
unfoldable pub itoa : (i buff buff_len : ℕ) → Bytes → ℕ × Bytes
itoa i buff buff_len m =
    let minus = leb 2147483648 i in
    let u = if minus then sub32 0 i else i in
    let end = buff + buff_len - 1 in
    let r = put_digits (buff_len - 2) end u (update (memset buff 0 buff_len m).1 end 0) in
    if minus then (r.0 - 1, update r.1 (r.0 - 1) 45) else r

-- The loop of `atoi`, whose parameter `n` is overwritten at once.
unfoldable pub atoi_loop : (fuel s n : ℕ) → Bytes → Option ℕ
atoi_loop zero s n m = none
atoi_loop (suc fuel) s n m =
    let rest = atoi_loop fuel (s + 1) (sub32 (u32 (n * 10 + m s)) 48) m in
    if leb 48 (m s) && leb (m s) 57 then rest else some n

unfoldable pub atoi : (fuel s : ℕ) → Bytes → Option ℕ
atoi fuel s m = atoi_loop fuel s 0 m

-- `_hexMap`
abbrev pub hex_map : ℕ → ℕ
hex_map q = if ltb q 10 then 48 + q else 87 + q

-- The loops of `utox` and `ultox`: at most `digits` characters, from the highest one on.
unfoldable pub put_hex : (digits n buff buff_length : ℕ) → Bytes → Bytes
put_hex digits n buff buff_length m =
    count_up
      (λ j b.
        if ltb j buff_length
        then update b (buff + j) (hex_map ((n >> (4 * (digits - 1 - j))) % 16))
        else b)
      digits 0 m

unfoldable pub utox : (n buff buff_length : ℕ) → Bytes → ℕ × Bytes
utox n buff buff_length m = (buff, put_hex 8 n buff buff_length (memset buff 0 buff_length m).1)

unfoldable pub ultox : (n buff buff_length : ℕ) → Bytes → ℕ × Bytes
ultox n buff buff_length m = (buff, put_hex 16 n buff buff_length (memset buff 0 buff_length m).1)

-- ===== src/Mem/Tests.antt =====
-- Conversions of concrete numbers.
use test_kernel.Base.{◌+◌, ◌-◌, ◌<◌, ◌≤◌, ◌≡◌, refl, some, arith}
use test_kernel.Mem.{Bytes, utoa, itoa, atoi, utox, put_hex, memset, put_digits}
use test_kernel.Base.Loops.{count_up}
use test_kernel.Mem.Decimal.{KeptOutside, decimal_strings}

abbrev blank : Bytes
blank x = 7

decimal_strings_example :
    (atoi 11 (itoa 4096 100 12 blank).0 (itoa 4096 100 12 blank).1 ≡ some 4096)
    × (100 ≤ (itoa 4096 100 12 blank).0)
    × ((itoa 4096 100 12 blank).0 < 100 + 12 - 1)
    × KeptOutside 100 12 blank (itoa 4096 100 12 blank).1
    × (atoi 11 (utoa 65 100 12 blank).0 (utoa 65 100 12 blank).1 ≡ some 65)
    × ((utoa 65 100 12 blank).0 < 100)
    × (100 ≤ (utoa 65 100 12 blank).0 + 10)
    × ((utoa 65 100 12 blank).1 100 ≡ 0)
decimal_strings_example =
    decimal_strings 4096 65 100 12 11 blank (omega arith) (omega arith) (omega arith) (omega arith)
      (omega arith)

-- The minus sign of -1 stands in front of its digit.
minus_one :
    ((itoa 0xffffffff 100 12 blank).1 109 ≡ 45) × ((itoa 0xffffffff 100 12 blank).1 110 ≡ 49)
unfolding itoa put_digits memset
minus_one = (refl, refl)

-- The last two digits of 0x1234abcd, in lower case.
hex_digits :
    ((utox 0x1234abcd 100 9 blank).1 106 ≡ 99) × ((utox 0x1234abcd 100 9 blank).1 107 ≡ 100)
unfolding utox put_hex memset count_up
hex_digits = (refl, refl)

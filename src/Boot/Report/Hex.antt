-- ===== src/Boot/Report/Hex.antt =====
-- TestKernel1/src/mem.c: the strings that `utox` and `ultox` make.
use test_kernel.Base.{
  ℕ, zero, suc, ◌+◌, ◌-◌, ◌*◌, ◌/◌, ◌%◌, ◌^◌, ◌<◌, ◌≤◌, ◌≡◌, ◌⊎◌, inr, refl, ap, ◌∙◌, arith, true,
  some, List, [], ◌∷◌, ltb, ◌>>◌, update, update-ne, update_cases,
}
use test_kernel.Base.Loops.{count_up_inv}
use test_kernel.Boot.Console.{string_at, string_at-end, string_at-more}
use test_kernel.Mem.{Bytes, memset, hex_map, put_hex, utox, ultox}
use test_kernel.Mem.Decimal.{KeptOutside, memset-outside}

-- The reference: the lowest k hexadecimal digits of n, from the highest one on.
abbrev pub hex_string : (k n : ℕ) → List ℕ
hex_string zero n = []
hex_string (suc k) n = let rest = hex_string k n in hex_map (n / 2 ^ (4 * k) % 16) ∷ rest

memset-inside : (to len k : ℕ) (m : Bytes) → k < len → (memset to 0 len m).1 (to + k) ≡ 0
unfolding memset
memset-inside to len k m lt =
    count_up_inv (λ i n. (j : ℕ) → j < i → n (to + j) ≡ 0) (λ i n. update n (to + i) 0) len
      (λ i n below h j less.
        update_cases (λ v. v ≡ 0) n (to + i) 0 (to + j) (λ _. refl) (λ ne. h j (omega (arith, ne))))
      len 0 m (omega arith) (λ j less. absurd (omega arith)) k lt

-- The first i characters have been written.
record Digits (digits n buff i : ℕ) (m r : Bytes) : Type 0 where
  digit : (j : ℕ) → j < i → r (buff + j) ≡ hex_map ((n >> (4 * (digits - 1 - j))) % 16)
  rest : (x : ℕ) → (x < buff) ⊎ (buff + i ≤ x) → r x ≡ m x

put_hex-Digits :
    (digits n buff len : ℕ) (m : Bytes)
    → digits ≤ len
    → Digits digits n buff digits m (put_hex digits n buff len m)
unfolding put_hex
put_hex-Digits digits n buff len m room =
    count_up_inv (λ i b. Digits digits n buff i m b) _ digits
      (λ i b lt h.
        let fits : ltb i len ≡ true = ground arith in
        rw fits (record {
          digit = λ j less.
              update_cases (λ v. v ≡ hex_map ((n >> (4 * (digits - 1 - j))) % 16)) b (buff + i) _
                (buff + j)
                (λ e.
                  let same : i ≡ j = omega (arith, e) in
                  ap (λ k. hex_map ((n >> (4 * (digits - 1 - k))) % 16)) same)
                (λ ne. h.digit j (omega (arith, ne)));
          rest = λ x out.
              update-ne b (buff + i) x _ (ground (arith, out)) ∙ h.rest x (ground (arith, out));
        }))
      digits 0 m (omega arith)
      (record { digit = λ j less. absurd (omega arith); rest = λ x out. refl })

-- From the character on that k others follow, the string is that of the lowest k + 1 digits.
Digits-string_at :
    (digits n buff : ℕ) (m r : Bytes)
    → Digits digits n buff digits m r
    → r (buff + digits) ≡ 0
    → (k i fuel : ℕ) → i + k ≡ digits
    → k < fuel
    → string_at fuel (buff + i) r ≡ some (hex_string k n)
Digits-string_at digits n buff m r w null k i zero at enough = absurd (omega arith)
Digits-string_at digits n buff m r w null zero i (suc fuel) at enough =
    let here : buff + i ≡ buff + digits = omega arith in
    string_at-end fuel (buff + i) r (ap r here ∙ null)
Digits-string_at digits n buff m r w null (suc k) i (suc fuel) at enough =
    let index : digits - 1 - i ≡ k = omega arith in
    let digit : r (buff + i) ≡ hex_map (n / 2 ^ (4 * k) % 16) =
      w.digit i (omega arith) ∙ ap (λ j. hex_map ((n >> (4 * j)) % 16)) index in
    let next : buff + i + 1 ≡ buff + (i + 1) = omega arith in
    string_at-more fuel (buff + i) (hex_string k n) r (ground (arith, digit)) (
      ap (λ p. string_at fuel p r) next
      ∙ Digits-string_at digits n buff m r w null k (i + 1) fuel (omega arith) (omega arith))
    ∙ ap (λ c. some (c ∷ hex_string k n)) digit

put_hex-string_at :
    (digits n buff : ℕ) (m : Bytes)
    → digits < 20
    → (string_at 20 buff (put_hex digits n buff 20 (memset buff 0 20 m).1)
        ≡ some (hex_string digits n))
      × KeptOutside buff 20 m (put_hex digits n buff 20 (memset buff 0 20 m).1)
put_hex-string_at digits n buff m room =
    let cleared : Bytes = (memset buff 0 20 m).1 in
    let w = put_hex-Digits digits n buff 20 cleared (omega arith) in
    let first : buff ≡ buff + 0 = omega arith in
    (
      ap (λ p. string_at 20 p (put_hex digits n buff 20 cleared)) first
          ∙ Digits-string_at digits n buff cleared _ w
              (w.rest (buff + digits) (inr (omega arith))
                ∙ memset-inside buff 20 digits m (omega arith))
              digits 0 20 (omega arith) (omega arith),
      λ x out. w.rest x (ground (arith, out)) ∙ memset-outside buff 0 20 x m out,
    )

pub utox-string_at :
    (n buff : ℕ) (m : Bytes)
    → (string_at 20 (utox n buff 20 m).0 (utox n buff 20 m).1 ≡ some (hex_string 8 n))
      × KeptOutside buff 20 m (utox n buff 20 m).1
unfolding utox
utox-string_at n buff m = put_hex-string_at 8 n buff m (omega arith)

pub ultox-string_at :
    (n buff : ℕ) (m : Bytes)
    → (string_at 20 (ultox n buff 20 m).0 (ultox n buff 20 m).1 ≡ some (hex_string 16 n))
      × KeptOutside buff 20 m (ultox n buff 20 m).1
unfolding ultox
ultox-string_at n buff m = put_hex-string_at 16 n buff m (omega arith)

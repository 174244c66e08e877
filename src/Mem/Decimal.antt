-- ===== src/Mem/Decimal.antt =====
-- src/mem.c: `atoi` reads what `itoa` and `utoa` write, and where they write it.
use test_kernel.Base.{
  ℕ, zero, suc, ◌+◌, ◌-◌, ◌*◌, ◌/◌, ◌%◌, ◌^◌, ◌<◌, ◌≤◌, ◌≡◌, refl, sym, ap, ◌∙◌, subst, true, false,
  ◌&&◌, some, arith, leb, ◌==◌, update, update-same, update-ne, u32, sub32, Bool-cases, inl, inr,
  ◌⊎◌,
}
use native.Mathlib.Nat.{pow-suc}
use test_kernel.Base.Loops.{count_up_inv}
use test_kernel.Mem.{Bytes, memset, put_digits, utoa, itoa, atoi_loop, atoi}

atoi_loop-digit :
    (fuel s n d : ℕ) (m : Bytes)
    → m s ≡ 48 + d
    → d < 10
    → n * 10 + d < 4294967296
    → atoi_loop (suc fuel) s n m ≡ atoi_loop fuel (s + 1) (n * 10 + d) m
unfolding atoi_loop
atoi_loop-digit fuel s n d m e lt small =
    let is_digit : (leb 48 (m s) && leb (m s) 57) ≡ true = ground arith in
    let value : sub32 (u32 (n * 10 + m s)) 48 ≡ n * 10 + d = rw e (omega arith) in
    rw (atoi_loop, is_digit, value) refl

atoi_loop-end : (fuel s n : ℕ) (m : Bytes) → m s ≡ 0 → atoi_loop (suc fuel) s n m ≡ some n
unfolding atoi_loop
atoi_loop-end fuel s n m e = rw (atoi_loop, e) refl

-- r is a string of k digits in front of `buff` that reads as u, and the rest of the memory is m.
pub record Written (k buff u : ℕ) (m : Bytes) (r : ℕ × Bytes) : Type 0 where
  pub start : r.0 + k ≡ buff
  pub some_digit : 1 ≤ k
  pub behind : (x : ℕ) → buff ≤ x → r.1 x ≡ m x
  pub before : (x : ℕ) → x < r.0 → r.1 x ≡ m x
  pub reads : (fuel : ℕ) → atoi_loop (fuel + k) r.0 0 r.1 ≡ atoi_loop fuel buff u r.1

-- The lowest digit of u, behind the others.
last_digit :
    (fuel b u : ℕ) (m : Bytes)
    → m (b - 1) ≡ 48 + u % 10
    → u < 4294967296
    → 1 ≤ b
    → atoi_loop (fuel + 1) (b - 1) (u / 10) m ≡ atoi_loop fuel b u m
last_digit fuel b u m e lt pos =
    let next : fuel + 1 ≡ suc fuel = omega arith in
    let value : u / 10 * 10 + u % 10 ≡ u = omega arith in
    let after : b - 1 + 1 ≡ b = omega arith in
    ap (λ f. atoi_loop f (b - 1) (u / 10) m) next
    ∙ atoi_loop-digit fuel (b - 1) (u / 10) (u % 10) m e (omega arith) (omega arith)
    ∙ ap (λ v. atoi_loop fuel (b - 1 + 1) v m) value
    ∙ ap (λ a. atoi_loop fuel a u m) after

one_digit :
    (b u : ℕ) (m : Bytes) → u < 10 → 1 ≤ b → Written 1 b u m (b - 1, update m (b - 1) (48 + u % 10))
one_digit b u m lt pos = record {
  start = omega arith;
  some_digit = omega arith;
  behind = λ x le. update-ne m (b - 1) x _ (omega arith);
  before = λ x le. update-ne m (b - 1) x _ (omega arith);
  reads = λ fuel.
      let zero_above : 0 ≡ u / 10 = omega arith in
      ap (λ v. atoi_loop (fuel + 1) (b - 1) v (update m (b - 1) (48 + u % 10))) zero_above
      ∙ last_digit fuel b u _ (update-same m (b - 1) _) (omega arith) pos;
}

pub put_digits-stops :
    (rest b u : ℕ) (m : Bytes)
    → u < 10
    → put_digits rest b u m ≡ (b - 1, update m (b - 1) (48 + u % 10))
unfolding put_digits
put_digits-stops zero b u m lt = refl
put_digits-stops (suc rest) b u m lt =
    let over : (u / 10 == 0) ≡ true = ground arith in rw (put_digits, over) refl

put_digits-goes_on :
    (rest b u : ℕ) (m : Bytes)
    → 10 ≤ u
    → put_digits (suc rest) b u m
      ≡ put_digits rest (b - 1) (u / 10) (update m (b - 1) (48 + u % 10))
unfolding put_digits
put_digits-goes_on rest b u m ge =
    let more : (u / 10 == 0) ≡ false = ground arith in rw (put_digits, more) refl

more_digits :
    (k b u : ℕ) (m : Bytes) (r : ℕ × Bytes)
    → u < 4294967296
    → 1 ≤ b
    → Written k (b - 1) (u / 10) (update m (b - 1) (48 + u % 10)) r
    → Written (k + 1) b u m r
more_digits k b u m r lt pos w = record {
  start = omega (arith, w.start);
  some_digit = omega arith;
  behind = λ x le. w.behind x (omega arith) ∙ update-ne m (b - 1) x _ (omega arith);
  before = λ x le. w.before x le ∙ update-ne m (b - 1) x _ (omega (arith, w.start));
  reads = λ fuel.
      let split : fuel + (k + 1) ≡ fuel + 1 + k = omega arith in
      ap (λ f. atoi_loop f r.0 0 r.1) split
      ∙ w.reads (fuel + 1)
      ∙ last_digit fuel b u r.1 (w.behind (b - 1) (omega arith) ∙ update-same m (b - 1) _) lt pos;
}

tenth_below : (d u : ℕ) → u < 10 ^ (suc d + 1) → u / 10 < 10 ^ (d + 1)
tenth_below d u h =
    let index : suc d + 1 ≡ suc (d + 1) = omega arith in
    let step : 10 ^ (suc d + 1) ≡ 10 ^ (d + 1) * 10 = ap (λ k. 10 ^ k) index ∙ pow-suc 10 (d + 1) in
    omega (arith, step, h)

-- A number below 10^(d + 1) is written in at most d + 1 digits, where there is room for them.
put_digits-Written :
    (rest d b u : ℕ) (m : Bytes)
    → u < 10 ^ (d + 1)
    → u < 4294967296
    → d ≤ rest
    → d + 1 ≤ b
    → (k : ℕ) × (k ≤ d + 1) × Written k b u m (put_digits rest b u m)
put_digits-Written rest zero b u m small lt room fits =
    let below : u < 10 = omega (arith, small) in
    (
      1,
      omega arith,
      subst (Written 1 b u m) (sym (put_digits-stops rest b u m below))
          (one_digit b u m below (omega arith)),
    )
put_digits-Written zero (suc d) b u m small lt room fits = absurd (omega arith)
put_digits-Written (suc rest) (suc d) b u m small lt room fits = elim (Bool-cases (leb 10 u)) [
  | inl e ↦
      let (k, le, w) =
        put_digits-Written rest d (b - 1) (u / 10) (update m (b - 1) (48 + u % 10))
          (tenth_below d u small) (omega arith) (omega arith) (omega arith) in
      (
        k + 1,
        omega (arith, le),
        subst (Written (k + 1) b u m) (sym (put_digits-goes_on rest b u m (ground arith)))
            (more_digits k b u m _ lt (omega arith) w),
      )
  | inr e ↦ (
    1,
    omega arith,
    subst (Written 1 b u m) (sym (put_digits-stops (suc rest) b u m (ground arith)))
        (one_digit b u m (ground arith) (omega arith)),
  )
]

-- `memset` changes no byte outside of its range.
pub memset-outside :
    (to value len x : ℕ) (m : Bytes) → (x < to) ⊎ (to + len ≤ x) → (memset to value len m).1 x ≡ m x
unfolding memset
memset-outside to value len x m out =
    count_up_inv (λ k n. n x ≡ m x) (λ k n. update n (to + k) value) len
      (λ k n lt h. update-ne n (to + k) x value (ground (arith, out)) ∙ h) len 0 m (omega arith)
      refl

-- Outside of the `len` bytes from `buff` on, the memory n is m.
abbrev pub KeptOutside : (buff len : ℕ) (m n : Bytes) → Type 0
KeptOutside buff len m n = (x : ℕ) → (x < buff) ⊎ (buff + len ≤ x) → n x ≡ m x

-- A string of at most 10 digits in front of a null reads as its number.
Written-atoi :
    (fuel k b u : ℕ) (m : Bytes) (r : ℕ × Bytes)
    → Written k b u m r
    → k ≤ 10
    → 10 < fuel
    → m b ≡ 0
    → atoi fuel r.0 r.1 ≡ some u
unfolding atoi
Written-atoi fuel k b u m r w le more nul =
    let split : fuel ≡ suc (fuel - k - 1) + k = omega arith in
    ap (λ f. atoi_loop f r.0 0 r.1) split
    ∙ w.reads (suc (fuel - k - 1))
    ∙ atoi_loop-end (fuel - k - 1) b u r.1 (w.behind b (omega arith) ∙ nul)

-- For i < 2^32 and a buffer of 12 or more bytes that starts at address 10 or later, `utoa`
-- returns a string that `atoi` reads as i; it starts and ends in front of the buffer, whose first
-- byte is the terminating null.
utoa-before_buffer :
    (i buff len fuel : ℕ) (m : Bytes)
    → i < 4294967296
    → 12 ≤ len
    → 10 ≤ buff
    → 10 < fuel
    → (atoi fuel (utoa i buff len m).0 (utoa i buff len m).1 ≡ some i)
      × ((utoa i buff len m).0 < buff)
      × (buff ≤ (utoa i buff len m).0 + 10)
      × ((utoa i buff len m).1 buff ≡ 0)
unfolding utoa
utoa-before_buffer i buff len fuel m lt room high more =
    let cleared = update (memset buff 0 len m).1 buff 0 in
    let (k, le, w) =
      put_digits-Written (len - 2) 9 buff i cleared (omega arith) lt (omega arith) (omega arith) in
    (
      Written-atoi fuel k buff i cleared _ w le more (update-same (memset buff 0 len m).1 buff 0),
      omega (arith, w.start, w.some_digit),
      omega (arith, w.start, le),
      w.behind buff (omega arith) ∙ update-same (memset buff 0 len m).1 buff 0,
    )

pub itoa-plain :
    (i buff len : ℕ) (m : Bytes)
    → i < 2147483648
    → itoa i buff len m
      ≡ put_digits (len - 2) (buff + len - 1) i (update (memset buff 0 len m).1 (buff + len - 1) 0)
unfolding itoa
itoa-plain i buff len m lt =
    let plain : leb 2147483648 i ≡ false = ground arith in rw (itoa, plain) refl

-- For 0 ≤ i < 2^31 and a buffer of 12 or more bytes, `atoi` reads the string that `itoa` returns as
-- i; the string starts in the buffer, in front of its last byte, and no byte outside of the buffer
-- changes.
pub atoi-itoa :
    (i buff len fuel : ℕ) (m : Bytes)
    → i < 2147483648
    → 12 ≤ len
    → 10 < fuel
    → (atoi fuel (itoa i buff len m).0 (itoa i buff len m).1 ≡ some i)
      × (buff ≤ (itoa i buff len m).0)
      × ((itoa i buff len m).0 < buff + len - 1)
      × KeptOutside buff len m (itoa i buff len m).1
atoi-itoa i buff len fuel m lt room more =
    subst
      (λ (r : ℕ × Bytes).
        (atoi fuel r.0 r.1 ≡ some i)
        × (buff ≤ r.0)
        × (r.0 < buff + len - 1)
        × KeptOutside buff len m r.1)
      (sym (itoa-plain i buff len m lt))
      (
        Written-atoi fuel k end i cleared _ w le more (update-same (memset buff 0 len m).1 end 0),
        omega (arith, w.start, le),
        omega (arith, w.start, w.some_digit),
        λ x out. elim out [
          | inl low ↦
              w.before x (omega (arith, w.start, le))
              ∙ update-ne (memset buff 0 len m).1 end x 0 (omega arith)
              ∙ memset-outside buff 0 len x m (inl low)
          | inr high ↦
              w.behind x (omega arith)
              ∙ update-ne (memset buff 0 len m).1 end x 0 (omega arith)
              ∙ memset-outside buff 0 len x m (inr high)
        ],
      )
  where
    end : ℕ
    end = buff + len - 1

    cleared : Bytes
    cleared = update (memset buff 0 len m).1 end 0

    digits : (k : ℕ) × (k ≤ 10) × Written k end i cleared (put_digits (len - 2) end i cleared)
    digits =
        put_digits-Written (len - 2) 9 end i cleared (omega arith) (omega arith) (omega arith)
          (omega arith)

    k : ℕ
    k = digits.0

    le : k ≤ 10
    le = digits.1

    w : Written k end i cleared (put_digits (len - 2) end i cleared)
    w = digits.2

-- For 0 ≤ i < 2^31, j < 2^32 and a buffer of 12 or more bytes that starts at address 10 or later:
-- `atoi` reads the string that `itoa` returns as i; that string starts in the buffer, in front of
-- its last byte, and no byte outside of the buffer changes. `atoi` reads the string that `utoa`
-- returns as j; that string starts and ends in front of the buffer, whose first byte is the
-- terminating null.
pub decimal_strings :
    (i j buff len fuel : ℕ) (m : Bytes)
    → i < 2147483648
    → j < 4294967296
    → 12 ≤ len
    → 10 ≤ buff
    → 10 < fuel
    → (atoi fuel (itoa i buff len m).0 (itoa i buff len m).1 ≡ some i)
      × (buff ≤ (itoa i buff len m).0)
      × ((itoa i buff len m).0 < buff + len - 1)
      × KeptOutside buff len m (itoa i buff len m).1
      × (atoi fuel (utoa j buff len m).0 (utoa j buff len m).1 ≡ some j)
      × ((utoa j buff len m).0 < buff)
      × (buff ≤ (utoa j buff len m).0 + 10)
      × ((utoa j buff len m).1 buff ≡ 0)
decimal_strings i j buff len fuel m small word room high more =
    let (read, low, up, kept) = atoi-itoa i buff len fuel m small room more in
    let (again, before, near, nul) = utoa-before_buffer j buff len fuel m word room high more in
    (read, low, up, kept, again, before, near, nul)

-- ===== src/Base/Bits.antt =====
-- `|` and `&` of C on words, as arithmetic: fields that do not overlap, and masks.
use Prim.Native.Nat.{
  ℕ, zero, suc, ◌+◌, ◌-◌, ◌*◌, ◌/◌, ◌%◌, ◌^◌, ◌≤◌, ◌<◌, min, max, digits, bit_and, bit_or,
  bit_and-bitwise, bit_or-bitwise,
}
use mathlib.Core.Path.{◌≡◌, refl, ap}
use native.Mathlib.Nat.{pow-suc, one-le-pow, div-div-eq-div-mul, mod-add-div', div-one, mul-one}
use native.Mathlib.Omega.{arith}

-- The library's digit recursion runs on fuel; any fuel from the first argument on is enough.
module _ (z : ℕ → ℕ) (f : ℕ → ℕ → ℕ) where
  fuel_free : (n m a b : ℕ) → a ≤ n → a ≤ m → digits z f n a b ≡ digits z f m a b
  fuel_free zero zero a b p q = refl
  fuel_free zero (suc m) zero b p q = refl
  fuel_free zero (suc m) (suc a) b p q = absurd (omega arith)
  fuel_free (suc n) zero zero b p q = refl
  fuel_free (suc n) zero (suc a) b p q = absurd (omega arith)
  fuel_free (suc n) (suc m) zero b p q = refl
  fuel_free (suc n) (suc m) (suc a) b p q =
      omega (arith, fuel_free n m (suc a / 2) (b / 2) (omega arith) (omega arith))

pub zero-bit_or : (b : ℕ) → bit_or 0 b ≡ b
zero-bit_or b = bit_or-bitwise 0 b

zero-bit_and : (b : ℕ) → bit_and 0 b ≡ 0
zero-bit_and b = bit_and-bitwise 0 b

-- The last binary digit, and the rest.
bit_or_last : (a b : ℕ) → bit_or a b ≡ 2 * bit_or (a / 2) (b / 2) + max (a % 2) (b % 2)
bit_or_last zero b = omega (arith, zero-bit_or b, zero-bit_or (b / 2))
bit_or_last (suc a) b = omega (
  arith,
  bit_or-bitwise (suc a) b,
  bit_or-bitwise (suc a / 2) (b / 2),
  fuel_free (λ y. y) max a (suc a / 2) (suc a / 2) (b / 2) (omega arith) (omega arith),
)

bit_and_last : (a b : ℕ) → bit_and a b ≡ 2 * bit_and (a / 2) (b / 2) + min (a % 2) (b % 2)
bit_and_last zero b = omega (arith, zero-bit_and b, zero-bit_and (b / 2))
bit_and_last (suc a) b = omega (
  arith,
  bit_and-bitwise (suc a) b,
  bit_and-bitwise (suc a / 2) (b / 2),
  fuel_free (λ y. 0) min a (suc a / 2) (suc a / 2) (b / 2) (omega arith) (omega arith),
)

shift_suc : (q k : ℕ) → q * 2 ^ suc k ≡ 2 * (q * 2 ^ k)
shift_suc q k = omega (arith, ap (λ (t : ℕ). q * t) (pow-suc 2 k))

-- `low | (q << k)` is a sum where `low` fits `k` bits.
pub bit_or_field : (k low q : ℕ) → low < 2 ^ k → bit_or low (q * 2 ^ k) ≡ low + q * 2 ^ k
bit_or_field zero zero q h = omega (arith, zero-bit_or (q * 2 ^ 0))
bit_or_field zero (suc low) q h = absurd (omega arith)
bit_or_field (suc k) low q h = ground (
  arith,
  bit_or_last low (q * 2 ^ suc k),
  shift_suc q k,
  pow-suc 2 k,
  bit_or_field k (low / 2) q (omega (arith, pow-suc 2 k)),
)

bit_and-zero_below : (n a : ℕ) → a ≤ n → bit_and a 0 ≡ 0
bit_and-zero_below n zero h = refl
bit_and-zero_below zero (suc a) h = absurd (omega arith)
bit_and-zero_below (suc n) (suc a) h =
    omega (arith, bit_and_last (suc a) 0, bit_and-zero_below n (suc a / 2) (omega arith))

pub bit_and-zero : (a : ℕ) → bit_and a 0 ≡ 0
bit_and-zero a = bit_and-zero_below a a (omega arith)

bit_or-zero_below : (n a : ℕ) → a ≤ n → bit_or a 0 ≡ a
bit_or-zero_below n zero h = refl
bit_or-zero_below zero (suc a) h = absurd (omega arith)
bit_or-zero_below (suc n) (suc a) h =
    omega (arith, bit_or_last (suc a) 0, bit_or-zero_below n (suc a / 2) (omega arith))

pub bit_or-zero : (a : ℕ) → bit_or a 0 ≡ a
bit_or-zero a = bit_or-zero_below a a (omega arith)

bit_or_comm_below : (n a b : ℕ) → a ≤ n → bit_or a b ≡ bit_or b a
bit_or_comm_below n zero b h = omega (arith, zero-bit_or b, bit_or-zero b)
bit_or_comm_below zero (suc a) b h = absurd (omega arith)
bit_or_comm_below (suc n) (suc a) b h = omega (
  arith,
  bit_or_last (suc a) b,
  bit_or_last b (suc a),
  bit_or_comm_below n (suc a / 2) (b / 2) (omega arith),
)

-- `(q << k) | low` is the same sum.
pub bit_or_above : (k q low : ℕ) → low < 2 ^ k → bit_or (q * 2 ^ k) low ≡ q * 2 ^ k + low
bit_or_above k q low h =
    omega
      (arith, bit_or_comm_below (q * 2 ^ k) (q * 2 ^ k) low (omega arith), bit_or_field k low q h)

mod_double : (a d : ℕ) → a % (2 * d) ≡ 2 * (a / 2 % d) + a % 2
mod_double a d = omega (
  arith,
  ap (λ (t : ℕ). t * d) (div-div-eq-div-mul a 2 d),
  mod-add-div' a (2 * d),
  mod-add-div' (a / 2) d,
)

-- `& (2 ^ k - 1)` keeps the low `k` bits.
pub bit_and_low : (k a : ℕ) → bit_and a (2 ^ k - 1) ≡ a % 2 ^ k
bit_and_low zero a = omega (arith, bit_and-zero a)
bit_and_low (suc k) a = ground (
  arith,
  bit_and_last a (2 ^ suc k - 1),
  pow-suc 2 k,
  one-le-pow k 2,
  mod_double a (2 ^ k),
  bit_and_low k (a / 2),
)

-- `& (m << k)` drops the low `k` bits, then masks by `m`.
pub bit_and_high : (k a m : ℕ) → bit_and a (m * 2 ^ k) ≡ bit_and (a / 2 ^ k) m * 2 ^ k
bit_and_high zero a m = simp (mul-one, div-one)
bit_and_high (suc k) a m = ground (
  arith,
  bit_and_last a (m * 2 ^ suc k),
  shift_suc m k,
  pow-suc 2 k,
  shift_suc (bit_and (a / 2 ^ suc k) m) k,
  div-div-eq-div-mul a 2 (2 ^ k),
  bit_and_high k (a / 2) m,
)

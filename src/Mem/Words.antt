-- ===== src/Mem/Words.antt =====
-- 32-bit words in memory, with the lowest byte first, and what `memcpy` copies.
use test_kernel.Base.{
  ℕ, ◌+◌, ◌*◌, ◌/◌, ◌%◌, ◌^◌, ◌<◌, ◌≤◌, ◌≡◌, ◌⊎◌, refl, sym, ap, ◌∙◌, arith, update, update-ne,
  update_cases,
}
use test_kernel.Base.Loops.{count_up_inv}
use test_kernel.Mem.{Bytes, memcpy}

-- `*(u32*)a` and `*(u32*)a = v`.
unfoldable pub load32 : Bytes → ℕ → ℕ
load32 m a = m a + m (a + 1) * 0x100 + m (a + 2) * 0x10000 + m (a + 3) * 0x1000000

unfoldable pub store32 : ℕ → ℕ → Bytes → Bytes
store32 a v m =
    update
      (update (update (update m a (v % 0x100)) (a + 1) (v / 0x100 % 0x100)) (a + 2)
        (v / 0x10000 % 0x100))
      (a + 3) (v / 0x1000000 % 0x100)

pub load32-store32 : (a v : ℕ) (m : Bytes) → v < 2 ^ 32 → load32 (store32 a v m) a ≡ v
unfolding load32 store32
load32-store32 a v m lt = ground arith

pub store32-outside : (a v x : ℕ) (m : Bytes) → (x < a) ⊎ (a + 4 ≤ x) → store32 a v m x ≡ m x
unfolding store32
store32-outside a v x m out = ground arith

-- A word is that of another memory with the same four bytes.
pub load32-same :
    (a : ℕ) (m n : Bytes) → ((x : ℕ) → a ≤ x → x < a + 4 → m x ≡ n x) → load32 m a ≡ load32 n a
unfolding load32
load32-same a m n same = omega (
  arith,
  same a (omega arith) (omega arith),
  same (a + 1) (omega arith) (omega arith),
  same (a + 2) (omega arith) (omega arith),
  same (a + 3) (omega arith) (omega arith),
)

-- A word that has been copied, byte by byte, from b in n to a in m.
pub load32-copied :
    (a b : ℕ) (m n : Bytes) → ((d : ℕ) → d < 4 → m (a + d) ≡ n (b + d)) → load32 m a ≡ load32 n b
unfolding load32
load32-copied a b m n same =
    let first : m a ≡ n b = ap m (add_zero a) ∙ same 0 (omega arith) ∙ sym (ap n (add_zero b)) in
    omega (arith, first, same 1 (omega arith), same 2 (omega arith), same 3 (omega arith))
  where
    add_zero : (x : ℕ) → x ≡ x + 0
    add_zero x = omega arith

-- `memcpy` between ranges that do not meet: the copy, and the rest.
pub memcpy-copies :
    (to from length : ℕ) (m : Bytes)
    → (from + length ≤ to) ⊎ (to + length ≤ from)
    → ((k : ℕ) → k < length → (memcpy to from length m).1 (to + k) ≡ m (from + k))
      × ((x : ℕ) → (x < to) ⊎ (to + length ≤ x) → (memcpy to from length m).1 x ≡ m x)
unfolding memcpy
memcpy-copies to from length m apart =
    count_up_inv
      (λ i n.
        ((k : ℕ) → k < i → n (to + k) ≡ m (from + k))
        × ((x : ℕ) → (x < to) ⊎ (to + i ≤ x) → n x ≡ m x))
      (λ k n. update n (to + k) (n (from + k))) length
      (λ i n lt h. (
        λ k lk.
            update_cases (λ v. v ≡ m (from + k)) n (to + i) (n (from + i)) (to + k)
              (λ e.
                let same : i ≡ k = omega arith in
                h.1 (from + i) (ground (arith, apart)) ∙ ap (λ j. m (from + j)) same)
              (λ ne. h.0 k (omega arith)),
        λ x out. update-ne n (to + i) x _ (ground (arith, out)) ∙ h.1 x (ground (arith, out)),
      ))
      length 0 m (omega arith) (λ k lk. absurd (omega arith), λ x out. refl)

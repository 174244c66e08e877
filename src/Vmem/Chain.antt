-- ===== src/Vmem/Chain.antt =====
-- TestKernel1/src/arch/ia32/vmem.c: the list of blocks as a chain of addresses.
use test_kernel.Base.{
  ℕ, ◌≡◌, ◌≢◌, ◌≤◌, ◌<◌, ◌⊎◌, refl, sym, arith, true, false, not, ◌&&◌, ◌==◌, ltb, suc, List, [],
  ◌∷◌, map, update_cases, some,
}
use test_kernel.Vmem.{Heap, set_next, find_block}

abbrev pub NotIn : ℕ → List ℕ → Type 0
NotIn x [] = Unit
NotIn x (a ∷ bs) = (x ≢ a) × NotIn x bs

-- The blocks at the addresses `bs`, one after the other from p on, all different and none of them
-- null.
abbrev pub IsChain : Heap → ℕ → List ℕ → Type 0
IsChain h p [] = p ≡ 0
IsChain h p (a ∷ bs) = (p ≡ a) × (a ≢ 0) × NotIn a bs × IsChain h (h a).next bs

-- What the list means: the ranges of its blocks.
abbrev pub range : Heap → ℕ → ℕ × ℕ
range h a = ((h a).begin_address, (h a).end_address)

abbrev pub ranges : Heap → List ℕ → List (ℕ × ℕ)
ranges h bs = map (range h) bs

-- Blocks begin above 0.
abbrev pub AreProper : Heap → List ℕ → Type 0
AreProper h [] = Unit
AreProper h (a ∷ bs) = (0 < (h a).begin_address) × AreProper h bs

pub IsChain-not_null : (h : Heap) (p : ℕ) (bs : List ℕ) → IsChain h p bs → NotIn 0 bs
IsChain-not_null h p [] c = tt
IsChain-not_null h p (a ∷ bs) (e, z, d, c) = (λ i. z (sym i), IsChain-not_null h (h a).next bs c)

pub IsChain-kept :
    (h r : Heap) (p n q : ℕ) (bs : List ℕ)
    → ((x : ℕ) → x ≢ p → x ≢ n → r x ≡ h x)
    → NotIn p bs
    → NotIn n bs
    → IsChain h q bs
    → IsChain r q bs
IsChain-kept h r p n q [] same np nn c = c
IsChain-kept h r p n q (a ∷ bs) same (pa, np) (na, nn) (e, z, d, c) = (
  e,
  z,
  d,
  IsChain-kept h r p n (r a).next bs same np nn (rw (same a (λ i. pa (sym i)) (λ i. na (sym i))) c),
)

pub ranges-kept :
    (h r : Heap) (n : ℕ) (bs : List ℕ)
    → ((x : ℕ) → x ≢ n → r x ≡ h x)
    → NotIn n bs
    → ranges r bs ≡ ranges h bs
ranges-kept h r n [] same nn = refl
ranges-kept h r n (a ∷ bs) same (na, nn) =
    let here : r a ≡ h a = same a (λ i. na (sym i)) in
    let rest : ranges r bs ≡ ranges h bs = ranges-kept h r n bs same nn in rw (here, rest) refl

pub ranges-kept_both :
    (h r : Heap) (p n : ℕ) (bs : List ℕ)
    → ((x : ℕ) → x ≢ p → x ≢ n → r x ≡ h x)
    → NotIn p bs
    → NotIn n bs
    → ranges r bs ≡ ranges h bs
ranges-kept_both h r p n [] same np nn = refl
ranges-kept_both h r p n (a ∷ bs) same (pa, np) (na, nn) =
    let here : r a ≡ h a = same a (λ i. pa (sym i)) (λ i. na (sym i)) in
    let rest : ranges r bs ≡ ranges h bs = ranges-kept_both h r p n bs same np nn in
    rw (here, rest) refl

pub AreProper-kept :
    (h r : Heap) (n : ℕ) (bs : List ℕ)
    → ((x : ℕ) → x ≢ n → r x ≡ h x)
    → NotIn n bs
    → AreProper h bs
    → AreProper r bs
AreProper-kept h r n [] same nn proper = tt
AreProper-kept h r n (a ∷ bs) same (na, nn) (pos, proper) =
    let here : r a ≡ h a = same a (λ i. na (sym i)) in
    (rw here pos, AreProper-kept h r n bs same nn proper)

pub set_next-range : (a v : ℕ) (h : Heap) (x : ℕ) → range (set_next a v h) x ≡ range h x
set_next-range a v h x =
    update_cases (λ b. (b.begin_address, b.end_address) ≡ range h x) h a _ x (λ e. rw e refl)
      (λ ne. refl)

pub set_next-ranges : (a v : ℕ) (h : Heap) (bs : List ℕ) → ranges (set_next a v h) bs ≡ ranges h bs
set_next-ranges a v h [] = refl
set_next-ranges a v h (b ∷ bs) = rw (set_next-range a v h b, set_next-ranges a v h bs) refl

pub find_block-stops :
    (b fuel temp prev : ℕ) (h : Heap)
    → (b ≤ (h temp).begin_address) ⊎ ((h temp).begin_address ≡ 0)
    → find_block b (suc fuel) temp prev h ≡ some (temp, prev)
unfolding find_block
find_block-stops b fuel temp prev h stop =
    let test : (ltb (h temp).begin_address b && not ((h temp).begin_address == 0)) ≡ false =
      ground arith in
    rw (find_block, test) refl

pub find_block-goes_on :
    (b fuel temp prev : ℕ) (h : Heap)
    → (h temp).begin_address < b
    → 0 < (h temp).begin_address
    → find_block b (suc fuel) temp prev h ≡ find_block b fuel (h temp).next temp h
unfolding find_block
find_block-goes_on b fuel temp prev h lt pos =
    let test : (ltb (h temp).begin_address b && not ((h temp).begin_address == 0)) ≡ true =
      ground arith in
    rw (find_block, test) refl

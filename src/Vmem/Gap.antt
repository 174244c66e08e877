-- ===== src/Vmem/Gap.antt =====
-- TestKernel1/src/arch/ia32/vmem.c: `palloc` of an address that is not 0, where there are blocks.
use test_kernel.Base.{
  ℕ, suc, ◌+◌, ◌/◌, ◌%◌, ◌≡◌, ◌≢◌, ◌≤◌, ◌<◌, refl, arith, true, false, not, ◌&&◌, ◌==◌, ltb, leb,
  List, ◌∷◌, some, Bool-cases, inl, inr, sub32, ◌∙◌,
}
use test_kernel.Vmem.{Heap, memory, find_gap, palloc, palloc_behind, round_up}
use test_kernel.Vmem.Chain.{IsChain}

find_gap-stops :
    (size fuel prev temp len : ℕ) (h : Heap)
    → size ≤ len
    → find_gap size (suc fuel) prev temp len h ≡ some (prev, len)
unfolding find_gap
find_gap-stops size fuel prev temp len h enough =
    let test : (ltb len size && not (temp == 0)) ≡ false = ground arith in rw (find_gap, test) refl

find_gap-goes_on :
    (size fuel prev temp len : ℕ) (h : Heap)
    → len < size
    → temp ≢ 0
    → find_gap size (suc fuel) prev temp len h
      ≡ find_gap size fuel temp
          (h temp).next
          (sub32 (h temp).end_address (h (h temp).next).begin_address)
          h
unfolding find_gap
find_gap-goes_on size fuel prev temp len h less nz =
    let test : (ltb len size && not (temp == 0)) ≡ true = ground arith in rw (find_gap, test) refl

-- The search succeeds, and nothing is done.
palloc_behind-found :
    (fuel prev new_block size p len : ℕ) (h : Heap)
    → find_gap size fuel prev
        (h memory).next
        (sub32 (h (h memory).next).begin_address (h memory).begin_address)
        h
      ≡ some (p, len)
    → size ≤ len
    → palloc_behind fuel prev new_block size h ≡ some h
unfolding palloc_behind
palloc_behind-found fuel prev new_block size p len h found enough =
    let test : ltb len size ≡ false = ground arith in rw (palloc_behind, found, test) refl

-- A gap of one byte or more between the first two blocks is large enough for any size.
palloc_behind-nothing :
    (fuel prev new_block size a b : ℕ) (h : Heap) (bs : List ℕ)
    → IsChain h (h memory).next (a ∷ b ∷ bs)
    → (h a).end_address < (h b).begin_address
    → (h b).begin_address + size ≤ (h a).end_address + 4294967296
    → palloc_behind (suc (suc fuel)) prev new_block size h ≡ some h
palloc_behind-nothing fuel prev new_block size a b h bs (ea, az, _, (eb, _, _, _)) apart room =
    let first : ℕ = sub32 (h (h memory).next).begin_address (h memory).begin_address in
    let second : ℕ =
      sub32 (h (h memory).next).end_address (h (h (h memory).next).next).begin_address in
    let large : size ≤ second = rw (ea, eb) (ground arith) in
    elim (Bool-cases (ltb first size)) [
      | inl less ↦
          palloc_behind-found (suc (suc fuel)) prev new_block size (h memory).next second h
            (find_gap-goes_on size (suc fuel) prev (h memory).next first h (ground (arith, less))
                (rw ea az)
              ∙ find_gap-stops size fuel (h memory).next (h (h memory).next).next second h large)
            large
      | inr enough ↦
          palloc_behind-found (suc (suc fuel)) prev new_block size prev first h
            (find_gap-stops size (suc fuel) prev (h memory).next first h (ground (arith, enough)))
            (ground (arith, enough))
    ]

-- Where the list has two blocks at least, with one byte or more between the first two and less
-- than 2^32 less the size in whole pages, palloc of an address that is neither 0 nor at or above
-- the end returns this address and leaves the memory as it was: it adds no block, whether or not
-- blocks hold the address, and even where the list has no gap of this size.
pub palloc-adds_nothing :
    (fuel end prev new_block added_block address size a b : ℕ) (h : Heap) (bs : List ℕ)
    → IsChain h (h memory).next (a ∷ b ∷ bs)
    → (h a).end_address < (h b).begin_address
    → (h b).begin_address + round_up (size / 0x1000) (size % 0x1000)
      ≤ (h a).end_address + 4294967296
    → address ≢ 0
    → address < end
    → palloc (suc (suc fuel)) end prev new_block added_block address size h ≡ some (address, h)
unfolding palloc
palloc-adds_nothing fuel end prev new_block added_block address size a b h bs chain apart room nz
      below =
    let asked : (address == 0) ≡ false = ground arith in
    let low : leb end address ≡ false = ground arith in
    let blocks : ((h memory).next == 0) ≡ false = ground (arith, chain) in
    rw
      (
        palloc,
        asked,
        low,
        blocks,
        palloc_behind-nothing fuel prev added_block (round_up (size / 0x1000) (size % 0x1000)) a b h
            bs chain apart room,
      )
      refl

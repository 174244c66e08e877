-- ===== src/Vmem/Pages.antt =====
-- TestKernel1/src/arch/ia32/vmem.c: `palloc` of the next pages, and `pfree` of them.
use test_kernel.Base.{
  ℕ, suc, ◌+◌, ◌≡◌, ◌≢◌, ◌<◌, inl, refl, sym, ap, ap₂, ◌∙◌, subst, arith, true, false, ◌==◌, List,
  ◌∷◌, some, u32, update-ne,
}
use test_kernel.Vmem.{Heap, memory, set_next, find_block, pfree, palloc, palloc_next}
use test_kernel.Vmem.Chain.{
  NotIn, IsChain, IsChain-not_null, ranges, IsChain-kept, ranges-kept_both, set_next-ranges,
  find_block-stops,
}
use test_kernel.Vmem.Remove.{remove_dirty_block-finds, pfree-removes}

-- `palloc` of the address 0, and `pfree` of what it returned.
module _ (n size : ℕ) (h : Heap) (nz : n ≢ 0) where
  palloc_next-part :
      (palloc_next n size h).1 memory
      ≡ record (h memory) { begin_address = u32 ((h memory).begin_address + 0x1000); next = n }
  unfolding palloc_next
  palloc_next-part = let test : (0 == n) ≡ false = ground arith in rw test refl

  palloc_next-block : (palloc_next n size h).1 n ≡ record {
    begin_address = (h memory).begin_address;
    end_address = u32 ((h memory).begin_address + size);
    next = (h memory).next;
  }
  unfolding palloc_next
  palloc_next-block =
      let test : (0 == n) ≡ false = ground arith in
      let back : (n == 0) ≡ false = ground arith in
      let same : (n == n) ≡ true = ground arith in rw (test, back, same) refl

  palloc_next-other : (x : ℕ) → x ≢ memory → x ≢ n → (palloc_next n size h).1 x ≡ h x
  unfolding palloc_next
  palloc_next-other x xm xn =
      let test : (x == 0) ≡ false = ground arith in
      let other : (x == n) ≡ false = ground arith in rw (test, other) refl

  -- The list has the block of the pages in front.
  palloc_next-IsChain :
      (bs : List ℕ)
      → NotIn n bs
      → IsChain h (h memory).next bs
      → IsChain (palloc_next n size h).1 ((palloc_next n size h).1 memory).next (n ∷ bs)
  palloc_next-IsChain bs nn c = (
    ap (λ k. k.next) palloc_next-part,
    nz,
    nn,
    IsChain-kept h (palloc_next n size h).1 memory n ((palloc_next n size h).1 n).next bs
        palloc_next-other (IsChain-not_null h _ bs c) nn
        (subst (λ q. IsChain h q bs) (sym (ap (λ k. k.next) palloc_next-block)) c),
  )

palloc-next :
    (fuel end prev n added size : ℕ) (h : Heap)
    → palloc fuel end prev n added 0 size h
      ≡ some ((h memory).begin_address, (palloc_next n size h).1)
unfolding palloc palloc_next
palloc-next fuel end prev n added size h = refl

-- After `pfree` of the block in front, which begins at `begin`, above 0.
pfree-first :
    (fuel n begin : ℕ) (g : Heap)
    → (g memory).next ≡ n
    → (g n).begin_address ≡ begin
    → 0 < begin
    → pfree (suc fuel) begin g ≡ some (set_next memory (g n).next g)
pfree-first fuel n begin g head starts pos =
    let found : find_block begin (suc fuel) (g memory).next 0 g ≡ some ((g memory).next, 0) =
      find_block-stops begin fuel (g memory).next 0 g (inl (rw head (omega (arith, starts)))) in
    let there : 0 < (g (g memory).next).begin_address = rw head (omega (arith, starts)) in
    pfree-removes (suc fuel) begin g _ true
      (remove_dirty_block-finds g begin (suc fuel) ((g memory).next, 0) found there)
    ∙ ap (λ t. some (set_next memory (g t).next g)) head

-- What a `palloc` of the next pages leaves behind, and then a `pfree` of them: the block of the
-- pages comes to the front of the list and goes, and the part of the memory stays a page shorter.
pub record PagesReturned (n size : ℕ) (h g r : Heap) (bs : List ℕ) : Type 0 where
  pub taken : IsChain g (g memory).next (n ∷ bs)
  pub pages :
      ranges g (n ∷ bs)
      ≡ ((h memory).begin_address, u32 ((h memory).begin_address + size)) ∷ ranges h bs
  pub returned : IsChain r (r memory).next bs
  pub kept : ranges r bs ≡ ranges h bs
  pub part : (r memory).begin_address ≡ u32 ((h memory).begin_address + 0x1000)

palloc_next-PagesReturned :
    (n size : ℕ) (h : Heap) (bs : List ℕ)
    → n ≢ 0
    → NotIn n bs
    → IsChain h (h memory).next bs
    → PagesReturned n size h
        (palloc_next n size h).1
        (set_next memory ((palloc_next n size h).1 n).next (palloc_next n size h).1)
        bs
palloc_next-PagesReturned n size h bs nz nn c =
    let g : Heap = (palloc_next n size h).1 in
    let z : NotIn 0 bs = IsChain-not_null h _ bs c in
    let chain = palloc_next-IsChain n size h nz bs nn c in
    let (_, _, _, behind) = chain in
    let same : ranges g bs ≡ ranges h bs =
      ranges-kept_both h g memory n bs (palloc_next-other n size h nz) z nn in
    record {
      taken = chain;
      pages =
          ap₂ (λ q qs. q ∷ qs)
            (ap (λ k. (k.begin_address, k.end_address)) (palloc_next-block n size h nz)) same;
      returned =
          IsChain-kept g (set_next memory (g n).next g) memory memory (g n).next bs
            (λ x xm _. update-ne g memory x _ xm) z z behind;
      kept = set_next-ranges memory (g n).next g bs ∙ same;
      part = ap (λ k. k.begin_address) (palloc_next-part n size h nz);
    }

-- Where the part of the memory begins above 0 and `new_block` is neither null nor in the list,
-- `palloc` of the address 0 returns where the part begins, with a block for that range in front
-- of the list, and `pfree` of that address returns and leaves the list as it was, and the part a
-- page shorter.
pub palloc-pfree :
    (fuel end prev n added size : ℕ) (h : Heap) (bs : List ℕ)
    → n ≢ 0
    → NotIn n bs
    → IsChain h (h memory).next bs
    → 0 < (h memory).begin_address
    → (g r : Heap) × (palloc fuel end prev n added 0 size h ≡ some ((h memory).begin_address, g))
      × (pfree (suc fuel) (h memory).begin_address g ≡ some r)
      × PagesReturned n size h g r bs
palloc-pfree fuel end prev n added size h bs nz nn c pos = (
  (palloc_next n size h).1,
  set_next memory ((palloc_next n size h).1 n).next (palloc_next n size h).1,
  palloc-next fuel end prev n added size h,
  pfree-first fuel n (h memory).begin_address (palloc_next n size h).1
      (ap (λ k. k.next) (palloc_next-part n size h nz))
      (ap (λ k. k.begin_address) (palloc_next-block n size h nz)) pos,
  palloc_next-PagesReturned n size h bs nz nn c,
)

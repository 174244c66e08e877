-- ===== src/Vmem/Endless.antt =====
-- TestKernel1/src/arch/ia32/vmem.c: the loops over the list do not end at its end where the part
-- of the memory begins above 0, since the part is what they read behind the last block.
use test_kernel.Base.{
  ℕ, zero, suc, ◌≡◌, ◌≢◌, ◌<◌, refl, sym, ap, ◌∙◌, arith, false, ◌==◌, List, [], ◌∷◌, none,
}
use test_kernel.Vmem.{Heap, memory, find_block, add_dirty_block, remove_dirty_block, pfree}
use test_kernel.Vmem.Chain.{NotIn, IsChain, IsChain-kept, find_block-goes_on}
use test_kernel.Vmem.Insert.{filled, filled-other}

-- The blocks begin above 0 and below b.
abbrev pub AreBelow : Heap → ℕ → List ℕ → Type 0
AreBelow h b [] = Unit
AreBelow h b (a ∷ bs) = (0 < (h a).begin_address) × ((h a).begin_address < b) × AreBelow h b bs

AreBelow-kept :
    (h r : Heap) (b n : ℕ) (bs : List ℕ)
    → ((x : ℕ) → x ≢ n → r x ≡ h x)
    → NotIn n bs
    → AreBelow h b bs
    → AreBelow r b bs
AreBelow-kept h r b n [] same nn below = tt
AreBelow-kept h r b n (a ∷ bs) same (na, nn) (pos, lt, below) =
    let here : r a ≡ h a = same a (λ i. na (sym i)) in
    (rw here pos, rw here lt, AreBelow-kept h r b n bs same nn below)

-- From any block of a list whose blocks begin below b, the loop goes round for ever.
find_block-endless :
    (h : Heap) (b : ℕ) (bs : List ℕ)
    → IsChain h (h 0).next bs
    → AreBelow h b bs
    → 0 < (h 0).begin_address
    → (h 0).begin_address < b
    → (fuel temp prev : ℕ) (cs : List ℕ) → IsChain h temp cs
    → AreBelow h b cs
    → find_block b fuel temp prev h ≡ none
unfolding find_block
find_block-endless h b bs c below pos lt zero temp prev cs at under = refl
find_block-endless h b bs c below pos lt (suc fuel) temp prev [] at under =
    find_block-goes_on b fuel temp prev h (rw at lt) (rw at pos)
    ∙ find_block-endless h b bs c below pos lt fuel (h temp).next temp bs (rw at c) below
find_block-endless h b bs c below pos lt (suc fuel) temp prev (a ∷ cs) (e, z, d, at)
      (ap0, al, under) =
    find_block-goes_on b fuel temp prev h (rw e al) (rw e ap0)
    ∙ find_block-endless h b bs c below pos lt fuel (h temp).next temp cs (rw e at) under

remove_dirty_block-none :
    (fuel b : ℕ) (h : Heap)
    → find_block b fuel (h memory).next 0 h ≡ none
    → (remove_dirty_block fuel b h ≡ none) × (pfree fuel b h ≡ none)
unfolding remove_dirty_block pfree
remove_dirty_block-none fuel b h lost =
    (rw (remove_dirty_block, lost) refl, rw (pfree, remove_dirty_block, lost) refl)

add_dirty_block-none :
    (fuel n b e : ℕ) (h : Heap) (nz : n ≢ 0)
    → (filled n b e h nz memory).next ≢ 0
    → find_block b fuel (filled n b e h nz memory).next 0 (filled n b e h nz) ≡ none
    → add_dirty_block fuel n b e h ≡ none
unfolding add_dirty_block
add_dirty_block-none fuel n b e h nz some_yet lost =
    let test : ((filled n b e h nz memory).next == 0) ≡ false = ground arith in
    rw (add_dirty_block, test, lost) refl

-- Where the part of the memory begins above 0 and below b, and so do all the blocks of a list
-- that has one, neither `add_dirty_block` of a block that is not null nor in the list, nor
-- `remove_dirty_block`, nor `pfree` returns at b, however many rounds there are.
pub dirty_blocks-endless :
    (fuel n b e a : ℕ) (h : Heap) (bs : List ℕ)
    → n ≢ 0
    → NotIn n (a ∷ bs)
    → IsChain h (h memory).next (a ∷ bs)
    → AreBelow h b (a ∷ bs)
    → 0 < (h memory).begin_address
    → (h memory).begin_address < b
    → (add_dirty_block fuel n b e h ≡ none)
      × (remove_dirty_block fuel b h ≡ none)
      × (pfree fuel b h ≡ none)
dirty_blocks-endless fuel n b e a h bs nz nn (c, z, d, rest) below pos lt =
    let new : Heap = filled n b e h nz in
    let same : new memory ≡ h memory = filled-other n b e h nz memory (λ i. nz (sym i)) in
    let head : (new memory).next ≡ a = ap (λ k. k.next) same ∙ c in
    let (_, _, _, after) =
      IsChain-kept h new n n a (a ∷ bs) (λ x xn _. filled-other n b e h nz x xn) nn nn
        (refl, z, d, rest) in
    let under : AreBelow new b (a ∷ bs) =
      AreBelow-kept h new b n (a ∷ bs) (filled-other n b e h nz) nn below in
    let removal = remove_dirty_block-none fuel b h (
      find_block-endless h b (a ∷ bs) (c, z, d, rest) below pos lt fuel (h memory).next 0 (a ∷ bs)
        (c, z, d, rest) below) in
    (
      add_dirty_block-none fuel n b e h nz (λ i. z (sym head ∙ i))
          (find_block-endless new b (a ∷ bs) (head, z, d, after) under (rw same pos) (rw same lt)
            fuel (new memory).next 0 (a ∷ bs) (head, z, d, after) under),
      removal.0,
      removal.1,
    )

-- ===== src/Vmem/Remove.antt =====
-- TestKernel1/src/arch/ia32/vmem.c: `pfree` takes the first block out of the list that does not
-- begin below the address.
use test_kernel.Base.{
  ℕ, zero, suc, ◌≡◌, ◌≢◌, ◌<◌, ◌⊎◌, inl, inr, refl, sym, ap, ◌∙◌, subst, arith, Bool, true, false,
  Bool-cases, ltb→lt, ◌==◌, ltb, if◌then◌else◌, List, [], ◌∷◌, length, update-ne, update-same, some,
}
use test_kernel.Vmem.{Heap, memory, set_next, find_block, remove_dirty_block, pfree}
use test_kernel.Vmem.Chain.{
  NotIn, IsChain, IsChain-not_null, range, ranges, AreProper, IsChain-kept, set_next-range,
  set_next-ranges, find_block-stops, find_block-goes_on,
}

-- The reference: the ranges without the first one that does not begin below b, and whether there
-- is one.
abbrev pub remove_range : ℕ → List (ℕ × ℕ) → Bool × List (ℕ × ℕ)
remove_range b [] = (false, [])
remove_range b (q ∷ qs) =
    let (there, rest) = remove_range b qs in if ltb q.0 b then (there, q ∷ rest) else (true, qs)

-- The same on the addresses of blocks.
abbrev remove_address : Heap → (b : ℕ) → List ℕ → List ℕ
remove_address h b [] = []
remove_address h b (a ∷ bs) =
    let rest = remove_address h b bs in if ltb (h a).begin_address b then a ∷ rest else bs

remove_address-NotIn :
    (h : Heap) (b x : ℕ) (bs : List ℕ) → NotIn x bs → NotIn x (remove_address h b bs)
remove_address-NotIn h b x [] out = tt
remove_address-NotIn h b x (a ∷ bs) (xa, out) = elim (Bool-cases (ltb (h a).begin_address b)) [
  | inl e ↦ rw e (xa, remove_address-NotIn h b x bs out)
  | inr e ↦ rw e out
]

remove_address-ranges :
    (h : Heap) (b : ℕ) (bs : List ℕ)
    → ranges h (remove_address h b bs) ≡ (remove_range b (ranges h bs)).1
remove_address-ranges h b [] = refl
remove_address-ranges h b (a ∷ bs) = elim (Bool-cases (ltb (h a).begin_address b)) [
  | inl e ↦ rw e (ap (λ qs. range h a ∷ qs) (remove_address-ranges h b bs))
  | inr e ↦ rw e refl
]

-- The last write of `remove_dirty_block`, if it comes to that.
abbrev unlinked : Bool → (p t : ℕ) → Heap → Heap
unlinked false p t h = h
unlinked true p t h = set_next p (h t).next h

-- From a block `p` on, behind which `bs` follow, the loop finds the block to take out: null where
-- there is none.
record Taken (h : Heap) (b fuel p : ℕ) (bs : List ℕ) (w : ℕ × ℕ) : Type 0 where
  found : find_block b fuel (h p).next p h ≡ some w
  there :
      (((remove_range b (ranges h bs)).0 ≡ true) × (0 < (h w.0).begin_address))
      ⊎ (((remove_range b (ranges h bs)).0 ≡ false) × ((h w.0).begin_address ≡ 0))
  chain :
      (s : Heap)
      → s ≡ unlinked (remove_range b (ranges h bs)).0 w.1 w.0 h
      → IsChain s (s p).next (remove_address h b bs)
  others :
      (x : ℕ) → x ≢ p → NotIn x bs → unlinked (remove_range b (ranges h bs)).0 w.1 w.0 h x ≡ h x

module _ (h : Heap) (b a : ℕ) (bs : List ℕ) where
  address-here : ltb (h a).begin_address b ≡ false → bs ≡ remove_address h b (a ∷ bs)
  address-here over = rw over refl

  address-further :
      ltb (h a).begin_address b ≡ true → a ∷ remove_address h b bs ≡ remove_address h b (a ∷ bs)
  address-further below = rw below refl

  range-here : ltb (h a).begin_address b ≡ false → true ≡ (remove_range b (ranges h (a ∷ bs))).0
  range-here over = rw over refl

module _ (h : Heap) (b : ℕ) (no_part : (h 0).begin_address ≡ 0) where
  nothing_there : (fuel p : ℕ) → (h p).next ≡ 0 → Taken h b (suc fuel) p [] ((h p).next, p)
  nothing_there fuel p c = record {
    found = find_block-stops b fuel (h p).next p h (inr (rw c no_part));
    there = inr (refl, rw c no_part);
    chain = λ s e. rw e c;
    others = λ x xp out. refl;
  }

  Taken-here :
      (fuel p a : ℕ) (bs : List ℕ)
      → ltb (h a).begin_address b ≡ false
      → 0 < (h a).begin_address
      → NotIn p bs
      → (h p).next ≡ a
      → IsChain h (h a).next bs
      → Taken h b (suc fuel) p (a ∷ bs) ((h p).next, p)
  Taken-here fuel p a bs over pos np c rest =
      let next : (set_next p (h (h p).next).next h p).next ≡ (h a).next =
        ap (λ k. k.next) (update-same h p (record (h p) { next = (h (h p).next).next }))
        ∙ ap (λ k. (h k).next) c in
      record {
        found = find_block-stops b fuel (h p).next p h (inl (rw c (ground (arith, over))));
        there = inl (rw over refl, rw c pos);
        chain = λ s e.
            let changed : s ≡ set_next p (h (h p).next).next h = e ∙ rw over refl in
            subst (λ cs. IsChain s (s p).next cs) (address-here h b a bs over)
              (subst (λ g. IsChain g (g p).next bs) (sym changed)
                (IsChain-kept h (set_next p (h (h p).next).next h) p p _ bs
                  (λ x xp _. update-ne h p x _ xp) np np
                  (subst (λ q. IsChain h q bs) (sym next) rest)));
        others = λ x xp out.
            subst (λ t. unlinked t p (h p).next h x ≡ h x) (range-here h b a bs over)
              (update-ne h p x _ xp);
      }

  Taken-further :
      (fuel p a : ℕ) (bs : List ℕ) (w : ℕ × ℕ)
      → ltb (h a).begin_address b ≡ true
      → 0 < (h a).begin_address
      → p ≢ a
      → NotIn p bs
      → (h p).next ≡ a
      → a ≢ 0
      → NotIn a bs
      → Taken h b fuel a bs w
      → Taken h b (suc fuel) p (a ∷ bs) w
  Taken-further fuel p a bs w below pos pa np c z d f =
      let lt : (h a).begin_address < b = ltb→lt (h a).begin_address b below in
      record {
        found =
            find_block-goes_on b fuel (h p).next p h (rw c lt) (rw c pos)
            ∙ ap (λ t. find_block b fuel (h t).next t h) c
            ∙ f.found;
        there = rw below f.there;
        chain = λ s e.
            let same : s ≡ unlinked (remove_range b (ranges h bs)).0 w.1 w.0 h =
              e ∙ rw below refl in
            subst (λ cs. IsChain s (s p).next cs) (address-further h b a bs below)
              (
                ap (λ k. k.next) (ap (λ g. g p) same ∙ f.others p pa np) ∙ c,
                z,
                remove_address-NotIn h b a bs d,
                f.chain s same,
              );
        others = λ x xp (xa, out). rw below (f.others x xa out);
      }

  find_block-Taken :
      (fuel p : ℕ) (bs : List ℕ)
      → NotIn p bs
      → AreProper h bs
      → IsChain h (h p).next bs
      → length bs < fuel
      → (w : ℕ × ℕ) × Taken h b fuel p bs w
  find_block-Taken zero p bs np proper c enough = absurd (omega arith)
  find_block-Taken (suc fuel) p [] np proper c enough = (_, nothing_there fuel p c)
  find_block-Taken (suc fuel) p (a ∷ bs) (pa, np) (pos, proper) (e, z, d, c) enough =
      elim (Bool-cases (ltb (h a).begin_address b)) [
        | inr over ↦ (_, Taken-here fuel p a bs over pos np e c)
        | inl below ↦
            (let (w, f) = find_block-Taken fuel a bs d proper c (omega arith) in
              (w, Taken-further fuel p a bs w below pos pa np e z d f))
      ]

-- What the list is after the first block that does not begin below b has been taken out of `bs`.
pub record Removed (h : Heap) (b : ℕ) (bs : List ℕ) (r : Heap) : Type 0 where
  pub blocks : List ℕ
  pub chain : IsChain r (r memory).next blocks
  pub removed : ranges r blocks ≡ (remove_range b (ranges h bs)).1
  pub part : range r memory ≡ range h memory
  pub others : (x : ℕ) → x ≢ memory → NotIn x bs → r x ≡ h x

module _ (h : Heap) (b fuel : ℕ) (w : ℕ × ℕ)
    (found : find_block b fuel (h memory).next 0 h ≡ some w) where
  pub remove_dirty_block-finds :
      0 < (h w.0).begin_address
      → remove_dirty_block fuel b h ≡ some (true, set_next w.1 (h w.0).next h)
  unfolding remove_dirty_block
  remove_dirty_block-finds pos =
      let test : ((h w.0).begin_address == 0) ≡ false = ground arith in
      rw (remove_dirty_block, found, test) refl

  remove_dirty_block-misses :
      (h w.0).begin_address ≡ 0 → remove_dirty_block fuel b h ≡ some (false, h)
  unfolding remove_dirty_block
  remove_dirty_block-misses null = rw (remove_dirty_block, found, null) refl

unlinked-ranges :
    (t : Bool) (p q : ℕ) (h : Heap) (bs : List ℕ) → ranges (unlinked t p q h) bs ≡ ranges h bs
unlinked-ranges false p q h bs = refl
unlinked-ranges true p q h bs = set_next-ranges p (h q).next h bs

unlinked-range : (t : Bool) (p q : ℕ) (h : Heap) (x : ℕ) → range (unlinked t p q h) x ≡ range h x
unlinked-range false p q h x = refl
unlinked-range true p q h x = set_next-range p (h q).next h x

pub pfree-removes :
    (fuel b : ℕ) (h r : Heap) (t : Bool)
    → remove_dirty_block fuel b h ≡ some (t, r)
    → pfree fuel b h ≡ some r
unfolding pfree
pfree-removes fuel b h r t e = rw (pfree, e) refl

Taken-Removed :
    (fuel b : ℕ) (h : Heap) (bs : List ℕ) (w : ℕ × ℕ)
    → Taken h b fuel memory bs w
    → Removed h b bs (unlinked (remove_range b (ranges h bs)).0 w.1 w.0 h)
Taken-Removed fuel b h bs w f = record {
  blocks = remove_address h b bs;
  chain = f.chain _ refl;
  removed =
      unlinked-ranges (remove_range b (ranges h bs)).0 w.1 w.0 h (remove_address h b bs)
      ∙ remove_address-ranges h b bs;
  part = unlinked-range (remove_range b (ranges h bs)).0 w.1 w.0 h memory;
  others = f.others;
}

-- Where the part of the memory has the beginning 0 and the list holds blocks that begin above 0,
-- `remove_dirty_block` returns with more fuel than there are blocks, and says whether the list
-- has a block that does not begin below b; the first such block is out of the list, which is
-- otherwise as before, and so is what lies outside of it. `pfree` does the same and returns
-- nothing.
pub pfree-Removed :
    (fuel b : ℕ) (h : Heap) (bs : List ℕ)
    → AreProper h bs
    → IsChain h (h memory).next bs
    → (h memory).begin_address ≡ 0
    → length bs < fuel
    → (r : Heap) × (remove_dirty_block fuel b h ≡ some ((remove_range b (ranges h bs)).0, r))
      × (pfree fuel b h ≡ some r)
      × Removed h b bs r
pfree-Removed fuel b h bs proper c no_part enough =
    let (w, f) =
      find_block-Taken h b no_part fuel memory bs (IsChain-not_null h _ bs c) proper c enough in
    let ran : remove_dirty_block fuel b h
        ≡ some (
          (remove_range b (ranges h bs)).0,
          unlinked (remove_range b (ranges h bs)).0 w.1 w.0 h,
        ) =
      elim f.there [
        | inl (yes_there, pos) ↦ rw yes_there (remove_dirty_block-finds h b fuel w f.found pos)
        | inr (none_there, null) ↦ rw none_there (remove_dirty_block-misses h b fuel w f.found null)
      ] in
    (_, ran, pfree-removes fuel b h _ _ ran, Taken-Removed fuel b h bs w f)

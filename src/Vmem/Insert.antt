-- ===== src/Vmem/Insert.antt =====
-- TestKernel1/src/arch/ia32/vmem.c: `add_dirty_block` puts the new block where it belongs by its
-- beginning.
use test_kernel.Base.{
  ℕ, zero, suc, ◌≡◌, ◌≢◌, ◌≤◌, ◌<◌, ◌⊎◌, inl, inr, refl, sym, ap, ap₂, ◌∙◌, subst, arith, true,
  false, Bool-cases, ltb→lt, ◌==◌, ltb, if◌then◌else◌, List, [], ◌∷◌, length, update-ne,
  update-same, some,
}
use test_kernel.Vmem.{Heap, memory, set_next, set_begin, set_end, find_block, add_dirty_block}
use test_kernel.Vmem.Chain.{
  NotIn, IsChain, IsChain-not_null, range, ranges, AreProper, IsChain-kept, ranges-kept,
  AreProper-kept, set_next-range, set_next-ranges, find_block-stops, find_block-goes_on,
}

-- The reference: a range is put in front of the first one that does not begin below it.
abbrev pub insert_range : ℕ × ℕ → List (ℕ × ℕ) → List (ℕ × ℕ)
insert_range r [] = r ∷ []
insert_range r (q ∷ qs) =
    let rest = insert_range r qs in if ltb q.0 r.0 then q ∷ rest else r ∷ q ∷ qs

-- The same on the addresses of blocks.
abbrev insert_address : Heap → (n b : ℕ) → List ℕ → List ℕ
insert_address h n b [] = n ∷ []
insert_address h n b (a ∷ bs) =
    let rest = insert_address h n b bs in if ltb (h a).begin_address b then a ∷ rest else n ∷ a ∷ bs

-- The last two writes of `add_dirty_block`.
abbrev linked : (n p t : ℕ) → Heap → Heap
linked n p t h = set_next n t (set_next p n h)

insert_address-NotIn :
    (h : Heap) (n b x : ℕ) (bs : List ℕ) → x ≢ n → NotIn x bs → NotIn x (insert_address h n b bs)
insert_address-NotIn h n b x [] xn out = (xn, tt)
insert_address-NotIn h n b x (a ∷ bs) xn (xa, out) = elim (Bool-cases (ltb (h a).begin_address b)) [
  | inl e ↦ rw e (xa, insert_address-NotIn h n b x bs xn out)
  | inr e ↦ rw e (xn, (xa, out))
]

insert_address-ranges :
    (h : Heap) (n : ℕ) (bs : List ℕ)
    → ranges h (insert_address h n (h n).begin_address bs) ≡ insert_range (range h n) (ranges h bs)
insert_address-ranges h n [] = refl
insert_address-ranges h n (a ∷ bs) =
    elim (Bool-cases (ltb (h a).begin_address (h n).begin_address)) [
      | inl e ↦ rw e (ap (λ qs. range h a ∷ qs) (insert_address-ranges h n bs))
      | inr e ↦ rw e refl
    ]

linked-p : (n p t : ℕ) (h : Heap) → p ≢ n → (linked n p t h p).next ≡ n
linked-p n p t h pn =
    ap (λ b. b.next) (update-ne (set_next p n h) n p _ pn) ∙ ap (λ b. b.next) (update-same h p _)

linked-n : (n p t : ℕ) (h : Heap) → (linked n p t h n).next ≡ t
linked-n n p t h = ap (λ b. b.next) (update-same (set_next p n h) n _)

linked-other : (n p t : ℕ) (h : Heap) (x : ℕ) → x ≢ p → x ≢ n → linked n p t h x ≡ h x
linked-other n p t h x xp xn = update-ne (set_next p n h) n x _ xn ∙ update-ne h p x _ xp

linked-IsChain :
    (h : Heap) (n p t : ℕ) (bs : List ℕ)
    → p ≢ n
    → n ≢ 0
    → NotIn p bs
    → NotIn n bs
    → IsChain h t bs
    → IsChain (linked n p t h) (linked n p t h p).next (n ∷ bs)
linked-IsChain h n p t bs pn nz np nn c = (
  linked-p n p t h pn,
  nz,
  nn,
  IsChain-kept h (linked n p t h) p n (linked n p t h n).next bs (linked-other n p t h) np nn
      (subst (λ q. IsChain h q bs) (sym (linked-n n p t h)) c),
)

-- From a block `p` on, behind which `bs` follow, the loop finds where a block goes that begins at
-- b.
record Found (h : Heap) (b n fuel p : ℕ) (bs : List ℕ) (w : ℕ × ℕ) : Type 0 where
  found : find_block b fuel (h p).next p h ≡ some w
  chain : IsChain (linked n w.1 w.0 h) (linked n w.1 w.0 h p).next (insert_address h n b bs)
  others : (x : ℕ) → x ≢ p → NotIn x bs → x ≢ n → linked n w.1 w.0 h x ≡ h x

module _ (h : Heap) (b n : ℕ) (nz : n ≢ 0)
    (stops : (b ≤ (h 0).begin_address) ⊎ ((h 0).begin_address ≡ 0)) where
  stopped :
      (fuel p : ℕ) (bs : List ℕ)
      → p ≢ n
      → NotIn p bs
      → NotIn n bs
      → IsChain h (h p).next bs
      → (b ≤ (h (h p).next).begin_address) ⊎ ((h (h p).next).begin_address ≡ 0)
      → insert_address h n b bs ≡ n ∷ bs
      → Found h b n (suc fuel) p bs ((h p).next, p)
  stopped fuel p bs pn np nn c stop first = record {
    found = find_block-stops b fuel (h p).next p h stop;
    chain = rw first (linked-IsChain h n p (h p).next bs pn nz np nn c);
    others = λ x xp out xn. linked-other n p (h p).next h x xp xn;
  }

  -- A step over a block that begins below b.
  further :
      (fuel p a : ℕ) (bs : List ℕ) (w : ℕ × ℕ)
      → p ≢ n
      → p ≢ a
      → NotIn p bs
      → n ≢ a
      → 0 < (h a).begin_address
      → (h a).begin_address < b
      → (h p).next ≡ a
      → a ≢ 0
      → NotIn a bs
      → Found h b n fuel a bs w
      → Found h b n (suc fuel) p (a ∷ bs) w
  further fuel p a bs w pn pa np na pos lt e z d f = record {
    found =
        find_block-goes_on b fuel (h p).next p h (rw e lt) (rw e pos)
        ∙ ap (λ t. find_block b fuel (h t).next t h) e
        ∙ f.found;
    chain =
        let test : ltb (h a).begin_address b ≡ true = ground arith in
        rw test (
          ap (λ c. c.next) (f.others p pa np pn) ∙ e,
          z,
          insert_address-NotIn h n b a bs (λ i. na (sym i)) d,
          f.chain,
        );
    others = λ x xp out xn. f.others x out.0 out.1 xn;
  }

  find_block-Found :
      (fuel p : ℕ) (bs : List ℕ)
      → p ≢ n
      → NotIn p bs
      → NotIn n bs
      → AreProper h bs
      → IsChain h (h p).next bs
      → length bs < fuel
      → (w : ℕ × ℕ) × Found h b n fuel p bs w
  find_block-Found zero p bs pn np nn proper c enough = absurd (omega arith)
  find_block-Found (suc fuel) p [] pn np nn proper c enough =
      ((_, p), stopped fuel p [] pn np nn c (rw c stops) refl)
  find_block-Found (suc fuel) p (a ∷ bs) pn (pa, np) (na, nn) (pos, proper) (e, z, d, c) enough =
      elim (Bool-cases (ltb (h a).begin_address b)) [
        | inr over ↦ (
          (_, p),
          stopped fuel p (a ∷ bs) pn (pa, np) (na, nn) (e, z, d, c) (inl (rw e (ground arith)))
              (rw over refl),
        )
        | inl below ↦
            (let (w, f) =
                find_block-Found fuel a bs (λ i. na (sym i)) d nn proper c (omega arith) in
              (w, further fuel p a bs w pn pa np na pos (ltb→lt _ _ below) e z d f))
      ]

-- What `add_dirty_block` leaves behind for the block n with the range (b, e), where the list was
-- `bs`.
pub record Inserted (h : Heap) (n b e : ℕ) (bs : List ℕ) (r : Heap) : Type 0 where
  pub blocks : List ℕ
  pub chain : IsChain r (r memory).next blocks
  pub inserted : ranges r blocks ≡ insert_range (b, e) (ranges h bs)
  pub part : range r memory ≡ range h memory
  pub others : (x : ℕ) → x ≢ memory → x ≢ n → NotIn x bs → r x ≡ h x

module _ (n b e : ℕ) (h : Heap) (nz : n ≢ 0) where
  abbrev pub filled : Heap
  filled = set_end n e (set_begin n b h)

  pub filled-other : (x : ℕ) → x ≢ n → filled x ≡ h x
  filled-other x xn = update-ne (set_begin n b h) n x _ xn ∙ update-ne h n x _ xn

  filled-range : range filled n ≡ (b, e)
  filled-range =
      ap (λ c. (c.begin_address, c.end_address)) (update-same (set_begin n b h) n _)
      ∙ ap (λ c. (c.begin_address, e)) (update-same h n _)

  linked-ranges : (p t : ℕ) (bs : List ℕ) → ranges (linked n p t filled) bs ≡ ranges filled bs
  linked-ranges p t bs =
      set_next-ranges n t (set_next p n filled) bs ∙ set_next-ranges p n filled bs

  filled-inserted :
      (bs : List ℕ)
      → NotIn n bs
      → ranges filled (insert_address filled n b bs) ≡ insert_range (b, e) (ranges h bs)
  filled-inserted bs nn =
      subst
        (λ k.
          ranges filled (insert_address filled n k bs)
          ≡ insert_range (range filled n) (ranges filled bs))
        (ap (λ r. r.0) filled-range) (insert_address-ranges filled n bs)
      ∙ ap₂ insert_range filled-range (ranges-kept h filled n bs filled-other nn)

  add_dirty_block-first :
      (fuel : ℕ)
      → (filled memory).next ≡ 0
      → add_dirty_block fuel n b e h ≡ some (set_next memory n (set_next n 0 filled))
  unfolding add_dirty_block
  add_dirty_block-first fuel none_yet = rw (add_dirty_block, none_yet) refl

  add_dirty_block-linked :
      (fuel : ℕ) (w : ℕ × ℕ)
      → (filled memory).next ≢ 0
      → find_block b fuel (filled memory).next 0 filled ≡ some w
      → add_dirty_block fuel n b e h ≡ some (linked n w.1 w.0 filled)
  unfolding add_dirty_block
  add_dirty_block-linked fuel w some_yet found =
      let test : ((filled memory).next == 0) ≡ false = ground arith in
      rw (add_dirty_block, test, found) refl

  first-Inserted :
      (h memory).next ≡ 0 → Inserted h n b e [] (set_next memory n (set_next n 0 filled))
  first-Inserted empty =
      let zn : memory ≢ n = λ i. nz (sym i) in
      let mid : Heap = set_next n 0 filled in
      record {
        blocks = n ∷ [];
        chain = (
          ap (λ c. c.next) (update-same mid memory (record (mid memory) { next = n })),
          nz,
          tt,
          ap (λ c. c.next) (update-ne mid memory n _ nz)
              ∙ ap (λ c. c.next) (update-same filled n _),
        );
        inserted =
            set_next-ranges memory n mid (n ∷ [])
            ∙ set_next-ranges n 0 filled (n ∷ [])
            ∙ filled-inserted [] tt;
        part =
            set_next-range memory n mid memory
            ∙ set_next-range n 0 filled memory
            ∙ ap (λ c. (c.begin_address, c.end_address)) (filled-other memory zn);
        others = λ x xm xn out.
            update-ne mid memory x _ xm ∙ update-ne filled n x _ xn ∙ filled-other x xn;
      }

  linked-Inserted :
      (fuel a : ℕ) (bs : List ℕ) (w : ℕ × ℕ)
      → NotIn n bs
      → Found filled b n fuel memory bs w
      → Inserted h n b e bs (linked n w.1 w.0 filled)
  linked-Inserted fuel a bs w nn f = record {
    blocks = insert_address filled n b bs;
    chain = f.chain;
    inserted = linked-ranges w.1 w.0 (insert_address filled n b bs) ∙ filled-inserted bs nn;
    part =
        set_next-range n w.0 (set_next w.1 n filled) memory
        ∙ set_next-range w.1 n filled memory
        ∙ ap (λ c. (c.begin_address, c.end_address)) (filled-other memory (λ i. nz (sym i)));
    others = λ x xm xn out. f.others x xm out xn ∙ filled-other x xn;
  }

-- Where the part of the memory has the beginning 0, or begins at or above b, the list holds
-- blocks that begin above 0, and the new block is neither null nor in the list, `add_dirty_block`
-- returns with more fuel than there are blocks; the list then holds the range (b, e) in front of
-- the first one that does not begin below it, and nothing but the list and the new block has
-- changed.
pub add_dirty_block-Inserted :
    (fuel n b e : ℕ) (h : Heap) (bs : List ℕ)
    → n ≢ 0
    → NotIn n bs
    → AreProper h bs
    → IsChain h (h memory).next bs
    → (b ≤ (h memory).begin_address) ⊎ ((h memory).begin_address ≡ 0)
    → length bs < fuel
    → (r : Heap) × (add_dirty_block fuel n b e h ≡ some r) × Inserted h n b e bs r
add_dirty_block-Inserted fuel n b e h [] nz nn proper c stops enough = (
  _,
  add_dirty_block-first n b e h nz fuel
      (ap (λ k. k.next) (filled-other n b e h nz memory (λ i. nz (sym i))) ∙ c),
  first-Inserted n b e h nz c,
)
add_dirty_block-Inserted fuel n b e h (a ∷ bs) nz nn proper (c, z, d, rest) stops enough =
    let same : filled n b e h nz memory ≡ h memory =
      filled-other n b e h nz memory (λ i. nz (sym i)) in
    let head : (filled n b e h nz memory).next ≡ a = ap (λ k. k.next) same ∙ c in
    let (_, _, _, after) =
      IsChain-kept h (filled n b e h nz) n n a (a ∷ bs) (λ x xn _. filled-other n b e h nz x xn) nn
        nn (refl, z, d, rest) in
    let (w, f) =
      find_block-Found (filled n b e h nz) b n nz (rw same stops) fuel memory (a ∷ bs)
        (λ i. nz (sym i)) (IsChain-not_null h (h memory).next (a ∷ bs) (c, z, d, rest)) nn
        (AreProper-kept h (filled n b e h nz) n (a ∷ bs) (filled-other n b e h nz) nn proper)
        (head, z, d, after) enough in
    (
      _,
      add_dirty_block-linked n b e h nz fuel w (λ i. z (sym head ∙ i)) f.found,
      linked-Inserted n b e h nz fuel a (a ∷ bs) w nn f,
    )

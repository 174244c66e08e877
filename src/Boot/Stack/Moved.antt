-- ===== src/Boot/Stack/Moved.antt =====
-- TestKernel1/src/main.c: the stack after `move_stack`.
use test_kernel.Base.{
  ℕ, zero, suc, ◌+◌, ◌-◌, ◌*◌, ◌/◌, ◌%◌, ◌<◌, ◌≤◌, ◌≡◌, ◌⊎◌, inl, inr, refl, sym, ap, ◌∙◌, subst,
  arith, true, false, ◌&&◌, Bool-cases, some, ltb, leb, ◌==◌, u32, sub32,
}
use test_kernel.Mem.{Bytes, memcpy}
use test_kernel.Mem.Words.{
  load32, load32-store32, store32-outside, load32-same, load32-copied, memcpy-copies,
}
use test_kernel.Boot.Stack.{step_pages, relocated, relocate_word, relocate, Stacked, move_stack}

step_pages-below : (fuel i bound : ℕ) → leb bound i ≡ false → step_pages (suc fuel) i bound ≡ some i
unfolding step_pages
step_pages-below fuel i bound below = rw (step_pages, below) refl

step_pages-above :
    (fuel i bound : ℕ)
    → leb bound i ≡ true
    → step_pages (suc fuel) i bound ≡ step_pages fuel (sub32 i 0x1000) bound
unfolding step_pages
step_pages-above fuel i bound above = rw (step_pages, above) refl

-- The loop over pages ends where its bound is a page or more.
step_pages-some :
    (fuel i bound : ℕ)
    → 4096 ≤ bound
    → i < 4294967296
    → i < bound + 4096 * fuel
    → (j : ℕ) × (step_pages (suc fuel) i bound ≡ some j)
step_pages-some zero i bound page small enough = (i, step_pages-below zero i bound (ground arith))
step_pages-some (suc fuel) i bound page small enough = elim (Bool-cases (leb bound i)) [
  | inr below ↦ (i, step_pages-below (suc fuel) i bound below)
  | inl above ↦
      (let (j, ended) =
          step_pages-some fuel (sub32 i 0x1000) bound page (omega arith) (ground arith) in
        (j, step_pages-above (suc fuel) i bound above ∙ ended))
]

module _ (old_sp initial offset : ℕ) where
  relocate_word-at :
      (i : ℕ) (m : Bytes)
      → load32 (relocate_word old_sp initial offset i m) i
        ≡ relocated old_sp initial offset (load32 m i)
  unfolding relocate_word
  relocate_word-at i m = elim (Bool-cases (ltb old_sp (load32 m i) && ltb (load32 m i) initial)) [
    | inl moves ↦ rw moves (load32-store32 i (u32 (load32 m i + offset)) m (omega arith))
    | inr stays ↦ rw stays refl
  ]

  relocate_word-outside :
      (i x : ℕ) (m : Bytes)
      → (x < i) ⊎ (i + 4 ≤ x)
      → relocate_word old_sp initial offset i m x ≡ m x
  unfolding relocate_word
  relocate_word-outside i x m out =
      elim (Bool-cases (ltb old_sp (load32 m i) && ltb (load32 m i) initial)) [
        | inl moves ↦ rw moves (store32-outside i _ x m out)
        | inr stays ↦ rw stays refl
      ]

  -- The words above `bound`, n of them, have been relocated, and no other byte has changed.
  record Relocated (bound n : ℕ) (m r : Bytes) : Type 0 where
    words :
        (k : ℕ)
        → k < n
        → load32 r (bound + 4 * k + 4)
          ≡ relocated old_sp initial offset (load32 m (bound + 4 * k + 4))
    rest : (x : ℕ) → (x < bound + 4) ⊎ (bound + 4 * n + 4 ≤ x) → r x ≡ m x

  relocate-stops :
      (bound fuel i : ℕ) (m : Bytes)
      → ltb bound i ≡ false
      → relocate old_sp initial offset bound (suc fuel) i m ≡ some m
  unfolding relocate
  relocate-stops bound fuel i m over = rw (relocate, over) refl

  relocate-goes_on :
      (bound fuel i : ℕ) (m : Bytes)
      → ltb bound i ≡ true
      → relocate old_sp initial offset bound (suc fuel) i m
        ≡ relocate old_sp initial offset bound fuel
            (sub32 i 4)
            (relocate_word old_sp initial offset i m)
  unfolding relocate
  relocate-goes_on bound fuel i m more = rw (relocate, more) refl

  Relocated-more :
      (bound n i : ℕ) (m r : Bytes)
      → i ≡ bound + 4 * suc n
      → Relocated bound n (relocate_word old_sp initial offset i m) r
      → Relocated bound (suc n) m r
  Relocated-more bound n i m r at w = record {
    words = λ k lt. elim (Bool-cases (k == n)) [
      | inl e ↦
          (let last : bound + 4 * k + 4 ≡ i = ground (arith, e) in
            subst (λ a. load32 r a ≡ relocated old_sp initial offset (load32 m a)) (sym last)
              (load32-same i r first (λ x ge lx. w.rest x (inr (omega arith)))
                ∙ relocate_word-at i m))
      | inr ne ↦
          w.words k (ground (arith, ne))
          ∙ ap (relocated old_sp initial offset) (
              load32-same (bound + 4 * k + 4) first m
                (λ x ge lx. relocate_word-outside i x m (inl (ground (arith, ne)))))
    ];
    rest =
        λ x out. w.rest x (ground (arith, out)) ∙ relocate_word-outside i x m (ground (arith, out));
  }
    where
      first : Bytes
      first = relocate_word old_sp initial offset i m

  relocate-Relocated :
      (bound n fuel i : ℕ) (m : Bytes)
      → i ≡ bound + 4 * n
      → i < 4294967296
      → n < fuel
      → (r : Bytes) × (relocate old_sp initial offset bound fuel i m ≡ some r)
        × Relocated bound n m r
  relocate-Relocated bound n zero i m at small enough = absurd (omega arith)
  relocate-Relocated bound zero (suc fuel) i m at small enough = (
    m,
    relocate-stops bound fuel i m (ground arith),
    record { words = λ k lt. absurd (omega arith); rest = λ x out. refl },
  )
  relocate-Relocated bound (suc n) (suc fuel) i m at small enough =
      let (r, ran, w) =
        relocate-Relocated bound n fuel (sub32 i 4) (relocate_word old_sp initial offset i m)
          (omega arith) (omega arith) (omega arith) in
      (r, relocate-goes_on bound fuel i m (ground arith) ∙ ran, Relocated-more bound n i m r at w)

-- Where the old stack lies, and where the new one goes: all in words, with room for the old one and
-- a word more, and apart from it.
pub record IsMove (new size old_sp initial : ℕ) : Type 0 where
  pub ordered : old_sp ≤ initial
  pub fits : initial - old_sp < size
  pub above_page : size + 4096 ≤ new
  pub below_end : new + 4 ≤ 4294967296
  pub initial_small : initial < 4294967296
  pub words : (old_sp % 4 ≡ 0) × (initial % 4 ≡ 0) × (new % 4 ≡ 0) × (size % 4 ≡ 0)
  pub apart : (new + 4 ≤ old_sp) ⊎ (initial + size ≤ new)

-- What `move_stack` leaves behind: the pointers are moved with the stack, each word of the old
-- stack stands at the same depth of the new one, moved itself where it points strictly between the
-- old pointer and the old start, and no byte outside of the new stack and the word above it has
-- changed.
pub record StackMoved (new size old_sp old_bp initial : ℕ) (m : Bytes) (r : Stacked) : Type 0 where
  pub pointer : r.stack_pointer + (initial - old_sp) ≡ new
  pub base : r.base_pointer ≡ u32 (old_bp + sub32 new initial)
  pub copied :
      (k : ℕ)
      → 4 * k < initial - old_sp
      → load32 r.memory (r.stack_pointer + 4 * k)
        ≡ relocated old_sp initial (sub32 new initial) (load32 m (old_sp + 4 * k))
  pub others : (x : ℕ) → (x < new - size + 4) ⊎ (new + 4 ≤ x) → r.memory x ≡ m x

move_stack-runs :
    (fuel new size old_sp old_bp initial i : ℕ) (m n : Bytes)
    → step_pages fuel new (sub32 new size) ≡ some i
    → relocate old_sp initial
        (sub32 new initial)
        (sub32 new size)
        fuel
        new
        (memcpy (u32 (old_sp + sub32 new initial)) old_sp (sub32 initial old_sp) m).1
      ≡ some n
    → move_stack fuel new size old_sp old_bp initial m
      ≡ some (record {
        stack_pointer = u32 (old_sp + sub32 new initial);
        base_pointer = u32 (old_bp + sub32 new initial);
        memory = n;
      })
unfolding move_stack
move_stack-runs fuel new size old_sp old_bp initial i m n pages ran =
    rw (move_stack, pages, ran) refl

module _ (new size old_sp old_bp initial : ℕ) (m : Bytes)
    (move : IsMove new size old_sp initial) where
  offset : ℕ
  offset = sub32 new initial

  new_sp : ℕ
  new_sp = u32 (old_sp + offset)

  copy : Bytes
  copy = (memcpy new_sp old_sp (sub32 initial old_sp) m).1

  bound : ℕ
  bound = sub32 new size

  new_sp_lem : new_sp + (initial - old_sp) ≡ new
  unfolding new_sp offset
  new_sp_lem = omega (arith, move)

  length_lem : sub32 initial old_sp ≡ initial - old_sp
  length_lem = omega (arith, move)

  copies :
      ((k : ℕ) → k < sub32 initial old_sp → copy (new_sp + k) ≡ m (old_sp + k))
      × ((x : ℕ) → (x < new_sp) ⊎ (new_sp + sub32 initial old_sp ≤ x) → copy x ≡ m x)
  unfolding copy
  copies =
      memcpy-copies new_sp old_sp (sub32 initial old_sp) m (
        ground
          (arith, move.apart, move.ordered, move.fits, move.above_page, length_lem, new_sp_lem))

  copy-copied :
      (k : ℕ) → 4 * k < initial - old_sp → load32 copy (new_sp + 4 * k) ≡ load32 m (old_sp + 4 * k)
  copy-copied k lt = load32-copied (new_sp + 4 * k) (old_sp + 4 * k) copy m (λ d ld.
      let here : new_sp + 4 * k + d ≡ new_sp + (4 * k + d) = omega arith in
      let there : old_sp + (4 * k + d) ≡ old_sp + 4 * k + d = omega arith in
      ap copy here ∙ copies.0 (4 * k + d) (omega (arith, length_lem, move.words, lt)) ∙ ap m there)

  copy-outside : (x : ℕ) → (x < new - size + 4) ⊎ (new + 4 ≤ x) → copy x ≡ m x
  copy-outside x out =
      copies.1 x
        (ground (arith, out, length_lem, new_sp_lem, move.words, move.fits, move.above_page))

  moved-StackMoved :
      (r : Bytes)
      → Relocated old_sp initial offset bound (size / 4) copy r
      → StackMoved new size old_sp old_bp initial m
          (record { stack_pointer = new_sp; base_pointer = u32 (old_bp + offset); memory = r })
  unfolding bound offset
  moved-StackMoved r w = record {
    pointer = new_sp_lem;
    base = refl;
    copied = λ k lt.
        let j : ℕ = size / 4 - (initial - old_sp) / 4 + k - 1 in
        let at : bound + 4 * j + 4 ≡ new_sp + 4 * k =
          omega (arith, new_sp_lem, move.words, move.fits, move.above_page, move.below_end, lt) in
        subst (λ a. load32 r a ≡ relocated old_sp initial offset (load32 copy a)) at
          (w.words j (omega (arith, move.words, move.fits, lt)))
        ∙ ap (relocated old_sp initial offset) (copy-copied k lt);
    others = λ x out.
        w.rest x (ground (arith, out, move.words, move.above_page, move.below_end))
        ∙ copy-outside x out;
  }

-- For a move of whole words between stacks that lie apart, where the new one has room for a word
-- more than the old one holds and starts a page or more above its size, `move_stack` ends with
-- more fuel than `size` and 2^20, and leaves the new stack as `StackMoved` says.
pub move_stack-StackMoved :
    (fuel new size old_sp old_bp initial : ℕ) (m : Bytes)
    → IsMove new size old_sp initial
    → size < fuel
    → 1048576 < fuel
    → (r : Stacked) × (move_stack fuel new size old_sp old_bp initial m ≡ some r)
      × StackMoved new size old_sp old_bp initial m r
unfolding copy bound offset new_sp
move_stack-StackMoved (suc fuel) new size old_sp old_bp initial m move enough pages =
    let (i, stepped) =
      step_pages-some fuel new (sub32 new size) (omega (arith, move)) (omega (arith, move))
        (omega (arith, move)) in
    let (r, ran, w) =
      relocate-Relocated old_sp initial (sub32 new initial) (sub32 new size) (size / 4) (suc fuel)
        new (copy new size old_sp old_bp initial m move) (omega (arith, move)) (omega (arith, move))
        (omega arith) in
    (
      record {
        stack_pointer = u32 (old_sp + sub32 new initial);
        base_pointer = u32 (old_bp + sub32 new initial);
        memory = r;
      },
      move_stack-runs (suc fuel) new size old_sp old_bp initial i m r stepped ran,
      moved-StackMoved new size old_sp old_bp initial m move r w,
    )
move_stack-StackMoved zero new size old_sp old_bp initial m move enough pages = absurd (omega arith)

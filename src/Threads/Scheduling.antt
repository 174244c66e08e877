-- ===== src/Threads/Scheduling.antt =====
-- `change_thread` picks the next scheduled thread in cyclic order.
pub mod Fairness
use test_kernel.Base.{
  ℕ, zero, suc, ◌+◌, ◌-◌, ◌*◌, ◌/◌, ◌%◌, ◌≤◌, ◌<◌, ◌≡◌, ◌≢◌, ◌⊎◌, inl, inr, refl, ap, sym, subst,
  ◌∙◌, Bool, true, false, Option, none, some, arith, Bool-cases, update, not, if◌then◌else◌, ◌==◌,
}
use native.Mathlib.Nat.{mod-add-mod, mod-lt, mod-eq_of_lt, add-mod_right}
use native.Mathlib.Decide.{dec_lt}
use test_kernel.Threads.{Thread, Kernel, next_scheduled, change_thread}

-- `j` is the first scheduled index after `i`, counted round the table; it is `distance` steps away.
pub record IsNext (threads : ℕ → Thread) (count i bound j : ℕ) : Type 0 where
  pub distance : ℕ
  pub positive : 0 < distance
  pub within : distance ≤ bound
  pub reached : (i + distance) % count ≡ j
  pub chosen : (threads j).is_under_sheduling ≡ true
  pub skipped :
      (e : ℕ) → 0 < e → e < distance → (threads ((i + e) % count)).is_under_sheduling ≡ false

step_around : (count i e : ℕ) → 0 < e → ((i + 1) % count + (e - 1)) % count ≡ (i + e) % count
step_around count i e pos =
    mod-add-mod (i + 1) count (e - 1) ∙ ap (λ (t : ℕ). t % count) (omega arith)

module _ (threads : ℕ → Thread) (count : ℕ) where
  -- A search from the next index goes on from this one, if this one is not scheduled.
  IsNext-earlier :
      {i bound j : ℕ}
      → (threads ((i + 1) % count)).is_under_sheduling ≡ false
      → IsNext threads count ((i + 1) % count) bound j
      → IsNext threads count i (suc bound) j
  IsNext-earlier {i} off n = record {
    distance = suc n.distance;
    positive = omega arith;
    within = omega (arith, n.within);
    reached =
        sym (step_around count i (suc n.distance) (omega arith))
        ∙ (λ k. ((i + 1) % count + before k) % count)
        ∙ n.reached;
    chosen = n.chosen;
    skipped = λ e pos lt. elim (dec_lt 1 e) [
      | yes far ↦ rw (← step_around count i e pos) (n.skipped (e - 1) (omega arith) (omega arith))
      | no near ↦
          subst (λ k. (threads ((i + k) % count)).is_under_sheduling ≡ false)
            (let one : 1 ≡ e = omega arith in one) off
    ];
  }
    where
      before : suc n.distance - 1 ≡ n.distance
      before = omega arith

  -- With a scheduled index at most `fuel` steps ahead the loop finds the first one.
  next_scheduled-finds :
      (fuel i e : ℕ)
      → 0 < e
      → e ≤ fuel
      → (threads ((i + e) % count)).is_under_sheduling ≡ true
      → (j : ℕ) × (next_scheduled threads count fuel i ≡ some j) × IsNext threads count i fuel j
  unfolding next_scheduled
  next_scheduled-finds zero i e pos le h = absurd (omega arith)
  next_scheduled-finds (suc fuel) i e pos le h =
      elim (Bool-cases (threads ((i + 1) % count)).is_under_sheduling) [
        | inl on ↦ (
          (i + 1) % count,
          rw on,
          record {
            distance = 1;
            positive = omega arith;
            within = omega arith;
            reached = refl;
            chosen = on;
            skipped = λ f pos lt. absurd (omega arith);
          },
        )
        | inr off ↦
            let further : 1 < e = not_one off in
            let rest =
              next_scheduled-finds fuel ((i + 1) % count) (e - 1) (omega arith) (omega arith)
                (rw (step_around count i e pos) h) in
            (rest.0, rw off rest.1, IsNext-earlier off rest.2)
      ]
    where
      not_one : (threads ((i + 1) % count)).is_under_sheduling ≡ false → 1 < e
      not_one off = elim (dec_lt 1 e) [
        | yes lt ↦ lt
        | no le1 ↦
            let one : e ≡ 1 = omega arith in
            let on : (threads ((i + 1) % count)).is_under_sheduling ≡ true =
              subst (λ k. (threads ((i + k) % count)).is_under_sheduling ≡ true) one h in
            cc
      ]

-- No scheduled thread: the loop does not end, whatever the fuel.
next_scheduled-none :
    (threads : ℕ → Thread) (count fuel i : ℕ)
    → 0 < count
    → ((j : ℕ) → j < count → (threads j).is_under_sheduling ≡ false)
    → next_scheduled threads count fuel i ≡ none
unfolding next_scheduled
next_scheduled-none threads count zero i pos h = refl
next_scheduled-none threads count (suc fuel) i pos h =
    rw (h ((i + 1) % count) (mod-lt (i + 1) pos))
      (next_scheduled-none threads count fuel ((i + 1) % count) pos h)

-- What one `change_thread` does: it stores `regs` with the old thread, changes no other field of
-- the table, moves on to the next scheduled thread, and returns the stack pointer that is stored
-- there.
pub record Switched (regs : ℕ) (k : Kernel) (new_regs : ℕ) (n : Kernel) : Type 0 where
  pub stored :
      n.threads
      ≡ update k.threads k.curr_thread_index
          (record (k.threads k.curr_thread_index) { stack_ptr = regs })
  pub next :
      IsNext n.threads k.curr_threads_count k.curr_thread_index k.curr_threads_count
        n.curr_thread_index
  pub restored : new_regs ≡ (n.threads n.curr_thread_index).stack_ptr
  pub same_count : n.curr_threads_count ≡ k.curr_threads_count
  pub still_enabled : n.threading_enabled ≡ true
  pub same_frames : n.frames ≡ k.frames

-- Storing the stack pointer changes no flag.
pub flags_kept :
    (k : Kernel) (regs j : ℕ)
    → (update k.threads k.curr_thread_index
        (record (k.threads k.curr_thread_index) { stack_ptr = regs })
        j).is_under_sheduling
      ≡ (k.threads j).is_under_sheduling
flags_kept k regs j = ground arith

-- The number of steps, from 1 to `count`, that lead from `c` to `i` round the table.
pub steps_to :
    (count c i : ℕ)
    → c < count
    → i < count
    → (e : ℕ) × (0 < e) × (e ≤ count) × ((c + e) % count ≡ i)
steps_to count c i hc hi = elim (dec_lt c i) [
  | yes ahead ↦ (i - c, omega arith, omega arith, around (c + (i - c)) (inl (omega arith)))
  | no behind ↦
      (i + count - c, omega arith, omega arith, around (c + (i + count - c)) (inr (omega arith)))
]
  where
    around : (t : ℕ) → (t ≡ i) ⊎ (t ≡ i + count) → t % count ≡ i
    around t (inl e) = rw e (mod-eq_of_lt hi)
    around t (inr e) = rw e (add-mod_right i count ∙ mod-eq_of_lt hi)

module _ (regs : ℕ) (k : Kernel) (enabled : k.threading_enabled ≡ true) where
  abbrev stored_threads : ℕ → Thread
  stored_threads =
      update k.threads k.curr_thread_index
        (record (k.threads k.curr_thread_index) { stack_ptr = regs })

  change_thread-some :
      (j : ℕ)
      → next_scheduled stored_threads k.curr_threads_count k.curr_threads_count k.curr_thread_index
        ≡ some j
      → change_thread k.curr_threads_count regs k
        ≡ some (
          (stored_threads j).stack_ptr,
          record k { threads = stored_threads; curr_thread_index = j },
        )
  unfolding change_thread
  change_thread-some j h = ground arith

  change_thread-none :
      (fuel : ℕ)
      → next_scheduled stored_threads k.curr_threads_count fuel k.curr_thread_index ≡ none
      → change_thread fuel regs k ≡ none
  unfolding change_thread
  change_thread-none fuel h = ground arith

  -- With a scheduled thread `e` steps ahead, `count` rounds of the loop are enough.
  pub change_thread-ahead :
      (e : ℕ)
      → 0 < e
      → e ≤ k.curr_threads_count
      → (k.threads ((k.curr_thread_index + e) % k.curr_threads_count)).is_under_sheduling ≡ true
      → (r : ℕ) × (n : Kernel) × (change_thread k.curr_threads_count regs k ≡ some (r, n))
        × Switched regs k r n
  change_thread-ahead e pos le on = (
    (stored_threads j).stack_ptr,
    record k { threads = stored_threads; curr_thread_index = j },
    change_thread-some j found.1,
    record {
      stored = refl;
      next = found.2;
      restored = refl;
      same_count = refl;
      still_enabled = enabled;
      same_frames = refl;
    },
  )
    where
      found :
          (j : ℕ) × (next_scheduled stored_threads k.curr_threads_count k.curr_threads_count
              k.curr_thread_index
            ≡ some j)
          × IsNext stored_threads k.curr_threads_count k.curr_thread_index k.curr_threads_count j
      found =
          next_scheduled-finds stored_threads k.curr_threads_count k.curr_threads_count
            k.curr_thread_index e pos le (flags_kept k regs _ ∙ on)

      j : ℕ
      j = found.0

  -- While threading is enabled and some thread of the table is scheduled, `change_thread` returns:
  -- it stores `regs` with the old thread, moves on to the next scheduled thread in cyclic order and
  -- returns that thread's stored stack pointer.
  pub change_thread-Switched :
      (i : ℕ)
      → i < k.curr_threads_count
      → k.curr_thread_index < k.curr_threads_count
      → (k.threads i).is_under_sheduling ≡ true
      → (r : ℕ) × (n : Kernel) × (change_thread k.curr_threads_count regs k ≡ some (r, n))
        × Switched regs k r n
  change_thread-Switched i hi hc on =
      let (e, pos, le, at) = steps_to k.curr_threads_count k.curr_thread_index i hc hi in
      change_thread-ahead e pos le (rw at on)

  -- With no thread scheduled the loop of `change_thread` never ends, whatever the fuel.
  pub change_thread_hangs :
      (fuel : ℕ)
      → ((i : ℕ) → i < k.curr_threads_count → (k.threads i).is_under_sheduling ≡ false)
      → 0 < k.curr_threads_count
      → change_thread fuel regs k ≡ none
  change_thread_hangs fuel off pos = change_thread-none fuel (
      next_scheduled-none stored_threads k.curr_threads_count fuel k.curr_thread_index pos
        (λ i hi. flags_kept k regs i ∙ off i hi))

-- `n` timer interrupts in a row; `regs` is what lies on the stack of the thread that is
-- interrupted.
pub switches : (regs : Kernel → ℕ) → ℕ → Kernel → Option Kernel
switches regs zero k = some k
switches regs (suc n) k = elim (change_thread k.curr_threads_count (regs k) k) [
  | none ↦ none
  | some (r, k') ↦ switches regs n k'
]

-- ===== src/Sync/Semaphore/Interleaved/Lock.antt =====
-- TestKernel1/src/arch/ia32/semaphore.c between threads: when the spin lock is taken.
use test_kernel.Base.{
  ℕ, ◌+◌, ◌-◌, ◌<◌, ◌≤◌, ◌≡◌, ◌⊎◌, inl, inr, refl, sym, ap, ◌∙◌, subst, arith, Bool, true, false,
  Option, none, some, Bool-cases, ◌==◌, ==_iff, signed_lt, sub32, update, update-same,
}
use test_kernel.Threads.{slock_release, slock_init}
use test_kernel.Sync.{Memory}
use test_kernel.Sync.Ownership.{Exclusive, LockEffect, captures, releases, passes, abandons}
use test_kernel.Sync.Semaphore.{Semaphore, new_semaphore}
use test_kernel.Sync.Semaphore.Interleaved.{
  Pc, outside, wait_body, release_body, release_wake, takes, gives, entered, wait_test,
  release_test, advance, System, current, moved, Step, calls, moves, others, begun, Reach, here,
  later,
}
use test_kernel.Sync.Semaphore.Interleaved.Counts.{
  inside, Moves, advance-Moves, Reach-IsSound, entered-outside, semaphore-counts,
}
use test_kernel.Sync.Semaphore.Interleaved.Jam.{
  Jammed, Step-Jammed, release_body-short, left-Jammed, stays-outside,
}

-- The lock is free; or a thread is in a critical section; or the lock is taken, no thread is in
-- one, and `capacity` units are taken and not given back.
abbrev LockState : (capacity : ℕ) → System → Type 0
LockState capacity s =
    (s.semaphore.spinlock ≡ 0)
    ⊎ (((t : ℕ) × (inside (s.pcs t) ≡ true))
        ⊎ ((s.semaphore.spinlock ≡ 1)
            × ((t : ℕ) → inside (s.pcs t) ≡ false)
            × (s.taken ≡ s.given + capacity)))

-- A thread that finds the lock free and is not inside enters, or the lock stays free.
free-LockEffect :
    (before after : Bool) (l l2 : ℕ)
    → before ≡ false
    → l ≡ 0
    → LockEffect before after l l2
    → (l2 ≡ 0) ⊎ (after ≡ true)
free-LockEffect before after l l2 off free (captures a b c d) = inr b
free-LockEffect before after l l2 off free (releases a b c) = absurd (ground (arith, a, off))
free-LockEffect before after l l2 off free (passes a b c) = inl (c ∙ free)
free-LockEffect before after l l2 off free (abandons a b c) = absurd (ground (arith, a, off))

wait_test-frees : (o : Semaphore) (m : Memory) → o.spinlock ≡ 1 → (wait_test o m).1.spinlock ≡ 0
unfolding wait_test slock_release
wait_test-frees o m one = elim (Bool-cases (signed_lt o.counter o.max)) [
  | inl room ↦ rw (room, one) refl
  | inr full ↦ rw (full, one) refl
]

release_body-frees :
    (entry : ℕ) (o : Semaphore) (m : Memory)
    → o.spinlock ≡ 1
    → signed_lt o.counter o.min ≡ false
    → (n : Semaphore) × (advance entry release_body o m ≡ some (release_wake, n, m))
      × (n.spinlock ≡ 0)
unfolding advance release_test slock_release
release_body-frees entry o m one enough = (
  record o { counter = sub32 o.counter 1; spinlock = slock_release o.spinlock },
  rw enough refl,
  rw one refl,
)

module _ (max min : ℕ) (m : Memory) (le : min ≤ max) (small : max < 2147483648) (s : System)
    (r : Reach (begun max min m) s) where
  abbrev LockIf : Option (Pc × Semaphore × Memory) → Type 0
  LockIf none = Unit
  LockIf (some (p, sem, k)) = LockState (max - min + 1) (moved (current s) s p sem k)

  all_taken :
      signed_lt s.semaphore.counter s.semaphore.min ≡ true → s.taken ≡ s.given + (max - min + 1)
  all_taken short =
      let w = Reach-IsSound max min m le small r in
      let c = w.counts in ground (arith, c, rw w.min_kept at short, le)

  taken_inside : inside (s.pcs (current s)) ≡ true → s.semaphore.spinlock ≡ 1
  taken_inside i = (Reach-IsSound max min m le small r).exclusive.taken (current s) i

  left_short :
      s.pcs (current s) ≡ release_body
      → signed_lt s.semaphore.counter s.semaphore.min ≡ true
      → (s.semaphore.spinlock ≡ 1)
        × ((u : ℕ) → inside (update s.pcs (current s) outside u) ≡ false)
        × (s.taken + takes (s.pcs (current s)) outside
            ≡ s.given + gives (s.pcs (current s)) outside + (max - min + 1))
  left_short at short =
      let j = left-Jammed max min m s le small r at in
      (j.lock, j.nobody_inside, omega (arith, j.taken_kept, j.given_kept, all_taken short))

  -- The thread that is inside leaves.
  leave-LockState :
      (entry : ℕ) (pc : Pc)
      → s.pcs (current s) ≡ pc
      → inside pc ≡ true
      → LockIf (advance entry pc s.semaphore s.memory)
  unfolding advance
  leave-LockState entry wait_body at i =
      inl (wait_test-frees s.semaphore s.memory (taken_inside (ap inside at)))
  leave-LockState entry release_body at i =
      elim (Bool-cases (signed_lt s.semaphore.counter s.semaphore.min)) [
        | inl short ↦
            subst LockIf (sym (release_body-short entry s.semaphore s.memory short))
              (inr (inr (left_short at short)))
        | inr enough ↦
            (let (n, ran, free) =
                release_body-frees entry s.semaphore s.memory (taken_inside (ap inside at))
                  enough in
              subst LockIf (sym ran) (inl free))
      ]
  leave-LockState entry _ at i = absurd (ground (arith, i))

  -- The current thread is not inside, and another one stays inside.
  stays_inside :
      (p : Pc) (u : ℕ)
      → inside (s.pcs (current s)) ≡ false
      → inside (s.pcs u) ≡ true
      → inside (update s.pcs (current s) p u) ≡ true
  stays_inside p u off i = elim (Bool-cases (u == current s)) [
    | inl e ↦
        absurd (ground (arith, i, off, ap (λ v. inside (s.pcs v)) ((==_iff u (current s)).0 e)))
    | inr e ↦ rw e i
  ]

  Step-LockState :
      {n : System} → Step s n → LockState (max - min + 1) s → LockState (max - min + 1) n
  Step-LockState (calls f out) (inl free) = inl free
  Step-LockState (calls f out) (inr (inl (u, i))) =
      inr (inl (u, stays_inside (entered f) u (ap inside out) i))
  Step-LockState (calls f out) (inr (inr (lock, none_in, full))) =
      inr
        (inr (lock, stays-outside s.pcs (current s) (entered f) (entered-outside f) none_in, full))
  Step-LockState (others k q) w = w
  Step-LockState (moves entry p sem k went) (inl free) =
      elim (Bool-cases (inside (s.pcs (current s)))) [
        | inl i ↦ absurd (omega (arith, free, taken_inside i))
        | inr off ↦
            elim (free-LockEffect (inside (s.pcs (current s))) (inside p) s.semaphore.spinlock
              sem.spinlock off free
              (subst (Moves (s.pcs (current s)) s.semaphore) went
                (advance-Moves entry (s.pcs (current s)) s.semaphore s.memory)).lock) [
                  | inl still ↦ inl still
                  | inr i ↦ inr (inl (current s, ap inside (update-same s.pcs (current s) p) ∙ i))
                ]
      ]
  Step-LockState (moves entry p sem k went) (inr (inl (u, i))) =
      elim (Bool-cases (inside (s.pcs (current s)))) [
        | inl own ↦ subst LockIf went (leave-LockState entry (s.pcs (current s)) refl own)
        | inr off ↦ inr (inl (u, stays_inside p u off i))
      ]
  Step-LockState (moves entry p sem k went) (inr (inr (lock, none_in, full))) =
      let j : Jammed s.taken s.given (moved (current s) s p sem k) =
        Step-Jammed s.taken s.given (moves entry p sem k went)
          (record { lock = lock; nobody_inside = none_in; taken_kept = refl; given_kept = refl }) in
      inr (inr (j.lock, j.nobody_inside, omega (arith, full, j.taken_kept, j.given_kept)))

Reach-LockState :
    (max min : ℕ) (m : Memory)
    → min ≤ max
    → max < 2147483648
    → {s : System} → Reach (begun max min m) s
    → LockState (max - min + 1) s
unfolding new_semaphore slock_init
Reach-LockState max min m le small here = inl refl
Reach-LockState max min m le small (later {n} r st) =
    Step-LockState max min m le small n r st (Reach-LockState max min m le small r)

-- For 0 ≤ min ≤ max < 2^31, in every state that threads reach which call a new semaphore through
-- its table in any order, with any switches between them: what is given back has been taken, at
-- most max - min + 1 units are taken and not given back, the counter is max less these, and at
-- most one thread is in a critical section of the spin lock, which is then taken. The lock is
-- free, or a thread is in a critical section, or the lock is taken by none and all max - min + 1
-- units are taken.
pub semaphore_lock :
    (max min : ℕ) (m : Memory) (s : System)
    → min ≤ max
    → max < 2147483648
    → Reach (begun max min m) s
    → (s.given ≤ s.taken)
      × (s.taken ≤ s.given + (max - min + 1))
      × (s.semaphore.counter ≡ sub32 (max + s.given) s.taken)
      × Exclusive (λ t. inside (s.pcs t)) s.semaphore.spinlock
      × ((s.semaphore.spinlock ≡ 0)
          ⊎ (((t : ℕ) × (inside (s.pcs t) ≡ true))
              ⊎ ((s.semaphore.spinlock ≡ 1)
                  × ((t : ℕ) → inside (s.pcs t) ≡ false)
                  × (s.taken ≡ s.given + (max - min + 1)))))
semaphore_lock max min m s le small r =
    let (back, most, counter, exclusive) = semaphore-counts max min m s le small r in
    (back, most, counter, exclusive, Reach-LockState max min m le small r)

-- ===== src/Sync/Semaphore/Interleaved/Counts.antt =====
-- TestKernel1/src/arch/ia32/semaphore.c between threads: what the counter counts.
use test_kernel.Base.{
  ℕ, ◌+◌, ◌-◌, ◌<◌, ◌≤◌, ◌≡◌, refl, sym, ap, ◌∙◌, subst, Bool, true, false, Option, none, some,
  arith, Bool-cases, inl, inr, ◌==◌, ==_iff, signed_lt, u32, sub32, update, update-ne, update-same,
}
use test_kernel.Threads.{slock_capture}
use test_kernel.Threads.Queue.{SleepQueue}
use test_kernel.Sync.{Memory}
use test_kernel.Sync.Ownership.{
  Exclusive, LockEffect, captures, releases, passes, abandons, Exclusive-LockEffect,
}
use test_kernel.Sync.Semaphore.{Semaphore, new_semaphore}
use test_kernel.Sync.Semaphore.Interleaved.{
  Pc, outside, wait_capture, wait_body, wait_queue, wait_spin, release_capture, release_body,
  release_wake, capture, wait_test, release_test, queued, advance, Field, entered, takes, gives,
  System, current, Step, calls, moves, others, begun, Reach, here, later,
}

-- Inside a critical section of `sem->spinlock`.
abbrev pub inside : Pc → Bool
inside wait_body = true
inside release_body = true
inside _ = false

-- The counter is `max` less what is taken and not given back, and lies between min - 1 and max.
abbrev pub Counts : (max min counter taken given : ℕ) → Type 0
Counts max min counter taken given =
    (counter < 4294967296)
    × (min ≤ u32 (counter + 1))
    × (u32 (counter + 1) ≤ max + 1)
    × (u32 (counter + 1) + taken ≡ max + 1 + given)

module _ (max min : ℕ) (le : min ≤ max) (small : max < 2147483648) where
  take-Counts :
      (c taken given : ℕ)
      → signed_lt c min ≡ false
      → Counts max min c taken given
      → Counts max min (sub32 c 1) (taken + 1) (given + 0)
  take-Counts c taken given enough w = (ground arith, ground arith, ground arith, ground arith)

  give-Counts :
      (c taken given : ℕ)
      → signed_lt c max ≡ true
      → Counts max min c taken given
      → Counts max min (u32 (c + 1)) (taken + 0) (given + 1)
  give-Counts c taken given room w = (ground arith, ground arith, ground arith, ground arith)

-- The bounds stay, and the counts hold on.
pub record Effect (pc p : Pc) (o n : Semaphore) : Type 0 where
  pub max : n.max ≡ o.max
  pub min : n.min ≡ o.min
  pub lock : LockEffect (inside pc) (inside p) o.spinlock n.spinlock
  pub counts :
      (taken given : ℕ)
      → o.min ≤ o.max
      → o.max < 2147483648
      → Counts o.max o.min o.counter taken given
      → Counts o.max o.min n.counter (taken + takes pc p) (given + gives pc p)

abbrev pub Moves : Pc → Semaphore → Option (Pc × Semaphore × Memory) → Type 0
Moves pc o none = Unit
Moves pc o (some (p, n, m)) = Effect pc p o n

-- A step that does not touch the counter.
abbrev IsQuiet : Pc → Pc → Type 0
IsQuiet pc p = (takes pc p ≡ 0) × (gives pc p ≡ 0)

same-Effect :
    (pc p : Pc) (o n : Semaphore)
    → IsQuiet pc p
    → n.max ≡ o.max
    → n.min ≡ o.min
    → n.counter ≡ o.counter
    → LockEffect (inside pc) (inside p) o.spinlock n.spinlock
    → Effect pc p o n
same-Effect pc p o n (t, g) a b c l = record {
  max = a;
  min = b;
  lock = l;
  counts = λ taken given le small w. rw (t, g, c) (omega (arith, w));
}

capture-Moves :
    (pc p : Pc) (o : Semaphore) (m : Memory)
    → IsQuiet pc p
    → inside pc ≡ false
    → inside p ≡ true
    → Moves pc o (capture p o m)
unfolding capture slock_capture
capture-Moves pc p o m quiet a b = elim (Bool-cases (o.spinlock == 0)) [
  | inl e ↦
      rw (Moves, e)
        (same-Effect pc p o (record o { spinlock = 1 }) quiet refl refl refl
          (captures a b ((==_iff o.spinlock 0).0 e) refl))
  | inr e ↦ rw (Moves, e) tt
]

queued-Moves :
    (pc p : Pc) (r : Option (SleepQueue × Memory)) (o : Semaphore)
    → IsQuiet pc p
    → inside pc ≡ false
    → inside p ≡ false
    → Moves pc o (queued p r o)
unfolding queued
queued-Moves pc p none o quiet a b = tt
queued-Moves pc p (some (q, m)) o quiet a b =
    same-Effect pc p o (record o { threads_queue = q }) quiet refl refl refl (passes a b refl)

wait_test-Moves : (o : Semaphore) (m : Memory) → Moves wait_body o (some (wait_test o m))
unfolding wait_test
wait_test-Moves o m = elim (Bool-cases (signed_lt o.counter o.max)) [
  | inl room ↦
      rw (Moves, room)
        record {
          max = refl;
          min = refl;
          lock = releases refl refl refl;
          counts = λ taken given le small w.
              give-Counts o.max o.min le small o.counter taken given room w;
        }
  | inr full ↦
      rw (Moves, full)
        (same-Effect wait_body wait_queue o _ (refl, refl) refl refl refl (releases refl refl refl))
]

release_test-Moves : (o : Semaphore) (m : Memory) → Moves release_body o (some (release_test o m))
unfolding release_test
release_test-Moves o m = elim (Bool-cases (signed_lt o.counter o.min)) [
  | inl short ↦
      rw (Moves, short)
        (same-Effect release_body outside o o (refl, refl) refl refl refl (abandons refl refl refl))
  | inr enough ↦
      rw (Moves, enough)
        record {
          max = refl;
          min = refl;
          lock = releases refl refl refl;
          counts = λ taken given le small w.
              take-Counts o.max o.min le small o.counter taken given enough w;
        }
]

spin-Moves :
    (entry : ℕ) (o : Semaphore) (m : Memory) → Moves wait_spin o (advance entry wait_spin o m)
unfolding advance
spin-Moves entry o m = elim (Bool-cases (o.counter == o.max)) [
  | inl full ↦ rw (Moves, full) tt
  | inr less ↦
      rw (Moves, less)
        (same-Effect wait_spin outside o o (refl, refl) refl refl refl (passes refl refl refl))
]

pub advance-Moves :
    (entry : ℕ) (pc : Pc) (o : Semaphore) (m : Memory) → Moves pc o (advance entry pc o m)
unfolding advance
advance-Moves entry outside o m = tt
advance-Moves entry wait_capture o m =
    capture-Moves wait_capture wait_body o m (refl, refl) refl refl
advance-Moves entry wait_body o m = wait_test-Moves o m
advance-Moves entry wait_queue o m = queued-Moves wait_queue wait_spin _ o (refl, refl) refl refl
advance-Moves entry wait_spin o m = spin-Moves entry o m
advance-Moves entry release_capture o m =
    capture-Moves release_capture release_body o m (refl, refl) refl refl
advance-Moves entry release_body o m = release_test-Moves o m
advance-Moves entry release_wake o m = queued-Moves release_wake outside _ o (refl, refl) refl refl

-- Every state that the threads reach.
pub record IsSound (max min : ℕ) (s : System) : Type 0 where
  pub max_kept : s.semaphore.max ≡ max
  pub min_kept : s.semaphore.min ≡ min
  pub counts : Counts max min s.semaphore.counter s.taken s.given
  pub exclusive : Exclusive (λ t. inside (s.pcs t)) s.semaphore.spinlock

-- A thread goes on to p, and no other moves.
goes-Exclusive :
    (pcs : ℕ → Pc) (t l l2 : ℕ) (p : Pc)
    → Exclusive (λ u. inside (pcs u)) l
    → LockEffect (inside (pcs t)) (inside p) l l2
    → Exclusive (λ u. inside (update pcs t p u)) l2
goes-Exclusive pcs t l l2 p w e =
    Exclusive-LockEffect (λ u. inside (pcs u)) (λ u. inside (update pcs t p u)) t l l2
      (λ u ne. ap inside (update-ne pcs t u p ne)) w
      (subst (λ b. LockEffect (inside (pcs t)) b l l2) (sym (ap inside (update-same pcs t p))) e)

pub entered-outside : (f : Field) → inside (entered f) ≡ false
entered-outside Field.wait = refl
entered-outside Field.release = refl

Step-IsSound :
    (max min : ℕ)
    → min ≤ max
    → max < 2147483648
    → {s n : System} → Step s n
    → IsSound max min s
    → IsSound max min n
Step-IsSound max min le small {s} (calls f out) w = record {
  max_kept = w.max_kept;
  min_kept = w.min_kept;
  counts = w.counts;
  exclusive =
      goes-Exclusive s.pcs (current s) _ _ (entered f) w.exclusive
        (passes (ap inside out) (entered-outside f) refl);
}
Step-IsSound max min le small {s} (moves entry p sem m went) w =
    let e : Effect (s.pcs (current s)) p s.semaphore sem =
      subst (Moves (s.pcs (current s)) s.semaphore) went
        (advance-Moves entry (s.pcs (current s)) s.semaphore s.memory) in
    let counted =
      e.counts s.taken s.given (omega (arith, le, w)) (omega (arith, small, w))
        (omega (arith, w)) in
    record {
      max_kept = e.max ∙ w.max_kept;
      min_kept = e.min ∙ w.min_kept;
      counts = omega (arith, counted, w);
      exclusive = goes-Exclusive s.pcs (current s) _ _ p w.exclusive e.lock;
    }
Step-IsSound max min le small (others m q) w = record {
  max_kept = w.max_kept;
  min_kept = w.min_kept;
  counts = w.counts;
  exclusive = w.exclusive;
}

begun-IsSound :
    (max min : ℕ) (m : Memory) → min ≤ max → max < 2147483648 → IsSound max min (begun max min m)
unfolding new_semaphore
begun-IsSound max min m le small = record {
  max_kept = refl;
  min_kept = refl;
  counts = omega arith;
  exclusive = record { one = λ t u h g. ground arith; taken = λ t h. ground arith };
}

pub Reach-IsSound :
    (max min : ℕ) (m : Memory)
    → min ≤ max
    → max < 2147483648
    → {s : System} → Reach (begun max min m) s
    → IsSound max min s
Reach-IsSound max min m le small here = begun-IsSound max min m le small
Reach-IsSound max min m le small (later r st) =
    Step-IsSound max min le small st (Reach-IsSound max min m le small r)

-- For 0 ≤ min ≤ max < 2^31, in every state that threads reach which call a new semaphore through
-- its table in any order, with any switches between them: what is given back has been taken, at
-- most max - min + 1 units are taken and not given back, the counter is max less these, and at
-- most one thread is in a critical section of the spin lock, which is then taken.
pub semaphore-counts :
    (max min : ℕ) (m : Memory) (s : System)
    → min ≤ max
    → max < 2147483648
    → Reach (begun max min m) s
    → (s.given ≤ s.taken)
      × (s.taken ≤ s.given + (max - min + 1))
      × (s.semaphore.counter ≡ sub32 (max + s.given) s.taken)
      × Exclusive (λ t. inside (s.pcs t)) s.semaphore.spinlock
semaphore-counts max min m s le small r =
    let w = Reach-IsSound max min m le small r in
    let c = w.counts in (omega (arith, c), omega (arith, c), omega (arith, c), w.exclusive)

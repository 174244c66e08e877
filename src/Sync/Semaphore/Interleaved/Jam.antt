-- ===== src/Sync/Semaphore/Interleaved/Jam.antt =====
-- TestKernel1/src/arch/ia32/semaphore.c between threads: a `release` that finds the counter below
-- `min`.
use test_kernel.Base.{
  ℕ, ◌+◌, ◌-◌, ◌<◌, ◌≤◌, ◌≡◌, refl, ap, ◌∙◌, subst, Bool, true, false, none, some, arith,
  Bool-cases, inl, inr, ◌==◌, signed_lt, update,
}
use test_kernel.Threads.{slock_capture}
use test_kernel.Sync.{Memory}
use test_kernel.Sync.Ownership.{LockEffect, captures, releases, passes, abandons}
use test_kernel.Sync.Semaphore.{Semaphore}
use test_kernel.Sync.Semaphore.Interleaved.{
  Pc, outside, wait_capture, wait_body, release_capture, release_body, capture, release_test,
  advance, entered, takes, gives, System, current, moved, Step, calls, moves, others, begun, Reach,
  here, later,
}
use test_kernel.Sync.Semaphore.Interleaved.Counts.{
  inside, Effect, Moves, advance-Moves, Reach-IsSound, entered-outside,
}

-- The lock is taken, and by no thread.
pub record Jammed (taken given : ℕ) (s : System) : Type 0 where
  pub lock : s.semaphore.spinlock ≡ 1
  pub nobody_inside : (t : ℕ) → inside (s.pcs t) ≡ false
  pub taken_kept : s.taken ≡ taken
  pub given_kept : s.given ≡ given

-- A thread that is not in a critical section takes nothing and gives nothing back.
quiet-outside : (pc p : Pc) → inside pc ≡ false → (takes pc p ≡ 0) × (gives pc p ≡ 0)
quiet-outside wait_body p h = absurd (ground (arith, h))
quiet-outside release_body p h = absurd (ground (arith, h))
quiet-outside _ p h = (refl, refl)

pub stays-outside :
    (pcs : ℕ → Pc) (t : ℕ) (p : Pc)
    → inside p ≡ false
    → ((u : ℕ) → inside (pcs u) ≡ false)
    → (u : ℕ) → inside (update pcs t p u) ≡ false
stays-outside pcs t p off none_in u = elim (Bool-cases (u == t)) [
  | inl e ↦ rw e off
  | inr e ↦ rw e (none_in u)
]

-- A step past a lock that is taken leaves it taken, and its thread outside.
taken-LockEffect :
    (before after : Bool) (l l2 : ℕ)
    → before ≡ false
    → l ≡ 1
    → LockEffect before after l l2
    → (after ≡ false) × (l2 ≡ 1)
taken-LockEffect before after l l2 off one (captures a b c d) = absurd (omega (arith, c, one))
taken-LockEffect before after l l2 off one (releases a b c) = absurd (ground (arith, a, off))
taken-LockEffect before after l l2 off one (passes a b c) = (b, c ∙ one)
taken-LockEffect before after l l2 off one (abandons a b c) = (b, c ∙ one)

pub Step-Jammed :
    (taken given : ℕ) {s n : System} → Step s n → Jammed taken given s → Jammed taken given n
Step-Jammed taken given {s} (calls f out) w = record {
  lock = w.lock;
  nobody_inside = stays-outside s.pcs (current s) (entered f) (entered-outside f) w.nobody_inside;
  taken_kept = w.taken_kept;
  given_kept = w.given_kept;
}
Step-Jammed taken given {s} (moves entry p sem m went) w =
    let off = w.nobody_inside (current s) in
    let e : Effect (s.pcs (current s)) p s.semaphore sem =
      subst (Moves (s.pcs (current s)) s.semaphore) went
        (advance-Moves entry (s.pcs (current s)) s.semaphore s.memory) in
    let (stays, one) =
      taken-LockEffect (inside (s.pcs (current s))) (inside p) s.semaphore.spinlock sem.spinlock off
        w.lock e.lock in
    let (t, g) = quiet-outside (s.pcs (current s)) p off in
    record {
      lock = one;
      nobody_inside = stays-outside s.pcs (current s) p stays w.nobody_inside;
      taken_kept = omega (arith, w.taken_kept, t);
      given_kept = omega (arith, w.given_kept, g);
    }
Step-Jammed taken given (others m q) w = record {
  lock = w.lock;
  nobody_inside = w.nobody_inside;
  taken_kept = w.taken_kept;
  given_kept = w.given_kept;
}

Reach-Jammed :
    (taken given : ℕ) {s n : System} → Jammed taken given s → Reach s n → Jammed taken given n
Reach-Jammed taken given w here = w
Reach-Jammed taken given w (later r st) = Step-Jammed taken given st (Reach-Jammed taken given w r)

capture-taken :
    (next : Pc) (sem : Semaphore) (m : Memory) → sem.spinlock ≡ 1 → capture next sem m ≡ none
unfolding capture slock_capture
capture-taken next sem m e = rw (capture, e) refl

pub release_body-short :
    (entry : ℕ) (sem : Semaphore) (m : Memory)
    → signed_lt sem.counter sem.min ≡ true
    → advance entry release_body sem m ≡ some (outside, sem, m)
unfolding advance release_test
release_body-short entry sem m short = rw short refl

captures-taken :
    (entry : ℕ) (sem : Semaphore) (m : Memory)
    → sem.spinlock ≡ 1
    → (advance entry wait_capture sem m ≡ none) × (advance entry release_capture sem m ≡ none)
unfolding advance
captures-taken entry sem m e = (capture-taken wait_body sem m e, capture-taken release_body sem m e)

-- The thread leaves, and keeps the lock.
pub left-Jammed :
    (max min : ℕ) (m : Memory) (s : System)
    → min ≤ max
    → max < 2147483648
    → Reach (begun max min m) s
    → s.pcs (current s) ≡ release_body
    → Jammed s.taken s.given (moved (current s) s outside s.semaphore s.memory)
left-Jammed max min m s le small r at =
    let w = Reach-IsSound max min m le small r in
    let t : ℕ = current s in
    record {
      lock = w.exclusive.taken t (ap inside at);
      nobody_inside = λ u. elim (Bool-cases (u == t)) [
        | inl e ↦ rw e refl
        | inr e ↦ elim (Bool-cases (inside (s.pcs u))) [
          | inl i ↦ absurd (ground (arith, e, w.exclusive.one u t i (ap inside at)))
          | inr i ↦ rw e i
        ]
      ];
      taken_kept = rw at (omega arith);
      given_kept = rw at (omega arith);
    }

short_count :
    (max min : ℕ) (m : Memory) (s : System)
    → min ≤ max
    → max < 2147483648
    → Reach (begun max min m) s
    → s.taken ≡ s.given + (max - min + 1)
    → signed_lt s.semaphore.counter s.semaphore.min ≡ true
short_count max min m s le small r full =
    let w = Reach-IsSound max min m le small r in
    let c = w.counts in rw w.min_kept (ground (arith, c, full))

-- For 0 ≤ min ≤ max < 2^31, in a state that threads reach which call a new semaphore through its
-- table, where max - min + 1 units are taken and not given back, and the current thread stands
-- behind the capture in the function `release`: its next step leaves the function and changes
-- nothing, and in every state that is reached from there on the lock is taken and no thread in a
-- critical section, no unit is taken or given back, and a thread at the capture of either
-- function spins.
pub release-jams :
    (max min entry : ℕ) (m : Memory) (s n : System)
    → min ≤ max
    → max < 2147483648
    → Reach (begun max min m) s
    → s.taken ≡ s.given + (max - min + 1)
    → s.pcs (current s) ≡ release_body
    → Reach (moved (current s) s outside s.semaphore s.memory) n
    → (advance entry (s.pcs (current s)) s.semaphore s.memory
        ≡ some (outside, s.semaphore, s.memory))
      × Jammed s.taken s.given n
      × (advance entry wait_capture n.semaphore n.memory ≡ none)
      × (advance entry release_capture n.semaphore n.memory ≡ none)
release-jams max min entry m s n le small r full at later_on =
    let j = Reach-Jammed s.taken s.given (left-Jammed max min m s le small r at) later_on in
    let (no_wait, no_release) = captures-taken entry n.semaphore n.memory j.lock in
    (
      rw at
          (release_body-short entry s.semaphore s.memory (short_count max min m s le small r full)),
      j,
      no_wait,
      no_release,
    )

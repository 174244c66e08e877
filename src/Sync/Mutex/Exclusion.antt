-- ===== src/Sync/Mutex/Exclusion.antt =====
-- src/arch/ia32/mutex.c: threads in `wait` and `release` interleave, and at most one holds the
-- mutex.
use test_kernel.Base.{
  ℕ, ◌<◌, ◌≡◌, ◌≢◌, refl, sym, subst, false, some, arith, ◌==◌, update, update-ne, update-same, ap,
  ◌∙◌,
}
use test_kernel.Threads.{max_total_threads, get_current_thread_id}
use test_kernel.Threads.Queue.{SleepQueue}
use test_kernel.Sync.{Memory}
use test_kernel.Sync.Ownership.{
  Owned, Owned-Effect, Exclusive, LockEffect, passes, Exclusive-LockEffect,
}
use test_kernel.Sync.Mutex.Moves.{inside, gain, Moves, advance-Moves}
use test_kernel.Sync.Mutex.{Mutex, Pc, outside, wait_capture, release_capture, advance, new_mutex}

-- The threads at their program counters, how often each has entered the mutex without leaving it,
-- the mutex and the memory.
pub record System : Type 0 where
  pub pcs : ℕ → Pc
  pub depths : ℕ → ℕ
  pub mutex : Mutex
  pub memory : Memory

abbrev pub moved : ℕ → System → Pc → Mutex → Memory → System
moved t s p mut m = record {
  pcs = update s.pcs t p;
  depths = update s.depths t (gain (s.pcs t) p (s.mutex.owner_thread_id == t) (s.depths t));
  mutex = mut;
  memory = m;
}

abbrev pub current : System → ℕ
current s = get_current_thread_id s.memory.kernel

-- A call of a method, a step inside one, and anything that happens outside of the mutex: a switch
-- to another thread, a wake-up, another user of the queues. An overflow of `enterCounter` is
-- undefined in C and no step.
pub data Step (s : System) : System → Type 0 where
  call_wait :
      s.pcs (current s) ≡ outside
      → Step s (record s { pcs = update s.pcs (current s) wait_capture })
  call_release :
      s.pcs (current s) ≡ outside
      → Step s (record s { pcs = update s.pcs (current s) release_capture })
  moves :
      (entry : ℕ) (p : Pc) (mut : Mutex) (m : Memory)
      → advance entry (s.pcs (current s)) s.mutex s.memory ≡ some (p, mut, m)
      → current s < max_total_threads
      → mut.enter_counter < 2147483648
      → Step s (moved (current s) s p mut m)
  others :
      (m : Memory) (q : SleepQueue)
      → Step s (record s { memory = m; mutex = record s.mutex { threads_queue = q } })

pub data Reach : System → Type 0 where
  made :
      (m : Memory)
      → Reach (record { pcs = λ t. outside; depths = λ t. 0; mutex = new_mutex; memory = m })
  later : {s n : System} → Reach s → Step s n → Reach n

-- Every state that the threads reach: the counter is the depth of the owner, every other thread's
-- depth is 0, and at most one thread is in a critical section of `mut->lock`.
pub record IsSound (s : System) : Type 0 where
  pub owned : Owned s.mutex.owner_thread_id s.mutex.enter_counter s.depths
  pub exclusive : Exclusive (λ t. inside (s.pcs t)) s.mutex.lock

call-Exclusive :
    (pcs : ℕ → Pc) (t lock : ℕ) (p : Pc)
    → inside p ≡ false
    → pcs t ≡ outside
    → Exclusive (λ u. inside (pcs u)) lock
    → Exclusive (λ u. inside (update pcs t p u)) lock
call-Exclusive pcs t lock p off out w =
    Exclusive-LockEffect (λ u. inside (pcs u)) (λ u. inside (update pcs t p u)) t lock lock
      (λ u ne. ap inside (update-ne pcs t u p ne)) w
      (passes (ap inside out) (ap inside (update-same pcs t p) ∙ off) refl)

moved-IsSound :
    (t : ℕ) (s : System) (p : Pc) (mut : Mutex) (m : Memory)
    → IsSound s
    → t < max_total_threads
    → mut.enter_counter < 2147483648
    → Moves t (s.pcs t) s.mutex (some (p, mut, m))
    → IsSound (moved t s p mut m)
moved-IsSound t s p mut m w lt sm (e, l) = record {
  owned =
      Owned-Effect t _ _ _ _ (gain (s.pcs t) p (s.mutex.owner_thread_id == t)) s.depths
        (omega arith) w.owned sm e;
  exclusive =
      Exclusive-LockEffect (λ u. inside (s.pcs u)) (λ u. inside (update s.pcs t p u)) t _ _
        (λ u ne. ap inside (update-ne s.pcs t u p ne)) w.exclusive
        (subst (λ b. LockEffect (inside (s.pcs t)) b s.mutex.lock mut.lock)
          (sym (ap inside (update-same s.pcs t p))) l);
}

Step-IsSound : {s n : System} → Step s n → IsSound s → IsSound n
Step-IsSound {s} (call_wait out) w = record {
  owned = w.owned;
  exclusive = call-Exclusive s.pcs _ _ _ refl out w.exclusive;
}
Step-IsSound {s} (call_release out) w = record {
  owned = w.owned;
  exclusive = call-Exclusive s.pcs _ _ _ refl out w.exclusive;
}
Step-IsSound {s} (moves entry p mut m went lt sm) w = moved-IsSound (current s) s p mut m w lt sm (
    subst (Moves (current s) (s.pcs (current s)) s.mutex) went
      (advance-Moves (current s) entry (s.pcs (current s)) s.mutex s.memory refl))
Step-IsSound (others m q) w = record { owned = w.owned; exclusive = w.exclusive }

made-IsSound :
    (m : Memory)
    → IsSound (record { pcs = λ t. outside; depths = λ t. 0; mutex = new_mutex; memory = m })
unfolding new_mutex
made-IsSound m = record {
  owned = record {
    threads = λ t. record {
      holder = λ h. absurd (h refl);
      real = λ h. absurd (h refl);
      counts = λ e h. refl;
      positive = λ e h. absurd (h (sym e));
    };
    free = λ e. refl;
    small = omega arith;
  };
  exclusive = record { one = λ t u h g. ground arith; taken = λ t h. ground arith };
}

-- In every state that threads reach which call the methods of a new mutex in any order, with any
-- switches between them, the counter is the owner's number of entries, no other thread has entered,
-- and at most one thread is in a critical section of the lock.
pub mutex-IsSound : {s : System} → Reach s → IsSound s
mutex-IsSound (made m) = made-IsSound m
mutex-IsSound (later r st) = Step-IsSound st (mutex-IsSound r)

-- In every state that threads reach which call the methods of a new mutex in any order, two threads
-- that have both entered the mutex more often than they have left it are the same thread.
pub mutual_exclusion : {s : System} → Reach s → (t u : ℕ) → s.depths t ≢ 0 → s.depths u ≢ 0 → t ≡ u
mutual_exclusion r t u ht hu =
    let w = mutex-IsSound r in sym ((w.owned.threads t).holder ht) ∙ (w.owned.threads u).holder hu

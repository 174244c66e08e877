-- ===== src/Sync/Monitor/Exclusion.antt =====
-- src/arch/ia32/monitor.c: threads in the methods interleave, and at most one holds the monitor.
use test_kernel.Base.{
  ℕ, ◌<◌, ◌≡◌, refl, sym, ap, ◌∙◌, subst, Bool, true, false, Option, none, some, arith, ◌==◌,
  update, update-ne, update-same,
}
use test_kernel.Threads.{
  max_total_threads, get_current_thread_id, slock_init, slock_capture, slock_release,
}
use test_kernel.Threads.Queue.{SleepQueue, init_threads_queue}
use test_kernel.Sync.{Memory, nobody}
use test_kernel.Sync.Events.{new_manual_reset_event, manual_reset}
use test_kernel.Sync.Ownership.{
  Owned, Owned-Effect, Exclusive, LockEffect, passes, Exclusive-LockEffect,
}
use test_kernel.Sync.Monitor.Moves.{inside, gain, Moves, advance-Moves}
use test_kernel.Sync.Monitor.{
  Monitor, Pc, outside, capture_enter, release_enter, wait_enter, notify_enter, notify_all_enter,
  advance, new_monitor,
}

-- The threads at their program counters, how often each has entered the monitor without leaving it,
-- the monitor and the memory.
pub record System : Type 0 where
  pub pcs : ℕ → Pc
  pub depths : ℕ → ℕ
  pub monitor : Monitor
  pub memory : Memory

abbrev pub moved : ℕ → System → Pc → Monitor → Memory → System
moved t s p mon m = record {
  pcs = update s.pcs t p;
  depths = update s.depths t (gain (s.pcs t) p (s.monitor.owner_thread_id == t) (s.depths t));
  monitor = mon;
  memory = m;
}

abbrev pub current : System → ℕ
current s = get_current_thread_id s.memory.kernel

abbrev pub is_call : Pc → Bool
is_call capture_enter = true
is_call release_enter = true
is_call wait_enter = true
is_call notify_enter = true
is_call notify_all_enter = true
is_call _ = false

-- A call of a method, a step inside one, and anything that happens outside of the monitor: a switch
-- to another thread, a wake-up, another user of the memory. An overflow of `enterCounter` is
-- undefined in C and no step.
pub data Step (s : System) : System → Type 0 where
  call :
      (p : Pc)
      → is_call p ≡ true
      → s.pcs (current s) ≡ outside
      → Step s (record s { pcs = update s.pcs (current s) p })
  moves :
      (entry : ℕ) (p : Pc) (mon : Monitor) (m : Memory)
      → advance entry (s.pcs (current s)) s.monitor s.memory ≡ some (p, mon, m)
      → current s < max_total_threads
      → mon.enter_counter < 2147483648
      → Step s (moved (current s) s p mon m)
  others :
      (m : Memory) (q r : SleepQueue)
      → Step s (record s {
        memory = m;
        monitor = record s.monitor { threads_queue_release = q; threads_queue_pulse = r };
      })

pub data Reach : System → Type 0 where
  made :
      (m n : Memory) (mon : Monitor)
      → new_monitor m ≡ some (mon, n)
      → Reach (record { pcs = λ t. outside; depths = λ t. 0; monitor = mon; memory = n })
  later : {s n : System} → Reach s → Step s n → Reach n

-- The counter is the depth of the owner, every other thread's depth is 0, and at most one thread is
-- in a critical section of `mon->lock`.
pub record IsSound (s : System) : Type 0 where
  pub owned : Owned s.monitor.owner_thread_id s.monitor.enter_counter s.depths
  pub exclusive : Exclusive (λ t. inside (s.pcs t)) s.monitor.lock

call-outside : (p : Pc) → is_call p ≡ true → inside p ≡ false
call-outside capture_enter h = refl
call-outside release_enter h = refl
call-outside wait_enter h = refl
call-outside notify_enter h = refl
call-outside notify_all_enter h = refl
call-outside _ h = ground arith

moved-IsSound :
    (t : ℕ) (s : System) (p : Pc) (mon : Monitor) (m : Memory)
    → IsSound s
    → t < max_total_threads
    → mon.enter_counter < 2147483648
    → Moves t (s.pcs t) s.monitor (some (p, mon, m))
    → IsSound (moved t s p mon m)
moved-IsSound t s p mon m w lt sm (e, l) = record {
  owned =
      Owned-Effect t _ _ _ _ (gain (s.pcs t) p (s.monitor.owner_thread_id == t)) s.depths
        (omega arith) w.owned sm e;
  exclusive =
      Exclusive-LockEffect (λ u. inside (s.pcs u)) (λ u. inside (update s.pcs t p u)) t _ _
        (λ u ne. ap inside (update-ne s.pcs t u p ne)) w.exclusive
        (subst (λ b. LockEffect (inside (s.pcs t)) b s.monitor.lock mon.lock)
          (sym (ap inside (update-same s.pcs t p))) l);
}

Step-IsSound : {s n : System} → Step s n → IsSound s → IsSound n
Step-IsSound {s} (call p c out) w = record {
  owned = w.owned;
  exclusive =
      Exclusive-LockEffect (λ u. inside (s.pcs u)) (λ u. inside (update s.pcs (current s) p u))
        (current s) s.monitor.lock s.monitor.lock
        (λ u ne. ap inside (update-ne s.pcs (current s) u p ne)) w.exclusive
        (passes (ap inside out) (ap inside (update-same s.pcs (current s) p) ∙ call-outside p c)
          refl);
}
Step-IsSound {s} (moves entry p mon m went lt sm) w = moved-IsSound (current s) s p mon m w lt sm (
    subst (Moves (current s) (s.pcs (current s)) s.monitor) went
      (advance-Moves entry (s.pcs (current s)) s.monitor s.memory))
Step-IsSound (others m q r) w = record { owned = w.owned; exclusive = w.exclusive }

abbrev IsUnowned : Option (Monitor × Memory) → Type 0
IsUnowned none = Unit
IsUnowned (some (mon, m)) = (mon.owner_thread_id ≡ nobody) × (mon.enter_counter ≡ 0)

new_monitor-fields :
    (m n : Memory) (mon : Monitor)
    → new_monitor m ≡ some (mon, n)
    → (mon.owner_thread_id ≡ nobody) × (mon.enter_counter ≡ 0)
unfolding new_monitor new_manual_reset_event manual_reset slock_init slock_capture slock_release
    init_threads_queue
new_monitor-fields m n mon e = subst IsUnowned e (refl, refl)

made-IsSound :
    (m n : Memory) (mon : Monitor)
    → new_monitor m ≡ some (mon, n)
    → IsSound (record { pcs = λ t. outside; depths = λ t. 0; monitor = mon; memory = n })
made-IsSound m n mon e =
    let (owner, counter) = new_monitor-fields m n mon e in
    record {
      owned = record {
        threads = λ t. record {
          holder = λ h. absurd (h refl);
          real = λ h. absurd (h refl);
          counts = λ q h. counter;
          positive = λ q h. absurd (h (sym q ∙ owner));
        };
        free = λ q. counter;
        small = omega arith;
      };
      exclusive = record { one = λ t u h g. ground arith; taken = λ t h. ground arith };
    }

-- In every state that threads reach which call the methods of a new monitor in any order, with any
-- switches between them, the counter is the owner's number of entries, no other thread has entered,
-- and at most one thread is in a critical section of the lock.
pub monitor-IsSound : {s : System} → Reach s → IsSound s
monitor-IsSound (made m n mon e) = made-IsSound m n mon e
monitor-IsSound (later r st) = Step-IsSound st (monitor-IsSound r)

-- ===== src/Sync/Semaphore/Capacity.antt =====
-- src/arch/ia32/semaphore.c through its table of methods: how many calls of `_->wait` succeed.
use test_kernel.Base.{
  signed_lt, ℕ, zero, suc, ◌+◌, ◌-◌, ◌<◌, ◌≤◌, ◌≡◌, refl, true, false, Option, none, some, arith,
  sub32, ◌∙◌, ap,
}
use test_kernel.Threads.{slock_capture, slock_release, slock_init}
use test_kernel.Threads.Queue.{init_threads_queue, wake_queued_thread, locked, wake_head}
use test_kernel.Sync.{Memory, on_queue}
use test_kernel.Sync.Events.{new_auto_reset_event}
use test_kernel.Sync.Semaphore.{
  Semaphore, semaphore_methods, new_semaphore, wait, release, release_captured,
}

-- n calls of `sem._->wait(&sem)`.
unfoldable pub waits : ℕ → Semaphore → Memory → Option (Semaphore × Memory)
unfolding semaphore_methods
waits zero sem m = some (sem, m)
waits (suc n) sem m = elim ((semaphore_methods 0).wait sem m) [
  | none ↦ none
  | some (s, k) ↦ waits n s k
]

-- The new semaphore with another counter, or another state of the lock.
abbrev pub counting : (max min counter lock : ℕ) → Semaphore
counting max min counter lock = record (new_semaphore max min) {
  counter = counter;
  spinlock = lock;
}

table_wait-counts :
    (max min c : ℕ) (m : Memory)
    → signed_lt c min ≡ false
    → (semaphore_methods 0).wait (counting max min c 0) m ≡ some (counting max min (sub32 c 1) 0, m)
unfolding semaphore_methods new_semaphore release release_captured slock_capture slock_release
    on_queue wake_queued_thread locked wake_head init_threads_queue slock_init new_auto_reset_event
table_wait-counts max min c m h = rw h refl

table_wait-keeps :
    (max min c : ℕ) (m : Memory)
    → signed_lt c min ≡ true
    → (semaphore_methods 0).wait (counting max min c 0) m ≡ some (counting max min c 1, m)
unfolding semaphore_methods new_semaphore release release_captured slock_capture slock_init
    new_auto_reset_event init_threads_queue
table_wait-keeps max min c m h = rw h refl

waits-next :
    (n max min c : ℕ) (m : Memory)
    → signed_lt c min ≡ false
    → waits (suc n) (counting max min c 0) m ≡ waits n (counting max min (sub32 c 1) 0) m
unfolding waits
waits-next n max min c m h = rw (waits, table_wait-counts max min c m h) refl

-- `counting` with a counter that is equal.
same_count :
    (max min c d lock : ℕ) (m : Memory)
    → c ≡ d
    → ◌≡◌ {A = Option (Semaphore × Memory)}
        (some (counting max min c lock, m))
        (some (counting max min d lock, m))
same_count max min c d lock m e = λ j. some (counting max min (e j) lock, m)

waits-count :
    (n max min c : ℕ) (m : Memory)
    → c < 2147483648
    → min + n ≤ c + 1
    → waits n (counting max min c 0) m ≡ some (counting max min (sub32 c n) 0, m)
unfolding waits
waits-count zero max min c m small room = same_count max min c (sub32 c 0) 0 m (omega arith)
waits-count (suc zero) max min c m small room = waits-next zero max min c m (ground arith)
waits-count (suc (suc n)) max min c m small room =
    waits-next (suc n) max min c m (ground arith)
    ∙ ap (λ d. waits (suc n) (counting max min d 0) m) less
    ∙ waits-count (suc n) max min (c - 1) m (omega arith) (omega arith)
    ∙ same_count max min (sub32 (c - 1) (suc n)) (sub32 c (suc (suc n))) 0 m (omega arith)
  where
    less : sub32 c 1 ≡ c - 1
    less = omega arith

table_blocked :
    (max min c entry : ℕ) (m : Memory)
    → ((semaphore_methods entry).wait (counting max min c 1) m ≡ none)
      × ((semaphore_methods entry).release (counting max min c 1) m ≡ none)
unfolding semaphore_methods wait release slock_capture
table_blocked max min c entry m = (refl, refl)

new_semaphore-counting : (max min : ℕ) → new_semaphore max min ≡ counting max min max 0
unfolding new_semaphore slock_init
new_semaphore-counting max min = refl

-- For 0 ≤ min ≤ max < 2^31, on a new semaphore that nobody waits for, the first max - min + 1 calls
-- of `_->wait` return and leave the counter at min - 1; the next one returns with the spin lock
-- taken, and from then on both methods of the table spin for ever.
pub waits-capacity :
    (max min entry : ℕ) (m : Memory)
    → min ≤ max
    → max < 2147483648
    → (waits (max - min + 1) (new_semaphore max min) m ≡ some (counting max min (sub32 min 1) 0, m))
      × ((semaphore_methods 0).wait (counting max min (sub32 min 1) 0) m
          ≡ some (counting max min (sub32 min 1) 1, m))
      × ((semaphore_methods entry).wait (counting max min (sub32 min 1) 1) m ≡ none)
      × ((semaphore_methods entry).release (counting max min (sub32 min 1) 1) m ≡ none)
waits-capacity max min entry m le small = (
  ap (λ (s : Semaphore). waits (max - min + 1) s m) (new_semaphore-counting max min)
      ∙ waits-count (max - min + 1) max min max m small (omega arith)
      ∙ same_count max min (sub32 max (max - min + 1)) (sub32 min 1) 0 m (omega arith),
  table_wait-keeps max min (sub32 min 1) m (ground arith),
  (table_blocked max min (sub32 min 1) entry m).0,
  (table_blocked max min (sub32 min 1) entry m).1,
)

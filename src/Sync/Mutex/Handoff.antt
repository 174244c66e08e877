-- ===== src/Sync/Mutex/Handoff.antt =====
-- src/arch/ia32/mutex.c: `release` without interleaving.
use test_kernel.Base.{
  ℕ, ◌≡◌, refl, Option, none, some, ◌∷◌, ◌∙◌, length, ◌<◌, ◌^◌, ◌+◌, sub32, ==_iff,
}
use test_kernel.Threads.{get_current_thread_id, slock_capture, slock_release}
use test_kernel.Threads.Waking.{IsPaused, Woken, wake_thread-Woken}
use test_kernel.Threads.Queue.{SleepQueue, wake_queued_thread}
use test_kernel.Threads.Queue.Order.{Holds, Waiting, wake_queued_thread-first}
use test_kernel.Sync.{Memory, nobody, on_queue, world, on_queue-some}
use test_kernel.Sync.Mutex.{Mutex, Pc, outside, release_body, capture, release_test}

-- `release` in a thread that runs through it alone.
unfoldable pub release : Mutex → Memory → Option (Pc × Mutex × Memory)
unfolding capture release_test
release mut m = elim (capture release_body mut m) [
  | none ↦ none
  | some (p, o, n) ↦ release_test o n
]

capture-free :
    (p : Pc) (mut : Mutex) (m : Memory)
    → mut.lock ≡ 0
    → capture p mut m ≡ some (p, record mut { lock = 1 }, m)
unfolding capture slock_capture
capture-free p mut m e = rw (capture, (==_iff mut.lock 0).1 e) refl

-- The mutex that a last `release` leaves behind.
abbrev freed : Mutex → SleepQueue → Mutex
freed mut q = record mut {
  owner_thread_id = nobody;
  enter_counter = 0;
  threads_queue = q;
  lock = slock_release mut.lock;
}

release_test-last :
    (mut : Mutex) (m n : Memory) (q : SleepQueue)
    → mut.owner_thread_id ≡ get_current_thread_id m.kernel
    → mut.enter_counter ≡ 1
    → on_queue wake_queued_thread mut.threads_queue m ≡ some (q, n)
    → release_test mut m ≡ some (outside, freed mut q, n)
unfolding release_test
release_test-last mut m n q owns one woke =
    let last : sub32 mut.enter_counter 1 ≡ 0 = rw one refl in
    rw ((==_iff mut.owner_thread_id (get_current_thread_id m.kernel)).1 owns, last, woke)
      (λ j. some (outside, record (freed mut q) { enter_counter = last j }, n))

release-captured :
    (mut : Mutex) (m : Memory)
    → mut.lock ≡ 0
    → release mut m ≡ release_test (record mut { lock = 1 }) m
unfolding release
release-captured mut m e = rw (release, capture-free release_body mut m e) refl

-- When the owner of a free lock leaves for the last time and fewer than 2^32 threads wait, at
-- least one, of which the first has come to its pause, `release` returns, the mutex has no owner,
-- its counter is 0 and its lock free, the first waiting thread has left the queue, and it, and no
-- other one, is in the schedule again and runs.
pub release-hands_over :
    (mut : Mutex) (m : Memory) (a u : ℕ) (es : Waiting)
    → mut.lock ≡ 0
    → mut.owner_thread_id ≡ get_current_thread_id m.kernel
    → mut.enter_counter ≡ 1
    → Holds (world mut.threads_queue m) ((a, u) ∷ es)
    → length es + 1 < 2 ^ 32
    → IsPaused m.kernel u
    → (o : Mutex) × (n : Memory) × (release mut m ≡ some (outside, o, n))
      × (o.owner_thread_id ≡ nobody)
      × (o.enter_counter ≡ 0)
      × (o.lock ≡ 0)
      × Holds (world o.threads_queue n) es
      × Woken u m.kernel n.kernel
unfolding slock_release
release-hands_over mut m a u es free owns one h room paused =
    let (v, woke, held, kernel) =
      wake_queued_thread-first (world mut.threads_queue m) a u es h room in
    (
      freed (record mut { lock = 1 }) v.queue,
      record { entries = v.entries; kernel = v.kernel },
      release-captured mut m free
          ∙ release_test-last (record mut { lock = 1 }) m _ v.queue owns one
              (on_queue-some wake_queued_thread mut.threads_queue m v woke),
      refl,
      refl,
      refl,
      held,
      rw kernel (wake_thread-Woken u m.kernel paused),
    )

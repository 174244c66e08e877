-- ===== src/Sync/Semaphore.antt =====
-- src/arch/ia32/semaphore.c and include/arch/ia32/semaphore.h, each method in a thread that runs
-- alone; one that spins for ever is `none`.
pub mod Capacity
pub mod Interleaved
use test_kernel.Base.{
  ℕ, ◌+◌, ◌%◌, ◌^◌, Bool, true, false, Option, none, some, if◌then◌else◌, ltb, signed_lt, ◌==◌, u32,
  sub32,
}
use test_kernel.Threads.{slock_init, slock_capture, slock_release}
use test_kernel.Threads.Queue.{
  SleepQueue, init_threads_queue, wake_queued_thread, queue_waiting_thread,
}
use test_kernel.Sync.{Memory, on_queue}
use test_kernel.Sync.Events.{AutoResetEvent, new_auto_reset_event}

-- `semaphore_t`; `max`, `min` and `counter` are the 32-bit patterns of `int`s.
pub record Semaphore : Type 0 where
  pub max : ℕ
  pub min : ℕ
  pub counter : ℕ
  pub threads_queue : SleepQueue
  pub guard : AutoResetEvent
  pub spinlock : ℕ

abbrev pub Method : Type 0
Method = Semaphore → Memory → Option (Semaphore × Memory)

-- The busy `while` at the end of `wait`: no statement of its thread changes what it tests.
abbrev pub spin : Semaphore → Memory → Option (Semaphore × Memory)
spin sem m = if sem.counter == sem.max then none else some (sem, m)

-- `wait`, behind the capture of the spin lock; `entry` is the address of the entry on the stack.
unfoldable pub wait_captured : ℕ → Method
unfolding slock_release on_queue
wait_captured entry sem m =
    let freed = record sem { spinlock = slock_release sem.spinlock } in
    if signed_lt sem.counter sem.max
    then some (record freed { counter = u32 (sem.counter + 1) }, m)
    else elim (on_queue (queue_waiting_thread entry) freed.threads_queue m) [
      | none ↦ none
      | some (q, n) ↦ spin (record freed { threads_queue = q }) n
    ]

unfoldable pub wait : ℕ → Method
unfolding slock_capture wait_captured
wait entry sem m = elim (slock_capture sem.spinlock) [
  | none ↦ none
  | some l ↦ wait_captured entry (record sem { spinlock = l }) m
]

-- `release`, behind the capture. Where the counter is below `min` it returns with the lock taken.
unfoldable pub release_captured : Method
unfolding slock_release on_queue
release_captured sem m =
    let less = record sem {
      counter = sub32 sem.counter 1;
      spinlock = slock_release sem.spinlock;
    } in
    if signed_lt sem.counter sem.min
    then some (sem, m)
    else elim (on_queue wake_queued_thread less.threads_queue m) [
      | none ↦ none
      | some (q, n) ↦ some (record less { threads_queue = q }, n)
    ]

unfoldable pub release : Method
unfolding slock_capture release_captured
release sem m = elim (slock_capture sem.spinlock) [
  | none ↦ none
  | some l ↦ release_captured (record sem { spinlock = l }) m
]

-- `semaphoreMethods_t`, whose first field is `wait`, and the table that is filled with
-- `{ &release, &wait }`. `entry` is the one of the function `wait`.
pub record SemaphoreMethods : Type 0 where
  pub wait : Method
  pub release : Method

unfoldable pub semaphore_methods : ℕ → SemaphoreMethods
unfolding wait release
semaphore_methods entry = record { wait = release; release = wait entry }

unfoldable pub new_semaphore : (max min : ℕ) → Semaphore
unfolding slock_init init_threads_queue new_auto_reset_event
new_semaphore max min = record {
  max = max;
  min = min;
  counter = max;
  threads_queue = init_threads_queue;
  guard = new_auto_reset_event true;
  spinlock = slock_init;
}

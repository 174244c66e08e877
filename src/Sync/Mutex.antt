-- ===== src/Sync/Mutex.antt =====
-- src/arch/ia32/mutex.c and include/arch/ia32/mutex.h. A thread inside `wait` or `release` is at a
-- program counter; the statements from a capture of `mut->lock` to its release are one step, since
-- no code reads or writes the mutex without this lock.
pub mod Moves
pub mod Exclusion
pub mod Handoff
pub mod Example
mod Tests
use test_kernel.Base.{
  ℕ, ◌+◌, ◌%◌, ◌^◌, Bool, true, false, Option, none, some, if◌then◌else◌, ◌==◌, update, u32, sub32,
}
use test_kernel.Threads.{get_current_thread_id, slock_init, slock_capture, slock_release}
use test_kernel.Threads.Queue.{
  SleepQueue, init_threads_queue, wake_queued_thread, queue_waiting_thread,
}
use test_kernel.Sync.{Memory, on_queue, nobody}
use test_kernel.Sync.Events.{AutoResetEvent, new_auto_reset_event}

-- `mutex_t`; `owner_thread_id` and `enter_counter` are the 32-bit patterns of `int`s.
pub record Mutex : Type 0 where
  pub owner_thread_id : ℕ
  pub enter_counter : ℕ
  pub lock : ℕ
  pub release_signal : AutoResetEvent
  pub threads_queue : SleepQueue

unfoldable pub new_mutex : Mutex
unfolding new_auto_reset_event slock_init init_threads_queue
new_mutex = record {
  owner_thread_id = nobody;
  enter_counter = 0;
  lock = slock_init;
  release_signal = new_auto_reset_event false;
  threads_queue = init_threads_queue;
}

-- Where a thread is: outside, or in front of the first capture of `wait`, behind it, at
-- `queue_waiting_thread`, at the capture in the loop, at the loop's test; and the same of
-- `release`.
pub data Pc : Type 0 where
  outside wait_capture wait_body wait_queue wait_recapture wait_loop : Pc
  release_capture release_body : Pc

-- A capture leads on to `next`; a lock that is taken is no step.
unfoldable pub capture : Pc → Mutex → Memory → Option (Pc × Mutex × Memory)
unfolding slock_capture
capture next mut m = elim (slock_capture mut.lock) [
  | none ↦ none
  | some l ↦ some (next, record mut { lock = l }, m)
]

-- The test of the `while`, and what follows it on either side.
unfoldable pub loop_test : Mutex → Memory → Pc × Mutex × Memory
unfolding slock_release get_current_thread_id
loop_test mut m =
    if mut.owner_thread_id == nobody
    then (
      outside,
      record mut {
        owner_thread_id = get_current_thread_id m.kernel;
        enter_counter = u32 (mut.enter_counter + 1);
        lock = slock_release mut.lock;
      },
      m,
    )
    else (wait_queue, record mut { lock = slock_release mut.lock }, m)

unfoldable pub wait_test : Mutex → Memory → Pc × Mutex × Memory
unfolding slock_release get_current_thread_id loop_test
wait_test mut m =
    if mut.owner_thread_id == get_current_thread_id m.kernel
    then (
      outside,
      record mut { enter_counter = u32 (mut.enter_counter + 1); lock = slock_release mut.lock },
      m,
    )
    else loop_test mut m

-- The body of `release`. The local variable `released` is never read.
unfoldable pub release_test : Mutex → Memory → Option (Pc × Mutex × Memory)
unfolding slock_release get_current_thread_id on_queue
release_test mut m =
    let c = sub32 mut.enter_counter 1 in
    if mut.owner_thread_id == get_current_thread_id m.kernel
    then (if c == 0
        then elim (on_queue wake_queued_thread mut.threads_queue m) [
          | none ↦ none
          | some (q, n) ↦ some (
            outside,
            record mut {
              owner_thread_id = nobody;
              enter_counter = c;
              threads_queue = q;
              lock = slock_release mut.lock;
            },
            n,
          )
        ]
        else some (outside, record mut { enter_counter = c; lock = slock_release mut.lock }, m))
    else some (outside, record mut { lock = slock_release mut.lock }, m)

unfoldable pub block : ℕ → Mutex → Memory → Option (Pc × Mutex × Memory)
unfolding on_queue
block entry mut m = elim (on_queue (queue_waiting_thread entry) mut.threads_queue m) [
  | none ↦ none
  | some (q, n) ↦ some (wait_recapture, record mut { threads_queue = q }, n)
]

-- One step of the current thread; `entry` is the address of the entry on its stack. `none`: it
-- spins.
unfoldable pub advance : ℕ → Pc → Mutex → Memory → Option (Pc × Mutex × Memory)
unfolding capture wait_test loop_test release_test block
advance entry outside mut m = none
advance entry wait_capture mut m = capture wait_body mut m
advance entry wait_body mut m = some (wait_test mut m)
advance entry wait_queue mut m = block entry mut m
advance entry wait_recapture mut m = capture wait_loop mut m
advance entry wait_loop mut m = some (loop_test mut m)
advance entry release_capture mut m = capture release_body mut m
advance entry release_body mut m = release_test mut m

-- ===== src/Sync/Monitor.antt =====
-- src/arch/ia32/monitor.c and include/arch/ia32/monitor.h. A thread inside a method is at a program
-- counter; the statements from a capture of `mon->lock` to its release are one step, since no code
-- reads or writes the monitor without this lock.
pub mod Moves
pub mod Exclusion
pub mod Trap
pub mod Example
mod Tests
use test_kernel.Base.{
  ℕ, ◌+◌, ◌%◌, ◌^◌, Bool, true, false, ◌&&◌, ◌||◌, not, Option, none, some, if◌then◌else◌, ◌==◌,
  u32, sub32,
}
use test_kernel.Threads.{get_current_thread_id, slock_init, slock_capture, slock_release}
use test_kernel.Threads.Queue.{
  SleepQueue, init_threads_queue, wake_queued_thread, queue_waiting_thread,
}
use test_kernel.Sync.{Memory, on_queue, nobody}
use test_kernel.Sync.Events.{ManualResetEvent, new_manual_reset_event}

-- `monitor_t`; `owner_thread_id` and `enter_counter` are the 32-bit patterns of `int`s.
pub record Monitor : Type 0 where
  pub is_pulse_handled : Bool
  pub is_multi_pulse : Bool
  pub enter_counter : ℕ
  pub owner_thread_id : ℕ
  pub release_signal : ManualResetEvent
  pub pulse_signal : ManualResetEvent
  pub lock : ℕ
  pub threads_queue_release : SleepQueue
  pub threads_queue_pulse : SleepQueue

unfoldable pub new_monitor : Memory → Option (Monitor × Memory)
unfolding new_manual_reset_event slock_init init_threads_queue
new_monitor m = elim (new_manual_reset_event 0 false m) [
  | none ↦ none
  | some (pulse, n) ↦ elim (new_manual_reset_event 0 false n) [
    | none ↦ none
    | some (released, k) ↦ some (
      record {
        enter_counter = 0;
        owner_thread_id = nobody;
        is_multi_pulse = false;
        is_pulse_handled = false;
        pulse_signal = pulse;
        release_signal = released;
        lock = slock_init;
        threads_queue_pulse = init_threads_queue;
        threads_queue_release = init_threads_queue;
      },
      k,
    )
  ]
]

-- Where a thread is: outside; in front of and behind the first capture of each method; in the loop
-- of `captureImpl`, at the queue, the capture and the test; and the same in the loop of `wait`.
pub data Pc : Type 0 where
  outside : Pc
  capture_enter capture_body release_queue release_recapture capture_loop : Pc
  release_enter release_body : Pc
  wait_enter wait_body pulse_queue pulse_recapture pulse_test : Pc
  notify_enter notify_body notify_all_enter notify_all_body : Pc

unfoldable pub lock_capture : Pc → Monitor → Memory → Option (Pc × Monitor × Memory)
unfolding slock_capture
lock_capture next mon m = elim (slock_capture mon.lock) [
  | none ↦ none
  | some l ↦ some (next, record mon { lock = l }, m)
]

-- `slockRelease(&mon->lock)` on the way to `next`.
unfoldable pub lock_release : Pc → Option (Monitor × Memory) → Option (Pc × Monitor × Memory)
unfolding slock_release
lock_release next none = none
lock_release next (some (mon, m)) = some (next, record mon { lock = slock_release mon.lock }, m)

-- `releaseImpl`; no caller reads its result.
unfoldable pub release_impl : Monitor → Memory → Option (Monitor × Memory)
unfolding get_current_thread_id on_queue
release_impl mon m =
    let c = sub32 mon.enter_counter 1 in
    if mon.owner_thread_id == get_current_thread_id m.kernel
    then (if c == 0
        then elim (on_queue wake_queued_thread mon.threads_queue_release m) [
          | none ↦ none
          | some (q, n) ↦ some (
            record mon { enter_counter = c; owner_thread_id = nobody; threads_queue_release = q },
            n,
          )
        ]
        else some (record mon { enter_counter = c }, m))
    else some (mon, m)

-- Taking a monitor that is nobody's, and entering one that is the thread's own.
unfoldable pub enter : Monitor → Memory → Monitor
unfolding get_current_thread_id
enter mon m = record mon {
  owner_thread_id = get_current_thread_id m.kernel;
  enter_counter = u32 (mon.enter_counter + 1);
}

-- The test of the loop in `captureImpl`. Both callers of `captureImpl` release the lock and return.
unfoldable pub capture_test : Monitor → Memory → Option (Pc × Monitor × Memory)
unfolding lock_release enter
capture_test mon m =
    if mon.owner_thread_id == nobody
    then lock_release outside (some (enter mon m, m))
    else lock_release release_queue (some (mon, m))

-- `captureImpl` from its start; its last branch does what the loop's end does.
unfoldable pub capture_impl : Monitor → Memory → Option (Pc × Monitor × Memory)
unfolding lock_release capture_test get_current_thread_id
capture_impl mon m =
    if mon.owner_thread_id == get_current_thread_id m.kernel
    then lock_release outside (some (record mon { enter_counter = u32 (mon.enter_counter + 1) }, m))
    else capture_test mon m

-- `wait` behind its first capture: one pass of the `do` loop up to the queue, or the way out.
unfoldable pub wait_start : Monitor → Memory → Option (Pc × Monitor × Memory)
unfolding lock_release release_impl get_current_thread_id
wait_start mon m =
    if mon.owner_thread_id == get_current_thread_id m.kernel
    then lock_release pulse_queue (release_impl mon m)
    else lock_release outside (some (mon, m))

-- The condition of the `do` loop, and what follows it on either side.
unfoldable pub wait_again : Monitor → Memory → Option (Pc × Monitor × Memory)
unfolding lock_release release_impl capture_impl
wait_again mon m =
    if mon.is_multi_pulse || (mon.is_pulse_handled && not mon.is_multi_pulse)
    then lock_release pulse_queue (release_impl mon m)
    else capture_impl (record mon { is_pulse_handled = true }) m

-- `notify` and `notifyAll` behind the capture.
unfoldable pub pulse : (is_multi : Bool) → Monitor → Memory → Option (Pc × Monitor × Memory)
unfolding on_queue lock_release
pulse is_multi mon m = elim (on_queue wake_queued_thread mon.threads_queue_pulse m) [
  | none ↦ none
  | some (q, n) ↦ lock_release outside (
      some (
        record mon { is_multi_pulse = is_multi; is_pulse_handled = false; threads_queue_pulse = q },
        n,
      ))
]

unfoldable pub block_release : ℕ → Monitor → Memory → Option (Pc × Monitor × Memory)
unfolding on_queue
block_release entry mon m =
    elim (on_queue (queue_waiting_thread entry) mon.threads_queue_release m) [
      | none ↦ none
      | some (q, n) ↦ some (release_recapture, record mon { threads_queue_release = q }, n)
    ]

unfoldable pub block_pulse : ℕ → Monitor → Memory → Option (Pc × Monitor × Memory)
unfolding on_queue
block_pulse entry mon m = elim (on_queue (queue_waiting_thread entry) mon.threads_queue_pulse m) [
  | none ↦ none
  | some (q, n) ↦ some (pulse_recapture, record mon { threads_queue_pulse = q }, n)
]

-- One step of the current thread; `entry` is the address of the entry on its stack. `none`: it
-- spins.
unfoldable pub advance : ℕ → Pc → Monitor → Memory → Option (Pc × Monitor × Memory)
unfolding lock_capture lock_release release_impl capture_impl capture_test wait_start wait_again
    pulse block_release block_pulse
advance entry outside mon m = none
advance entry capture_enter mon m = lock_capture capture_body mon m
advance entry capture_body mon m = capture_impl mon m
advance entry release_queue mon m = block_release entry mon m
advance entry release_recapture mon m = lock_capture capture_loop mon m
advance entry capture_loop mon m = capture_test mon m
advance entry release_enter mon m = lock_capture release_body mon m
advance entry release_body mon m = lock_release outside (release_impl mon m)
advance entry wait_enter mon m = lock_capture wait_body mon m
advance entry wait_body mon m = wait_start mon m
advance entry pulse_queue mon m = block_pulse entry mon m
advance entry pulse_recapture mon m = lock_capture pulse_test mon m
advance entry pulse_test mon m = wait_again mon m
advance entry notify_enter mon m = lock_capture notify_body mon m
advance entry notify_body mon m = pulse false mon m
advance entry notify_all_enter mon m = lock_capture notify_all_body mon m
advance entry notify_all_body mon m = pulse true mon m

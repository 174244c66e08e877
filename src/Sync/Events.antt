-- ===== src/Sync/Events.antt =====
-- src/arch/ia32/autoResetEvent.c and src/arch/ia32/manualResetEvent.c with their headers. A method
-- that spins for ever on a lock is `none`.
pub mod Signals
pub mod AutoExample
pub mod ManualExample
use test_kernel.Base.{ℕ, Bool, true, false, Option, none, some, if◌then◌else◌, ◌==◌}
use test_kernel.Threads.{slock_init, slock_capture, slock_release, slock_set}
use test_kernel.Threads.Queue.{
  SleepQueue, init_threads_queue, wake_queued_threads, queue_waiting_thread,
}
use test_kernel.Sync.{Memory, on_queue}

-- `autoResetEvent_t`
pub record AutoResetEvent : Type 0 where
  pub signal : ℕ
  pub threads_queue : SleepQueue

-- `manualResetEvent_t`
pub record ManualResetEvent : Type 0 where
  pub signal : ℕ
  pub lock : ℕ
  pub is_set : Bool
  pub threads_queue : SleepQueue

unfoldable pub auto_set : AutoResetEvent → AutoResetEvent
unfolding slock_release
auto_set ev = record ev { signal = slock_release ev.signal }

unfoldable pub auto_reset : AutoResetEvent → AutoResetEvent
unfolding slock_set
auto_reset ev = record ev { signal = slock_set ev.signal }

unfoldable pub auto_wait : AutoResetEvent → Option AutoResetEvent
unfolding slock_capture
auto_wait ev = elim (slock_capture ev.signal) [
  | none ↦ none
  | some l ↦ some (record ev { signal = l })
]

unfoldable pub new_auto_reset_event : Bool → AutoResetEvent
unfolding slock_init init_threads_queue auto_set auto_reset
new_auto_reset_event signal =
    let ev : AutoResetEvent = record { signal = slock_init; threads_queue = init_threads_queue } in
    if signal then auto_set ev else auto_reset ev

-- `set`; the fuel is that of `wake_queued_threads`.
unfoldable pub manual_set : ℕ → ManualResetEvent → Memory → Option (ManualResetEvent × Memory)
unfolding slock_capture slock_release on_queue
manual_set fuel ev m = elim (slock_capture ev.lock) [
  | none ↦ none
  | some l ↦ elim (on_queue (wake_queued_threads fuel) ev.threads_queue m) [
    | none ↦ none
    | some (q, n) ↦ some (record ev { is_set = true; threads_queue = q; lock = slock_release l }, n)
  ]
]

unfoldable pub manual_reset : ManualResetEvent → Option ManualResetEvent
unfolding slock_capture slock_release
manual_reset ev = elim (slock_capture ev.lock) [
  | none ↦ none
  | some l ↦ some (record ev { is_set = false; lock = slock_release l })
]

-- `wait`, with the address of the entry that `queue_waiting_thread` keeps on the stack.
unfoldable pub manual_wait : ℕ → ManualResetEvent → Memory → Option (ManualResetEvent × Memory)
unfolding on_queue
manual_wait entry ev m = elim (on_queue (queue_waiting_thread entry) ev.threads_queue m) [
  | none ↦ none
  | some (q, n) ↦ some (record ev { threads_queue = q }, n)
]

unfoldable pub new_manual_reset_event : ℕ → Bool → Memory → Option (ManualResetEvent × Memory)
unfolding slock_init init_threads_queue manual_set manual_reset
new_manual_reset_event fuel signal m =
    let ev : ManualResetEvent = record {
      signal = slock_init;
      lock = slock_init;
      is_set = signal;
      threads_queue = init_threads_queue;
    } in
    if signal
    then manual_set fuel ev m
    else elim (manual_reset ev) [ none ↦ none | some e ↦ some (e, m) ]

-- ===== src/Sync/Monitor/Tests.antt =====
-- The monitor at concrete states.
use test_kernel.Base.{◌≡◌, refl, true, false, arith, update}
use test_kernel.Threads.{slock_capture, slock_init}
use test_kernel.Threads.Queue.{init_threads_queue}
use test_kernel.Sync.{nobody}
use test_kernel.Sync.Tests.{memory}
use test_kernel.Sync.Events.{ManualResetEvent, new_manual_reset_event, manual_reset}
use test_kernel.Sync.Monitor.{
  Monitor, outside, capture_enter, capture_body, pulse_test, pulse_queue, new_monitor, advance,
  lock_capture, capture_impl, capture_test, wait_again, release_impl, lock_release,
}
use test_kernel.Sync.Monitor.Exclusion.{
  System, call, moves, Reach, made, later, IsSound, monitor-IsSound, moved,
}
use test_kernel.Sync.Monitor.Trap.{is_waiting, Quietly, stay, step, notify_all-traps}

abbrev event : ManualResetEvent
event = record {
  signal = 0;
  lock = 0;
  is_set = false;
  threads_queue = record { head = 0; tail = 0; lock = 0; count = 0 };
}

abbrev pub fresh : Monitor
fresh = record {
  enter_counter = 0;
  owner_thread_id = nobody;
  is_multi_pulse = false;
  is_pulse_handled = false;
  pulse_signal = event;
  release_signal = event;
  lock = 0;
  threads_queue_pulse = event.threads_queue;
  threads_queue_release = event.threads_queue;
}

abbrev started : System
started = record { pcs = λ t. outside; depths = λ t. 0; monitor = fresh; memory = memory }

abbrev calling : System
calling = record started { pcs = update started.pcs 0 capture_enter }

abbrev captured : System
captured = moved 0 calling capture_body (record fresh { lock = 1 }) memory

-- Thread 0 has entered a new monitor.
abbrev entered : System
entered = moved 0 captured outside (record fresh { owner_thread_id = 0; enter_counter = 1 }) memory

entered-Reach : Reach entered
unfolding new_monitor new_manual_reset_event manual_reset slock_init init_threads_queue advance
    lock_capture slock_capture capture_impl capture_test
entered-Reach =
    later
      (later (later (made memory memory fresh refl) (call capture_enter refl refl))
        (moves 0 capture_body (record fresh { lock = 1 }) memory refl (omega arith) (omega arith)))
      (moves 0 outside (record fresh { owner_thread_id = 0; enter_counter = 1 }) memory refl
        (omega arith) (omega arith))

monitor-IsSound_example : IsSound entered
monitor-IsSound_example = monitor-IsSound entered-Reach

-- Thread 0 has been woken by a `notifyAll` and tests the loop's condition with the lock taken.
abbrev woken : System
woken = record started {
  pcs = update started.pcs 0 pulse_test;
  monitor = record fresh { is_multi_pulse = true; lock = 1 };
}

abbrev asleep : System
asleep = moved 0 woken pulse_queue (record fresh { is_multi_pulse = true }) memory

one_step : Quietly woken asleep
unfolding advance wait_again release_impl lock_release
one_step =
    step (λ e. ground arith)
      (moves 0 pulse_queue (record fresh { is_multi_pulse = true }) memory refl (omega arith)
        (omega arith))
      stay

notify_all-traps_example :
    (asleep.monitor.is_multi_pulse ≡ true) × (is_waiting (asleep.pcs 0) ≡ true)
notify_all-traps_example = notify_all-traps 0 one_step refl refl

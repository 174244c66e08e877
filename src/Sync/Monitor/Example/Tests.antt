-- ===== src/Sync/Monitor/Example/Tests.antt =====
-- Thread 0 behind the return of `capture` in `monitorExample`.
use test_kernel.Base.{ℕ, ◌≡◌, refl, some, arith, update}
use test_kernel.Boot.Console.{codes}
use test_kernel.Sync.{Memory}
use test_kernel.Sync.Tests.{black, zeros}
use test_kernel.Sync.Events.{new_manual_reset_event, manual_reset}
use test_kernel.Sync.Monitor.{
  outside, capture_body, new_monitor, advance, lock_capture, lock_release, capture_impl,
  capture_test, enter,
}
use test_kernel.Sync.Monitor.Exclusion.{moved}
use test_kernel.Sync.Monitor.Tests.{fresh}
use test_kernel.Sync.Monitor.Example.{
  absent, ready, holding, Run, print, calls, goes_on, begin_capture, captures, holds, moves,
  monitor_example, Reach, made, later,
}
use test_kernel.Sync.Monitor.Example.Owner.{value_guarded}
use test_kernel.Threads.{
  Kernel, add_thread, create_thread, slock_init, slock_capture, slock_release,
  get_current_thread_id,
}
use test_kernel.Threads.Queue.{init_threads_queue}
use test_kernel.Threads.Lifecycle.{boot}

abbrev no_entries : Memory
no_entries = record { entries = λ a. record { thread_id = 0; next = 0 }; kernel = boot }

-- The stack is at 0x2000, `run` at 7.
abbrev two : Kernel
two = add_thread 1 24 32 7 0x2000 1024 boot

abbrev begun : Run
begun = record {
  system = record {
    pcs = λ t. outside;
    depths = λ t. 0;
    monitor = fresh;
    memory = record no_entries { kernel = two };
  };
  stages = update (update (λ t. absent) 0 ready) 1 ready;
  main = 0;
  value = 0;
  display = print 0 0x90000 zeros (codes "main::Sleeping\n") black;
}

begun_there : monitor_example 1 24 32 7 0x2000 0x90000 zeros no_entries black ≡ some begun
unfolding monitor_example create_thread new_monitor new_manual_reset_event manual_reset slock_init
    slock_capture slock_release init_threads_queue add_thread get_current_thread_id
begun_there = refl

abbrev called : Run
called = begin_capture 0x90000 zeros begun

abbrev captured : Run
captured = record called {
  system = moved 0 called.system capture_body (record fresh { lock = 1 }) called.system.memory;
}

abbrev entered : Run
entered = record captured {
  system =
      moved 0 captured.system outside (record fresh { owner_thread_id = 0; enter_counter = 1 })
        captured.system.memory;
}

abbrev inside : Run
inside = goes_on holding (λ d. d) entered

inside-Reach : Reach 1 24 32 7 0x2000 inside
unfolding begin_capture calls goes_on new_monitor advance lock_capture lock_release slock_capture
    slock_release capture_impl capture_test enter add_thread get_current_thread_id
inside-Reach =
    later
      (later
        (later
          (later (made 0x90000 zeros no_entries black begun (omega arith) begun_there)
            (captures 0x90000 zeros refl))
          (moves 0 capture_body (record fresh { lock = 1 }) (record no_entries { kernel = two })
            refl (omega arith) (omega arith)))
        (moves 0 outside (record fresh { owner_thread_id = 0; enter_counter = 1 })
          (record no_entries { kernel = two }) refl (omega arith) (omega arith)))
      (holds refl refl)

value_guarded_example : (◌≡◌ {A = ℕ} 0 0) × (inside.system.monitor.owner_thread_id ≡ 0)
unfolding goes_on begin_capture calls get_current_thread_id add_thread
value_guarded_example = value_guarded inside-Reach 0 0 refl refl

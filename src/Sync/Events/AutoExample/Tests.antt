-- ===== src/Sync/Events/AutoExample/Tests.antt =====
-- A run of `autoResetEventExample` in which the second event is raised twice before a thread
-- passes it.
use test_kernel.Base.{ℕ, true, false, ◌+◌, ◌≤◌, ◌≡◌, ◌⊎◌, refl, none, arith, update}
use test_kernel.Boot.Console.{codes}
use test_kernel.Sync.Events.{AutoResetEvent, auto_wait, auto_set, auto_reset, new_auto_reset_event}
use test_kernel.Sync.Tests.{black, zeros}
use test_kernel.Sync.Events.AutoExample.{
  absent, starting, continuing, waiting_2, raising_1, raising_2, Run, goes_on, start_proc,
  pass_first, pass_second, raise_first, raise_second, starts, passes_1, passes_2, continues,
  raises_1, announces, raises_2, others, start_threads, print, auto_reset_event_example, Reach,
  here, later,
}
use test_kernel.Sync.Events.AutoExample.Counted.{signals, auto_example-conserves}
use test_kernel.Sync.Events.AutoExample.Lost.{lost_signal}
use test_kernel.Threads.{
  Kernel, add_thread, create_thread, get_current_thread_id, slock_init, slock_capture,
  slock_release, slock_set,
}
use test_kernel.Threads.Queue.{init_threads_queue}
use test_kernel.Threads.Lifecycle.{boot}

-- The stacks are at 0x2000, `ThreadProc` at 7; thread 0 runs the example.
abbrev threads : Kernel
threads = add_thread 1 24 32 7 0x3000 4096 (add_thread 1 24 32 7 0x2000 4096 boot)

abbrev turn : ℕ → Kernel
turn t = record threads { curr_thread_index = t }

-- An event of which the signal has been taken.
abbrev spent : AutoResetEvent
spent = new_auto_reset_event false

abbrev begun : Run
begun = record {
  event_1 = new_auto_reset_event true;
  event_2 = new_auto_reset_event false;
  stages = update (update (update (λ t. absent) 0 continuing) 1 starting) 2 starting;
  raised_1 = 0;
  raised_2 = 0;
  passed_1 = 0;
  passed_2 = 0;
  kernel = threads;
  display =
      print 0 0x90000 zeros (codes "Threads created")
        (print 0 0x90000 zeros (codes "Starting autoResetEventExample") black);
}

begun_there : auto_reset_event_example 1 24 32 7 0x2000 0x90000 zeros boot black ≡ begun
unfolding auto_reset_event_example start_threads create_thread add_thread get_current_thread_id
begun_there = refl

abbrev turn_1 : Run
turn_1 = record begun { kernel = turn 1; display = black }

abbrev asked_1 : Run
asked_1 = start_proc 0x90000 zeros turn_1

abbrev through_1 : Run
through_1 = pass_first 0x90000 zeros spent asked_1

abbrev turn_2 : Run
turn_2 = record through_1 { kernel = turn 2; display = black }

abbrev asked_2 : Run
asked_2 = start_proc 0x90000 zeros turn_2

abbrev turn_0 : Run
turn_0 = record asked_2 { kernel = turn 0; display = black }

abbrev continued : Run
continued = goes_on 0x90000 zeros (raising_1 0) (codes "Continuing") turn_0

abbrev raised : Run
raised = raise_first 0x90000 zeros 0 continued

abbrev turn_3 : Run
turn_3 = record raised { kernel = turn 2; display = black }

abbrev through_2 : Run
through_2 = pass_first 0x90000 zeros spent turn_3

abbrev turn_4 : Run
turn_4 = record through_2 { kernel = turn 0; display = black }

abbrev raised_again : Run
raised_again = raise_first 0x90000 zeros 1 turn_4

abbrev announced : Run
announced =
    goes_on 0x90000 zeros (raising_2 0) (codes "All threads are now waiting on AutoResetEvent #2.")
      raised_again

abbrev raised_second : Run
raised_second = raise_second 0x90000 zeros 0 announced

abbrev raised_twice : Run
raised_twice = raise_second 0x90000 zeros 1 raised_second

abbrev turn_5 : Run
turn_5 = record raised_twice { kernel = turn 1; display = black }

abbrev done : Run
done = pass_second 0x90000 zeros spent turn_5

abbrev turn_6 : Run
turn_6 = record done { kernel = turn 0; display = black }

turn_1-Reach : Reach begun turn_1
turn_1-Reach = later here (others (turn 1) black)

asked_1-Reach : Reach begun asked_1
unfolding goes_on start_proc pass_first pass_second raise_first raise_second get_current_thread_id
    auto_wait auto_set auto_reset new_auto_reset_event slock_init slock_set slock_capture
    slock_release add_thread init_threads_queue
asked_1-Reach = later turn_1-Reach (starts 0x90000 zeros refl)

through_1-Reach : Reach begun through_1
unfolding goes_on start_proc pass_first pass_second raise_first raise_second get_current_thread_id
    auto_wait auto_set auto_reset new_auto_reset_event slock_init slock_set slock_capture
    slock_release add_thread init_threads_queue
through_1-Reach = later asked_1-Reach (passes_1 0x90000 zeros spent refl refl)

turn_2-Reach : Reach begun turn_2
turn_2-Reach = later through_1-Reach (others (turn 2) black)

asked_2-Reach : Reach begun asked_2
unfolding goes_on start_proc pass_first pass_second raise_first raise_second get_current_thread_id
    auto_wait auto_set auto_reset new_auto_reset_event slock_init slock_set slock_capture
    slock_release add_thread init_threads_queue
asked_2-Reach = later turn_2-Reach (starts 0x90000 zeros refl)

turn_0-Reach : Reach begun turn_0
turn_0-Reach = later asked_2-Reach (others (turn 0) black)

continued-Reach : Reach begun continued
unfolding goes_on start_proc pass_first pass_second raise_first raise_second get_current_thread_id
    auto_wait auto_set auto_reset new_auto_reset_event slock_init slock_set slock_capture
    slock_release add_thread init_threads_queue
continued-Reach = later turn_0-Reach (continues 0x90000 zeros refl)

raised-Reach : Reach begun raised
unfolding goes_on start_proc pass_first pass_second raise_first raise_second get_current_thread_id
    auto_wait auto_set auto_reset new_auto_reset_event slock_init slock_set slock_capture
    slock_release add_thread init_threads_queue
raised-Reach = later continued-Reach (raises_1 0x90000 zeros 0 refl (omega arith))

turn_3-Reach : Reach begun turn_3
turn_3-Reach = later raised-Reach (others (turn 2) black)

through_2-Reach : Reach begun through_2
unfolding goes_on start_proc pass_first pass_second raise_first raise_second get_current_thread_id
    auto_wait auto_set auto_reset new_auto_reset_event slock_init slock_set slock_capture
    slock_release add_thread init_threads_queue
through_2-Reach = later turn_3-Reach (passes_1 0x90000 zeros spent refl refl)

turn_4-Reach : Reach begun turn_4
turn_4-Reach = later through_2-Reach (others (turn 0) black)

raised_again-Reach : Reach begun raised_again
unfolding goes_on start_proc pass_first pass_second raise_first raise_second get_current_thread_id
    auto_wait auto_set auto_reset new_auto_reset_event slock_init slock_set slock_capture
    slock_release add_thread init_threads_queue
raised_again-Reach = later turn_4-Reach (raises_1 0x90000 zeros 1 refl (omega arith))

announced-Reach : Reach begun announced
unfolding goes_on start_proc pass_first pass_second raise_first raise_second get_current_thread_id
    auto_wait auto_set auto_reset new_auto_reset_event slock_init slock_set slock_capture
    slock_release add_thread init_threads_queue
announced-Reach = later raised_again-Reach (announces 0x90000 zeros refl)

raised_second-Reach : Reach begun raised_second
unfolding goes_on start_proc pass_first pass_second raise_first raise_second get_current_thread_id
    auto_wait auto_set auto_reset new_auto_reset_event slock_init slock_set slock_capture
    slock_release add_thread init_threads_queue
raised_second-Reach = later announced-Reach (raises_2 0x90000 zeros 0 refl (omega arith))

raised_twice-Reach : Reach begun raised_twice
unfolding goes_on start_proc pass_first pass_second raise_first raise_second get_current_thread_id
    auto_wait auto_set auto_reset new_auto_reset_event slock_init slock_set slock_capture
    slock_release add_thread init_threads_queue
raised_twice-Reach = later raised_second-Reach (raises_2 0x90000 zeros 1 refl (omega arith))

turn_5-Reach : Reach begun turn_5
turn_5-Reach = later raised_twice-Reach (others (turn 1) black)

done-Reach : Reach begun done
unfolding goes_on start_proc pass_first pass_second raise_first raise_second get_current_thread_id
    auto_wait auto_set auto_reset new_auto_reset_event slock_init slock_set slock_capture
    slock_release add_thread init_threads_queue
done-Reach = later turn_5-Reach (passes_2 0x90000 zeros spent refl refl)

turn_6-Reach : Reach begun turn_6
turn_6-Reach = later done-Reach (others (turn 0) black)

auto_example-conserves_example :
    (2 + signals done.event_1 ≤ 1 + 2)
    × (1 + signals done.event_2 ≤ 2)
    × (2 ≤ 2)
    × (2 ≤ 2)
    × ((done.raised_2 ≡ 0) ⊎ (done.raised_1 ≡ 2))
unfolding goes_on start_proc pass_first pass_second raise_first raise_second get_current_thread_id
    auto_wait auto_set auto_reset new_auto_reset_event slock_init slock_set slock_capture
    slock_release add_thread init_threads_queue
auto_example-conserves_example =
    auto_example-conserves 1 24 32 7 0x2000 0x90000 zeros boot black begun done (omega arith)
      (omega arith) begun_there done-Reach

-- Thread 2 waits for ever.
lost_signal_example :
    (turn_6.stages 2 ≡ waiting_2) × (auto_wait turn_6.event_2 ≡ none) × (turn_6.passed_2 ≡ 1)
unfolding goes_on start_proc pass_first pass_second raise_first raise_second get_current_thread_id
    auto_wait auto_set auto_reset new_auto_reset_event slock_init slock_set slock_capture
    slock_release add_thread init_threads_queue
lost_signal_example =
    lost_signal 1 24 32 7 0x2000 0x90000 zeros boot black begun done turn_6 2 (omega arith)
      (omega arith) begun_there done-Reach refl refl refl (later here (others (turn 0) black))

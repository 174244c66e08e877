-- ===== src/Threads/Tests.antt =====
-- The scheduler and the queue at concrete states: tests of threads.c, and the theorems at states.
use test_kernel.Base.{ℕ, ◌+◌, ◌-◌, update, ◌==◌, ◌≡◌, refl, true, none, some, [], ◌∷◌, arith}
use test_kernel.Threads.{
  passive_wait_cond, active_wait_cond, running, Kernel, zero_registers, threading_start,
  init_main_thread, pause_curr_thread, enter_thread, add_thread, create_thread, change_thread,
  next_scheduled, slock_set, slock_release, slock_capture,
}
use test_kernel.Threads.Scheduling.{Switched, change_thread-Switched}
use test_kernel.Threads.Scheduling.Fairness.{Reaches, no_starvation}
use test_kernel.Threads.Lifecycle.{
  main_runs, Reach, booted, later, start, create, tick, enter, pause, Created, boot, zero_thread,
  Reach-IsSound, create_thread-Created,
}
use test_kernel.Threads.Table.{System, becomes, IsSound}
use test_kernel.Threads.Status.{fresh, ready, waiting, starting, inside}
use test_kernel.Threads.Waking.{IsPaused, Woken}
use test_kernel.Threads.Queue.{
  World, queue_waiting_thread, wake_queued_thread, wake_queued_threads, enqueue, locked,
}
use test_kernel.Threads.Queue.Order.{Holds}
use test_kernel.Threads.Queue.Fifo.{Passed, queue-Passed}
use test_kernel.Threads.Queue.All.{wake_each, wake_queued_threads-all}
use test_kernel.Threads.Queue.Hazards.{lost_wakeup, requeue_hangs}

-- Three threads, of which the second is out of the schedule; the first one runs.
abbrev three : Kernel
three = record {
  threads = λ i. elim i [
    | ℕ.zero ↦ record zero_thread { is_under_sheduling = true; state = running; stack_ptr = 1000 }
    | ℕ.suc ℕ.zero ↦ record zero_thread { stack_ptr = 2000 }
    | ℕ.suc (ℕ.suc j) ↦ record zero_thread {
      is_under_sheduling = true;
      state = running;
      stack_ptr = 3000;
    }
  ];
  threading_enabled = true;
  curr_threads_count = 3;
  curr_thread_index = 0;
  frames = λ a. zero_registers;
}

switch_skips : next_scheduled three.threads 3 3 0 ≡ some 2
unfolding next_scheduled
switch_skips = refl

change_thread-Switched_example :
    (r : ℕ) × (n : Kernel) × (change_thread 3 1234 three ≡ some (r, n)) × Switched 1234 three r n
change_thread-Switched_example =
    change_thread-Switched 1234 three refl 2 (omega arith) (omega arith) refl

abbrev all_off : Kernel
all_off = record three { threads = λ i. zero_thread }

no_starvation_example : Reaches (λ k. 500) 3 three 2
no_starvation_example = no_starvation (λ k. 500) three 2 refl (omega arith) (omega arith) refl

-- The main thread has created thread 1, which has begun, run, and paused.
abbrev with_thread : System
with_thread =
    becomes (main_runs (threading_start (init_main_thread boot)))
      (create_thread 1 24 32 7 0x2000 4096 (threading_start (init_main_thread boot))).1 1 fresh
      starting

with_thread-Reach : Reach 1 24 32 with_thread
unfolding create_thread threading_start init_main_thread
with_thread-Reach = later (later booted start) (create 7 0x2000 4096 (omega arith))

abbrev switched : System
switched = record with_thread {
  kernel = record with_thread.kernel {
    threads =
        update with_thread.kernel.threads 0
          (record (with_thread.kernel.threads 0) { stack_ptr = 500 });
    curr_thread_index = 1;
  };
}

switched-Reach : Reach 1 24 32 switched
unfolding create_thread add_thread change_thread next_scheduled threading_start init_main_thread
switched-Reach = later with_thread-Reach (tick 2 500 (0x2000 + 4096 - 56) refl)

abbrev begun : System
begun = becomes switched (enter_thread switched.kernel) 1 ready inside

abbrev paused : System
paused = becomes begun (pause_curr_thread begun.kernel) 1 waiting inside

paused-Reach : Reach 1 24 32 paused
unfolding enter_thread
paused-Reach = later (later switched-Reach (enter refl)) (pause refl)

Reach-IsSound_example : IsSound paused
Reach-IsSound_example = Reach-IsSound paused-Reach

create_thread-Created_example :
    (n : Kernel) × (create_thread 0x10abc 24 32 0x20000 0x30000 4096 three
      ≡ (three.curr_threads_count, n))
    × Created 0x10abc 24 32 0x20000 0x30000 4096 three n three.curr_threads_count
create_thread-Created_example =
    create_thread-Created 0x10abc 24 32 0x20000 0x30000 4096 three (omega arith) (omega arith)
      (omega arith)

-- The 201st thread gets the id 200.
table_full : (create_thread 1 24 32 2 3 4096 (record three { curr_threads_count = 200 })).0 ≡ 200
unfolding create_thread
table_full = refl

-- A set spin lock is not taken; a released one is.
lock_cycle :
    (slock_capture (slock_set 0) ≡ none) × (slock_capture (slock_release (slock_set 0)) ≡ some 1)
unfolding slock_capture slock_set slock_release
lock_cycle = (refl, refl)

abbrev empty : World
empty = record {
  queue = record { head = 0; tail = 0; lock = 0; count = 0 };
  entries = λ a. record { next = 0; thread_id = 0 };
  kernel = three;
}

empty-Holds : Holds empty []
empty-Holds = record {
  lists = record { chain = refl; distinct = tt; tail = refl; count = refl };
  unlocked = refl;
}

abbrev one_waits : World
one_waits = record empty {
  queue = record { head = 640; tail = 640; lock = 0; count = 1 };
  entries = λ a. record { next = 0; thread_id = 1 };
}

one_waits-Holds : Holds one_waits ((640, 1) ∷ [])
one_waits-Holds = record {
  lists = record {
    chain = (refl, omega arith, refl, refl);
    distinct = (tt, tt);
    tail = refl;
    count = refl;
  };
  unlocked = refl;
}

queue-Passed_example : Passed 320 one_waits ((640, 1) ∷ [])
queue-Passed_example =
    queue-Passed 320 one_waits ((640, 1) ∷ []) one_waits-Holds (omega arith) (omega arith, tt)
      (omega arith) (omega arith) (record { in_table = omega arith; off = refl; waits = refl }, tt)

wake_queued_threads-all_example :
    (n : World) × (wake_queued_threads 2 one_waits ≡ some n)
    × Holds n []
    × (n.kernel ≡ wake_each ((640, 1) ∷ []) one_waits.kernel)
wake_queued_threads-all_example =
    wake_queued_threads-all 2 one_waits ((640, 1) ∷ []) one_waits-Holds (omega arith) (omega arith)

lost_wakeup_example :
    (v : World) × (u : World) × (locked (λ x. some (enqueue 320 x)) empty ≡ some v)
    × (wake_queued_thread v ≡ some u)
    × Holds u []
    × (u.kernel ≡ three)
    × IsPaused (pause_curr_thread u.kernel) 0
    × ((n : World) × (o : World) × (queue_waiting_thread 320 empty ≡ some n)
        × (wake_queued_thread n ≡ some o)
        × Holds o []
        × Woken 0 n.kernel o.kernel)
lost_wakeup_example = lost_wakeup 320 empty empty-Holds (omega arith) (omega arith) refl

requeue_hangs_example :
    (v : World) × (u : World) × (queue_waiting_thread 320 empty ≡ some v)
    × (queue_waiting_thread 320 v ≡ some u)
    × ((u.entries 320).next ≡ 320)
    × (wake_queued_threads 99 u ≡ none)
requeue_hangs_example = requeue_hangs 320 empty 99 empty-Holds (omega arith)

-- A condition that holds at its second call: one pause, or none.
waits_once :
    (passive_wait_cond (λ i. i == 1) (λ i k. k) 2 0 three ≡ some (pause_curr_thread three))
    × (active_wait_cond (λ i. i == 1) (λ i k. k) 2 0 three ≡ some three)
unfolding passive_wait_cond active_wait_cond
waits_once = (refl, refl)

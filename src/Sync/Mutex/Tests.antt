-- ===== src/Sync/Mutex/Tests.antt =====
-- The mutex at concrete states.
use test_kernel.Base.{ℕ, update, ◌≡◌, refl, some, [], arith}
use test_kernel.Threads.{slock_capture, slock_init, get_current_thread_id}
use test_kernel.Threads.Waking.{Woken}
use test_kernel.Threads.Queue.Order.{Holds}
use test_kernel.Sync.{Memory, world, nobody}
use test_kernel.Sync.Tests.{memory, one_waits, one_waits-Holds}
use test_kernel.Sync.Mutex.{
  Mutex, outside, wait_capture, wait_body, new_mutex, advance, capture, wait_test, loop_test,
}
use test_kernel.Sync.Mutex.Exclusion.{
  System, call_wait, moves, Reach, made, later, mutual_exclusion, moved,
}
use test_kernel.Sync.Mutex.Handoff.{release, release-hands_over}

abbrev started : System
started = record { pcs = λ t. outside; depths = λ t. 0; mutex = new_mutex; memory = memory }

abbrev calling : System
calling = record started { pcs = update started.pcs 0 wait_capture }

abbrev captured : System
captured = moved 0 calling wait_body (record new_mutex { lock = 1 }) memory

-- Thread 0 has entered a new mutex.
abbrev entered : System
entered =
    moved 0 captured outside (record new_mutex { owner_thread_id = 0; enter_counter = 1 }) memory

entered-Reach : Reach entered
unfolding new_mutex advance capture slock_capture wait_test loop_test
entered-Reach =
    later
      (later (later (made memory) (call_wait refl))
        (moves 0 wait_body (record new_mutex { lock = 1 }) memory refl (omega arith) (omega arith)))
      (moves 0 outside (record new_mutex { owner_thread_id = 0; enter_counter = 1 }) memory refl
        (omega arith) (omega arith))

mutual_exclusion_example : ◌≡◌ {A = ℕ} 0 0
mutual_exclusion_example = mutual_exclusion entered-Reach 0 0 (omega arith) (omega arith)

abbrev owned : Mutex
owned = record new_mutex { owner_thread_id = 0; enter_counter = 1; threads_queue = one_waits }

-- Thread 0 leaves, and thread 1 waits.
release-hands_over_example :
    (o : Mutex) × (n : Memory) × (release owned memory ≡ some (outside, o, n))
    × (o.owner_thread_id ≡ nobody)
    × (o.enter_counter ≡ 0)
    × (o.lock ≡ 0)
    × Holds (world o.threads_queue n) []
    × Woken 1 memory.kernel n.kernel
unfolding new_mutex slock_init get_current_thread_id
release-hands_over_example =
    release-hands_over owned memory 640 1 [] refl refl refl one_waits-Holds (omega arith)
      (record { in_table = omega arith; off = refl; waits = refl })

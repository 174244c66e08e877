-- ===== src/Sync/Semaphore/Interleaved/Tests.antt =====
-- A semaphore of 0 to 0: thread 0 takes its unit, and is at the next.
use test_kernel.Base.{
  ◌⊎◌, true, false, ℕ, ◌+◌, ◌-◌, ◌≤◌, ◌≡◌, refl, none, some, arith, sub32, update,
}
use test_kernel.Threads.{get_current_thread_id, slock_init, slock_capture, slock_release}
use test_kernel.Threads.Queue.{init_threads_queue, wake_queued_thread, locked, wake_head}
use test_kernel.Sync.{on_queue}
use test_kernel.Sync.Tests.{memory}
use test_kernel.Sync.Ownership.{Exclusive}
use test_kernel.Sync.Semaphore.{Semaphore, new_semaphore}
use test_kernel.Sync.Semaphore.Interleaved.{
  Field, outside, wait_capture, release_capture, release_body, release_wake, capture, release_test,
  queued, advance, System, moved, calls, moves, begun, Reach, here, later,
}
use test_kernel.Sync.Semaphore.Interleaved.Counts.{inside}
use test_kernel.Sync.Semaphore.Interleaved.Lock.{semaphore_lock}
use test_kernel.Sync.Semaphore.Interleaved.Jam.{Jammed, release-jams}

abbrev fresh : System
fresh = begun 0 0 memory

-- The counter, the lock and the place behind each step.
abbrev locked_at : ℕ → Semaphore
locked_at c = record (new_semaphore 0 0) { counter = c; spinlock = 1 }

abbrev captured : System
captured =
    moved 0 (record fresh { pcs = update fresh.pcs 0 release_capture }) release_body (locked_at 0)
      memory

abbrev counted : System
counted = moved 0 captured release_wake (record (locked_at 4294967295) { spinlock = 0 }) memory

abbrev back : System
back = moved 0 counted outside (record (locked_at 4294967295) { spinlock = 0 }) memory

abbrev again : System
again =
    moved 0 (record back { pcs = update back.pcs 0 release_capture }) release_body
      (locked_at 4294967295) memory

again-Reach : Reach fresh again
unfolding advance capture release_test queued on_queue slock_capture slock_release new_semaphore
    get_current_thread_id wake_queued_thread locked wake_head init_threads_queue slock_init
again-Reach =
    later
      (later
        (later
          (later
            (later (later here (calls Field.wait refl))
              (moves 0 release_body (locked_at 0) memory refl))
            (moves 0 release_wake (record (locked_at 4294967295) { spinlock = 0 }) memory refl))
          (moves 0 outside (record (locked_at 4294967295) { spinlock = 0 }) memory refl))
        (calls Field.wait refl))
      (moves 0 release_body (locked_at 4294967295) memory refl)

semaphore_lock_example :
    (0 ≤ again.taken)
    × (again.taken ≤ 0 + (0 - 0 + 1))
    × (again.semaphore.counter ≡ sub32 (0 + 0) again.taken)
    × Exclusive (λ t. inside (again.pcs t)) again.semaphore.spinlock
    × ((again.semaphore.spinlock ≡ 0)
        ⊎ (((t : ℕ) × (inside (again.pcs t) ≡ true))
            ⊎ ((again.semaphore.spinlock ≡ 1)
                × ((t : ℕ) → inside (again.pcs t) ≡ false)
                × (again.taken ≡ 0 + (0 - 0 + 1)))))
semaphore_lock_example = semaphore_lock 0 0 memory again (omega arith) (omega arith) again-Reach

abbrev left : System
left = moved 0 again outside (locked_at 4294967295) memory

release-jams_example :
    (advance 320 release_body (locked_at 4294967295) memory
      ≡ some (outside, locked_at 4294967295, memory))
    × Jammed 1 0 left
    × (advance 320 wait_capture (locked_at 4294967295) memory ≡ none)
    × (advance 320 release_capture (locked_at 4294967295) memory ≡ none)
unfolding get_current_thread_id
release-jams_example =
    release-jams 0 0 320 memory again left (omega arith) (omega arith) again-Reach refl refl here

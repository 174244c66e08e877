-- ===== src/Threads/Waking.antt =====
-- src/arch/ia32/threads.c: what `pause_curr_thread` and `wake_thread` do to the schedule.
use test_kernel.Base.{ℕ, ◌<◌, ◌≡◌, ◌≢◌, true, false, arith}
use test_kernel.Threads.{Kernel, wait_sleep_join, running, wake_thread, pause_curr_thread}

-- The thread t is one of the table, waits, and is out of the schedule.
pub record IsPaused (k : Kernel) (t : ℕ) : Type 0 where
  pub in_table : t < k.curr_threads_count
  pub off : (k.threads t).is_under_sheduling ≡ false
  pub waits : (k.threads t).state ≡ wait_sleep_join

-- The thread t is in the schedule again and runs, and nothing else has changed in the table.
pub record Woken (t : ℕ) (k n : Kernel) : Type 0 where
  pub scheduled : (n.threads t).is_under_sheduling ≡ true
  pub runs : (n.threads t).state ≡ running
  pub others_kept : (j : ℕ) → j ≢ t → n.threads j ≡ k.threads j
  pub same_count : n.curr_threads_count ≡ k.curr_threads_count
  pub same_current : n.curr_thread_index ≡ k.curr_thread_index

pub wake_thread-Woken : (t : ℕ) (k : Kernel) → IsPaused k t → Woken t k (wake_thread t k).1
unfolding wake_thread
wake_thread-Woken t k p = record {
  scheduled = ground (arith, p.in_table, p.off, p.waits);
  runs = ground (arith, p.in_table, p.off, p.waits);
  others_kept = λ j ne. ground arith;
  same_count = ground arith;
  same_current = ground arith;
}

pub pause_curr_thread-IsPaused :
    (k : Kernel)
    → k.curr_thread_index < k.curr_threads_count
    → IsPaused (pause_curr_thread k) k.curr_thread_index
unfolding pause_curr_thread
pause_curr_thread-IsPaused k lt = record { in_table = lt; off = ground arith; waits = ground arith }

pub pause_curr_thread-others :
    (k : Kernel) (j : ℕ) → j ≢ k.curr_thread_index → (pause_curr_thread k).threads j ≡ k.threads j
unfolding pause_curr_thread
pause_curr_thread-others k j ne = ground arith

-- A thread that has paused stays so when another one pauses.
pub pause_curr_thread-still : (k : Kernel) (t : ℕ) → IsPaused k t → IsPaused (pause_curr_thread k) t
unfolding pause_curr_thread
pause_curr_thread-still k t p = record {
  in_table = p.in_table;
  off = ground (arith, p.off);
  waits = ground (arith, p.waits);
}

-- ===== src/Threads/Queue/Fifo.antt =====
-- TestKernel1/src/arch/ia32/threads.c: the queue of waiting threads is first in, first out.
use test_kernel.Base.{
  ℕ, ◌+◌, ◌<◌, ◌^◌, ◌≡◌, ◌≢◌, refl, some, [], ◌∷◌, ◌++◌, length, length-append, arith,
}
use test_kernel.Threads.{Kernel, pause_curr_thread, wake_thread}
use test_kernel.Threads.Waking.{
  IsPaused, Woken, wake_thread-Woken, pause_curr_thread-IsPaused, pause_curr_thread-others,
  pause_curr_thread-still,
}
use test_kernel.Threads.Queue.{World, queue_waiting_thread, wake_queued_thread}
use test_kernel.Threads.Queue.Order.{
  Waiting, Holds, NotIn, queue_waiting_thread-appends, wake_queued_thread-first,
}

-- What a `queue_waiting_thread` and a `wake_queued_thread` behind it do, in front of whom the list
-- es is: the first of the longer list, the thread t with its entry at b, is woken.
pub record Passed (a : ℕ) (w : World) (es : Waiting) : Type 0 where
  pub queued : World
  pub woken : World
  pub b : ℕ
  pub t : ℕ
  pub rest : Waiting
  pub in_order : (b, t) ∷ rest ≡ es ++ ((a, w.kernel.curr_thread_index) ∷ [])
  pub queue_returns : queue_waiting_thread a w ≡ some queued
  pub queue_holds : Holds queued ((b, t) ∷ rest)
  pub paused : queued.kernel ≡ pause_curr_thread w.kernel
  pub wake_returns : wake_queued_thread queued ≡ some woken
  pub wake_holds : Holds woken rest
  pub caller_paused : IsPaused queued.kernel w.kernel.curr_thread_index
  pub others_kept :
      (j : ℕ) → j ≢ w.kernel.curr_thread_index → queued.kernel.threads j ≡ w.kernel.threads j
  pub first_woken : woken.kernel ≡ (wake_thread t queued.kernel).1
  pub runs_again : Woken t queued.kernel woken.kernel

-- The threads of a queue have all paused.
abbrev pub ArePaused : Kernel → Waiting → Type 0
ArePaused k [] = Unit
ArePaused k ((a, t) ∷ es) = IsPaused k t × ArePaused k es

-- For a fresh entry that is not null, on a queue that is not locked and has room, whose threads
-- have all paused, and a current thread of the table: `queue_waiting_thread` returns with the
-- entry of the current thread behind all others and this thread out of the schedule, waiting, and
-- no other thread changed; and then `wake_queued_thread` returns with the first entry off the
-- list, which is that of the longest waiting thread, and with its thread, and no other one, in
-- the schedule again and running.
pub queue-Passed :
    (a : ℕ) (w : World) (es : Waiting)
    → Holds w es
    → a ≢ 0
    → NotIn a es
    → length es + 1 < 2 ^ 32
    → w.kernel.curr_thread_index < w.kernel.curr_threads_count
    → ArePaused w.kernel es
    → Passed a w es
queue-Passed a w [] h nz fresh room lt all =
    let (n, ran, held, paused) = queue_waiting_thread-appends a w [] h nz fresh room in
    let (v, woke, left, kernel) =
      wake_queued_thread-first n a w.kernel.curr_thread_index [] held room in
    let off : IsPaused n.kernel w.kernel.curr_thread_index =
      rw paused (pause_curr_thread-IsPaused w.kernel lt) in
    record {
      queued = n;
      woken = v;
      b = a;
      t = w.kernel.curr_thread_index;
      rest = [];
      in_order = refl;
      queue_returns = ran;
      queue_holds = held;
      paused = paused;
      wake_returns = woke;
      wake_holds = left;
      caller_paused = off;
      others_kept = λ j ne. rw paused (pause_curr_thread-others w.kernel j ne);
      first_woken = kernel;
      runs_again = rw kernel (wake_thread-Woken _ n.kernel off);
    }
queue-Passed a w ((b, t) ∷ es) h nz fresh room lt (first, all) =
    let (n, ran, held, paused) = queue_waiting_thread-appends a w ((b, t) ∷ es) h nz fresh room in
    let rest : Waiting = es ++ ((a, w.kernel.curr_thread_index) ∷ []) in
    let (v, woke, left, kernel) =
      wake_queued_thread-first n b t rest held (omega (arith, room, length-append {0})) in
    let off : IsPaused n.kernel w.kernel.curr_thread_index =
      rw paused (pause_curr_thread-IsPaused w.kernel lt) in
    let still : IsPaused n.kernel t = rw paused (pause_curr_thread-still w.kernel t first) in
    record {
      queued = n;
      woken = v;
      b = b;
      t = t;
      rest = rest;
      in_order = refl;
      queue_returns = ran;
      queue_holds = held;
      paused = paused;
      wake_returns = woke;
      wake_holds = left;
      caller_paused = off;
      others_kept = λ j ne. rw paused (pause_curr_thread-others w.kernel j ne);
      first_woken = kernel;
      runs_again = rw kernel (wake_thread-Woken _ n.kernel still);
    }

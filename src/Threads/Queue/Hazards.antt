-- ===== src/Threads/Queue/Hazards.antt =====
-- Two orders of events in which the queue fails its clients.
use test_kernel.Base.{
  ℕ, zero, suc, ◌<◌, ◌≡◌, ◌≢◌, refl, ap, ◌∙◌, Option, none, some, [], ◌∷◌, arith, update,
  update-same,
}
use test_kernel.Threads.{Kernel, wake_thread, pause_curr_thread, running}
use test_kernel.Threads.Waking.{IsPaused, Woken, wake_thread-Woken, pause_curr_thread-IsPaused}
use test_kernel.Threads.Queue.{
  World, Entry, locked, enqueue, then_pause, wake_head, wake_loop, wake_queued_thread,
  wake_queued_threads, queue_waiting_thread,
}
use test_kernel.Threads.Queue.Order.{
  Holds, with_lock, locked-some, Holds-with_lock, Lists-with_lock, enqueue-Lists, enqueue-ends,
  entered, enqueue-behind, wake_queued_thread-first, queue_waiting_thread-appends,
  queue_waiting_thread-locked,
}

-- A thread that still runs is not woken.
wake_running : (t : ℕ) (k : Kernel) → (k.threads t).state ≡ running → (wake_thread t k).1 ≡ k
unfolding wake_thread
wake_running t k h = ground arith

-- The thread has linked its entry into an empty queue and given up the lock, but has not come to
-- `pause_curr_thread` yet. A `wake_queued_thread` at this moment takes the entry out of the queue
-- and wakes nobody: the table stays as it is. The thread then pauses, is out of the schedule, and
-- stands in no queue. Had it come to its pause first, the same wake would have taken the same
-- entry and put the thread back into the schedule.
pub lost_wakeup :
    (a : ℕ) (w : World)
    → Holds w []
    → a ≢ 0
    → w.kernel.curr_thread_index < w.kernel.curr_threads_count
    → (w.kernel.threads w.kernel.curr_thread_index).state ≡ running
    → (v : World) × (u : World) × (locked (λ x. some (enqueue a x)) w ≡ some v)
      × (wake_queued_thread v ≡ some u)
      × Holds u []
      × (u.kernel ≡ w.kernel)
      × IsPaused (pause_curr_thread u.kernel) w.kernel.curr_thread_index
      × ((n : World) × (o : World) × (queue_waiting_thread a w ≡ some n)
          × (wake_queued_thread n ≡ some o)
          × Holds o []
          × Woken w.kernel.curr_thread_index n.kernel o.kernel)
lost_wakeup a w h nz lt runs =
    let (u, woke, empty, kernel) =
      wake_queued_thread-first v a w.kernel.curr_thread_index [] held (omega arith) in
    let nobody : u.kernel ≡ w.kernel =
      kernel
      ∙ ap (λ (k : Kernel). (wake_thread w.kernel.curr_thread_index k).1) same
      ∙ wake_running _ w.kernel runs in
    let (n, ran, queued, paused) = queue_waiting_thread-appends a w [] h nz tt (omega arith) in
    let (o, took, left, woke_it) =
      wake_queued_thread-first n a w.kernel.curr_thread_index [] queued (omega arith) in
    (
      v,
      u,
      locked-some (λ x. some (enqueue a x)) w (enqueue a (with_lock 1 w)) h.unlocked refl
          (enqueue-ends a (with_lock 1 w)).2,
      woke,
      empty,
      nobody,
      rw nobody (pause_curr_thread-IsPaused w.kernel lt),
      (
        n,
        o,
        ran,
        took,
        left,
        rw woke_it (
            wake_thread-Woken w.kernel.curr_thread_index n.kernel
              (rw paused (pause_curr_thread-IsPaused w.kernel lt))),
      ),
    )
  where
    v : World
    v = with_lock 0 (enqueue a (with_lock 1 w))

    held : Holds v ((a, w.kernel.curr_thread_index) ∷ [])
    held =
        Holds-with_lock
          (enqueue-Lists a (with_lock 1 w) [] (Lists-with_lock h.lists) nz tt (omega arith))

    same : v.kernel ≡ w.kernel
    same = (enqueue-ends a (with_lock 1 w)).3

locked-none :
    (f : World → Option World) (w : World)
    → w.queue.lock ≡ 0
    → f (with_lock 1 w) ≡ none
    → locked f w ≡ none
unfolding locked
locked-none f w free ran = ground arith

wake_queued_threads-locked :
    (fuel : ℕ) (w : World) → wake_queued_threads fuel w ≡ locked (wake_loop fuel) w
unfolding wake_queued_threads
wake_queued_threads-locked fuel w = refl

-- An entry that is linked to itself is never the last.
wake_loop_self :
    (fuel a : ℕ) (w : World)
    → a ≢ 0
    → w.queue.head ≡ a
    → (w.entries a).next ≡ a
    → wake_loop fuel w ≡ none
unfolding wake_loop wake_head
wake_loop_self zero a w nz at self = refl
wake_loop_self (suc fuel) a w nz at self =
    ground (arith, wake_loop_self fuel a (wake_head w) nz (unfold wake_head in rw at self) self)

wake_queued_threads_self :
    (fuel a : ℕ) (w : World)
    → a ≢ 0
    → w.queue.head ≡ a
    → (w.entries a).next ≡ a
    → w.queue.lock ≡ 0
    → wake_queued_threads fuel w ≡ none
wake_queued_threads_self fuel a w nz at self free =
    wake_queued_threads-locked fuel w
    ∙ locked-none (wake_loop fuel) w free (wake_loop_self fuel a (with_lock 1 w) nz at self)

requeued :
    (a t : ℕ) (v : World)
    → Holds v ((a, t) ∷ [])
    → a ≢ 0
    → (u : World) × (queue_waiting_thread a v ≡ some u)
      × (u.queue.head ≡ a)
      × ((u.entries a).next ≡ a)
      × (u.queue.lock ≡ 0)
requeued a t v h nz = (
  record (with_lock 0 x) { kernel = pause_curr_thread x.kernel },
  queue_waiting_thread-locked a v
      ∙ ap then_pause (
          locked-some (λ y. some (enqueue a y)) v x h.unlocked refl
            (enqueue-ends a (with_lock 1 v)).2),
  linked.1 ∙ h.lists.chain.0,
  ap (λ (m : ℕ → Entry). (m a).next)
        (linked.0
          ∙ ap
              (λ (b : ℕ).
                update (entered a (with_lock 1 v)) b
                  (record (entered a (with_lock 1 v) b) { next = a }))
              h.lists.tail)
      ∙ ap (λ (e : Entry). e.next) (update-same (entered a (with_lock 1 v)) a _),
  refl,
)
  where
    x : World
    x = enqueue a (with_lock 1 v)

    linked :
        (x.entries
          ≡ update
              (entered a (with_lock 1 v))
              v.queue.tail
              (record (entered a (with_lock 1 v) v.queue.tail) { next = a }))
        × (x.queue.head ≡ v.queue.head)
    linked = enqueue-behind a (with_lock 1 v) (ground (arith, h.lists.chain))

-- A thread that comes back to `queue_waiting_thread` with the same local variable, before it was
-- woken, links its entry to itself.
pub requeue_hangs :
    (a : ℕ) (w : World) (fuel : ℕ)
    → Holds w []
    → a ≢ 0
    → (v : World) × (u : World) × (queue_waiting_thread a w ≡ some v)
      × (queue_waiting_thread a v ≡ some u)
      × ((u.entries a).next ≡ a)
      × (wake_queued_threads fuel u ≡ none)
requeue_hangs a w fuel h nz =
    let (v, first, held, _) = queue_waiting_thread-appends a w [] h nz tt (omega arith) in
    let (u, second, at_a, linked, free) = requeued a w.kernel.curr_thread_index v held nz in
    (v, u, first, second, linked, wake_queued_threads_self fuel a u nz at_a linked free)

-- ===== src/Threads/Queue/All.antt =====
-- `wake_queued_threads` wakes every waiting thread, in the order of arrival.
use test_kernel.Base.{
  ℕ, zero, suc, ◌+◌, ◌^◌, ◌<◌, ◌≡◌, refl, ap, ◌∙◌, true, false, Option, some, [], ◌∷◌, arith,
  length, ◌==◌,
}
use test_kernel.Threads.{Kernel, wake_thread}
use test_kernel.Threads.Queue.{World, locked, wake_head, wake_loop, wake_queued_threads}
use test_kernel.Threads.Queue.Order.{
  Waiting, Lists, Holds, with_lock, locked-some, Holds-with_lock, Lists-with_lock, wake_head-Lists,
  wake_head-same,
}

-- `wake_thread` on each thread of the list, from the front.
unfoldable pub wake_each : Waiting → Kernel → Kernel
wake_each [] k = k
wake_each ((a, t) ∷ es) k = wake_each es (wake_thread t k).1

-- The state in which the loop ends.
record Woken (w : World) (k : Kernel) (r : Option World) : Type 0 where
  last : World
  returned : r ≡ some last
  emptied : Lists last []
  same_lock : last.queue.lock ≡ w.queue.lock
  all_woken : last.kernel ≡ k

wake_loop-some :
    (fuel : ℕ) (w : World) → (w.queue.head == 0) ≡ true → wake_loop (suc fuel) w ≡ some w
unfolding wake_loop
wake_loop-some fuel w null = rw null

wake_loop-next :
    (fuel : ℕ) (w : World)
    → (w.queue.head == 0) ≡ false
    → wake_loop (suc fuel) w ≡ wake_loop fuel (wake_head w)
unfolding wake_loop
wake_loop-next fuel w not_null = rw not_null

-- One round in front of a loop that ends.
Woken-earlier :
    (fuel : ℕ) (w : World) (a t : ℕ) (es : Waiting)
    → Lists w ((a, t) ∷ es)
    → Woken (wake_head w) (wake_each es (wake_head w).kernel) (wake_loop fuel (wake_head w))
    → Woken w (wake_each ((a, t) ∷ es) w.kernel) (wake_loop (suc fuel) w)
unfolding wake_each
Woken-earlier fuel w a t es l rest = record {
  last = rest.last;
  returned = wake_loop-next fuel w (ground (arith, l.chain)) ∙ rest.returned;
  emptied = rest.emptied;
  same_lock = rest.same_lock ∙ (wake_head-same w).0;
  all_woken =
      rest.all_woken
      ∙ ap (wake_each es) ((wake_head-same w).1 ∙ ap (λ (i : ℕ). (wake_thread i w.kernel).1) first);
}
  where
    first : (w.entries w.queue.head).thread_id ≡ t
    first = rw l.chain.0 l.chain.2

wake_loop-all :
    (es : Waiting) (fuel : ℕ) (w : World)
    → Lists w es
    → length es < fuel
    → length es + 1 < 2 ^ 32
    → Woken w (wake_each es w.kernel) (wake_loop fuel w)
unfolding wake_each
wake_loop-all es zero w l enough room = absurd (omega arith)
wake_loop-all [] (suc fuel) w l enough room = record {
  last = w;
  returned = wake_loop-some fuel w (ground (arith, l.chain));
  emptied = l;
  same_lock = refl;
  all_woken = refl;
}
wake_loop-all ((a, t) ∷ es) (suc fuel) w l enough room = Woken-earlier fuel w a t es l (
    wake_loop-all es fuel (wake_head w) (wake_head-Lists w a t es l (omega arith)) (omega arith)
      (omega arith))

wake_queued_threads-locked :
    (fuel : ℕ) (w : World) → wake_queued_threads fuel w ≡ locked (wake_loop fuel) w
unfolding wake_queued_threads
wake_queued_threads-locked fuel w = refl

-- On a queue that is not locked, with one round more than it has entries, the loop ends, the queue
-- is empty and not locked, and each thread has been woken once, in the order of arrival.
pub wake_queued_threads-all :
    (fuel : ℕ) (w : World) (es : Waiting)
    → Holds w es
    → length es < fuel
    → length es + 1 < 2 ^ 32
    → (n : World) × (wake_queued_threads fuel w ≡ some n)
      × Holds n []
      × (n.kernel ≡ wake_each es w.kernel)
wake_queued_threads-all fuel w es h enough room = (
  with_lock 0 loop.last,
  wake_queued_threads-locked fuel w
      ∙ locked-some (wake_loop fuel) w loop.last h.unlocked loop.returned loop.same_lock,
  Holds-with_lock loop.emptied,
  loop.all_woken,
)
  where
    loop : Woken (with_lock 1 w) (wake_each es w.kernel) (wake_loop fuel (with_lock 1 w))
    loop = wake_loop-all es fuel (with_lock 1 w) (Lists-with_lock h.lists) enough room

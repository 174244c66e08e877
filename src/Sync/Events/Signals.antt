-- ===== src/Sync/Events/Signals.antt =====
-- src/arch/ia32/autoResetEvent.c and src/arch/ia32/manualResetEvent.c: what the methods do to the
-- signal and to the waiting threads.
use test_kernel.Base.{
  ℕ, ◌+◌, ◌<◌, ◌^◌, ◌≡◌, ◌≢◌, refl, ap, ◌∙◌, Bool, true, false, Option, none, some, List, [], ◌∷◌,
  ◌++◌, length, ◌==◌, if◌then◌else◌, ==_iff,
}
use test_kernel.Threads.{slock_init, slock_capture, slock_release, slock_set, pause_curr_thread}
use test_kernel.Threads.Queue.{
  SleepQueue, init_threads_queue, wake_queued_threads, queue_waiting_thread,
}
use test_kernel.Threads.Queue.Order.{Holds, Waiting, NotIn, queue_waiting_thread-appends}
use test_kernel.Threads.Queue.All.{wake_each, wake_queued_threads-all}
use test_kernel.Sync.{Memory, on_queue, world, on_queue-some}
use test_kernel.Sync.Events.{
  AutoResetEvent, ManualResetEvent, auto_set, auto_reset, auto_wait, new_auto_reset_event,
  manual_set, manual_wait,
}

pub data Call : Type 0 where
  set reset wait : Call

-- A sequence of calls on one event; `none` where a `wait` spins.
unfoldable pub run : List Call → AutoResetEvent → Option AutoResetEvent
unfolding auto_set auto_reset auto_wait
run [] ev = some ev
run (set ∷ cs) ev = run cs (auto_set ev)
run (reset ∷ cs) ev = run cs (auto_reset ev)
run (wait ∷ cs) ev = elim (auto_wait ev) [ none ↦ none | some e ↦ run cs e ]

-- An event that lets one `wait` through and is then reset.
abbrev pub spec : List Call → Bool → Option Bool
spec [] b = some b
spec (set ∷ cs) b = spec cs true
spec (reset ∷ cs) b = spec cs false
spec (wait ∷ cs) true = spec cs false
spec (wait ∷ cs) false = none

-- The spin lock is free while the event is set.
abbrev pub is_signalled : Option AutoResetEvent → Option Bool
is_signalled none = none
is_signalled (some ev) = some (ev.signal == 0)

abbrev event : Bool → AutoResetEvent
event b = record {
  signal = if b then 0 else 1;
  threads_queue = record { head = 0; tail = 0; lock = 0; count = 0 };
}

run-event : (cs : List Call) (b : Bool) → is_signalled (run cs (event b)) ≡ spec cs b
unfolding run auto_set auto_reset auto_wait slock_set slock_release slock_capture
run-event [] true = refl
run-event [] false = refl
run-event (set ∷ cs) true = run-event cs true
run-event (set ∷ cs) false = run-event cs true
run-event (reset ∷ cs) b = run-event cs false
run-event (wait ∷ cs) true = run-event cs false
run-event (wait ∷ cs) false = refl

new_event : (b : Bool) → new_auto_reset_event b ≡ event b
unfolding new_auto_reset_event auto_set auto_reset slock_set slock_release slock_init
    init_threads_queue
new_event true = refl
new_event false = refl

-- For every sequence of calls on a new auto-reset event, the spin lock that stands for the signal
-- behaves as an event that a `set` signals, that a `reset` or a `wait` that returns takes back,
-- and on which a `wait` does not return while it is not signalled.
pub auto_event-refines :
    (cs : List Call) (b : Bool) → is_signalled (run cs (new_auto_reset_event b)) ≡ spec cs b
auto_event-refines cs b = ap (λ ev. is_signalled (run cs ev)) (new_event b) ∙ run-event cs b

manual_set-some :
    (fuel : ℕ) (ev : ManualResetEvent) (m : Memory) (q : SleepQueue) (n : Memory)
    → ev.lock ≡ 0
    → on_queue (wake_queued_threads fuel) ev.threads_queue m ≡ some (q, n)
    → manual_set fuel ev m ≡ some (record ev { is_set = true; threads_queue = q; lock = 0 }, n)
unfolding manual_set slock_capture slock_release
manual_set-some fuel ev m q n free ran = rw (manual_set, (==_iff ev.lock 0).1 free, ran) refl

manual_wait-some :
    (entry : ℕ) (ev : ManualResetEvent) (m : Memory) (q : SleepQueue) (n : Memory)
    → on_queue (queue_waiting_thread entry) ev.threads_queue m ≡ some (q, n)
    → manual_wait entry ev m ≡ some (record ev { threads_queue = q }, n)
unfolding manual_wait
manual_wait-some entry ev m q n ran = rw (manual_wait, ran) refl

-- On a manual-reset event whose two locks are free, with one round more than there are waiting
-- threads, which are fewer than 2^32 - 1, `set` returns: the event is set, its queue empty, its
-- lock free, and each waiting thread has been woken once, in the order of arrival.
pub manual_set-wakes :
    (fuel : ℕ) (ev : ManualResetEvent) (m : Memory) (es : Waiting)
    → ev.lock ≡ 0
    → Holds (world ev.threads_queue m) es
    → length es < fuel
    → length es + 1 < 2 ^ 32
    → (e : ManualResetEvent) × (n : Memory) × (manual_set fuel ev m ≡ some (e, n))
      × (e.is_set ≡ true)
      × (e.lock ≡ 0)
      × Holds (world e.threads_queue n) []
      × (n.kernel ≡ wake_each es m.kernel)
unfolding slock_release
manual_set-wakes fuel ev m es free h enough room =
    let (v, ran, empty, kernel) =
      wake_queued_threads-all fuel (world ev.threads_queue m) es h enough room in
    (
      record ev { is_set = true; threads_queue = v.queue; lock = 0 },
      record { entries = v.entries; kernel = v.kernel },
      manual_set-some fuel ev m v.queue _ free
          (on_queue-some (wake_queued_threads fuel) ev.threads_queue m v ran),
      refl,
      refl,
      empty,
      kernel,
    )

-- On a manual-reset event, set or not, whose queue is not locked and has room, `wait` with a fresh
-- entry queues the current thread behind the others and pauses it, and leaves the event set or not
-- and its lock as it was.
pub manual_wait-ignores_set :
    (entry : ℕ) (ev : ManualResetEvent) (m : Memory) (es : Waiting)
    → Holds (world ev.threads_queue m) es
    → entry ≢ 0
    → NotIn entry es
    → length es + 1 < 2 ^ 32
    → (e : ManualResetEvent) × (n : Memory) × (manual_wait entry ev m ≡ some (e, n))
      × (e.is_set ≡ ev.is_set)
      × (e.lock ≡ ev.lock)
      × Holds (world e.threads_queue n) (es ++ ((entry, m.kernel.curr_thread_index) ∷ []))
      × (n.kernel ≡ pause_curr_thread m.kernel)
manual_wait-ignores_set entry ev m es h nz fresh room =
    let (v, ran, held, kernel) =
      queue_waiting_thread-appends entry (world ev.threads_queue m) es h nz fresh room in
    (
      record ev { threads_queue = v.queue },
      record { entries = v.entries; kernel = v.kernel },
      manual_wait-some entry ev m v.queue _
          (on_queue-some (queue_waiting_thread entry) ev.threads_queue m v ran),
      refl,
      refl,
      held,
      kernel,
    )

-- ===== src/Threads/Queue.antt =====
-- src/arch/ia32/threads.c: `sleeping_threads_queue_t`, a list of entries that lie on the stacks
-- of the waiting threads. Address 0 is the null pointer. `none` stands for a thread that spins
-- for ever on the queue's lock, or for a loop that ran out of fuel.
pub mod Order
pub mod Fifo
pub mod All
pub mod Hazards
use test_kernel.Base.{ℕ, zero, suc, ◌+◌, ◌%◌, ◌^◌, Option, none, some, ◌==◌, if◌then◌else◌, update}
use test_kernel.Base.{u32, sub32}
use test_kernel.Threads.{
  Kernel, get_current_thread_id, wake_thread, pause_curr_thread, slock_init, slock_capture,
  slock_release,
}

-- `sleeping_thread_entry_t`
pub record Entry : Type 0 where
  pub next : ℕ
  pub thread_id : ℕ

-- `sleeping_threads_queue_t`; `count` is the 32-bit pattern of an `int`.
pub record SleepQueue : Type 0 where
  pub head : ℕ
  pub tail : ℕ
  pub lock : ℕ
  pub count : ℕ

-- A queue, the memory that its entries lie in, and the table of threads.
pub record World : Type 0 where
  pub queue : SleepQueue
  pub entries : ℕ → Entry
  pub kernel : Kernel

unfoldable pub init_threads_queue : SleepQueue
unfolding slock_init
init_threads_queue = record { head = 0; tail = 0; lock = slock_init; count = 0 }

-- `slockCapture(&q->lock); … slockRelease(&q->lock)` around the body `f`.
unfoldable pub locked : (World → Option World) → World → Option World
unfolding slock_capture slock_release
locked f w = elim (slock_capture w.queue.lock) [
  | none ↦ none
  | some l ↦ elim (f (record w { queue = record w.queue { lock = l } })) [
    | none ↦ none
    | some v ↦ some (record v { queue = record v.queue { lock = slock_release v.queue.lock } })
  ]
]

-- The body that `wake_queued_thread` and a round of `wake_queued_threads` share, at a head that is
-- not null.
unfoldable pub wake_head : World → World
wake_head w =
    let l = w.entries w.queue.head in
    record w {
      queue = record w.queue {
        head = l.next;
        tail = if l.next == 0 then 0 else w.queue.tail;
        count = sub32 w.queue.count 1;
      };
      kernel = (wake_thread l.thread_id w.kernel).1;
    }

unfoldable pub wake_queued_thread : World → Option World
unfolding locked wake_head
wake_queued_thread = locked (λ w. some (if w.queue.head == 0 then w else wake_head w))

unfoldable pub wake_loop : ℕ → World → Option World
wake_loop zero w = none
wake_loop (suc fuel) w =
    let rest = wake_loop fuel (wake_head w) in if w.queue.head == 0 then some w else rest

unfoldable pub wake_queued_threads : ℕ → World → Option World
unfolding locked wake_loop wake_head
wake_queued_threads fuel = locked (wake_loop fuel)

-- The critical section of `queue_waiting_thread`; `entry` is the address of its local variable.
unfoldable pub enqueue : ℕ → World → World
unfolding get_current_thread_id
enqueue entry w =
    let m =
      update w.entries entry (record { next = 0; thread_id = get_current_thread_id w.kernel }) in
    record w {
      entries =
          if w.queue.head == 0
          then m
          else update m w.queue.tail (record (m w.queue.tail) { next = entry });
      queue = record w.queue {
        head = if w.queue.head == 0 then entry else w.queue.head;
        tail = entry;
        count = u32 (w.queue.count + 1);
      };
    }

abbrev pub then_pause : Option World → Option World
then_pause none = none
then_pause (some v) = some (record v { kernel = pause_curr_thread v.kernel })

-- `queue_waiting_thread` up to the `sys_call_interrupt(3)` of `pause_curr_thread`.
unfoldable pub queue_waiting_thread : ℕ → World → Option World
unfolding locked enqueue pause_curr_thread
queue_waiting_thread entry w = then_pause (locked (λ v. some (enqueue entry v)) w)

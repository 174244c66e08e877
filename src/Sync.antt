-- ===== src/Sync.antt =====
-- The objects in src/arch/ia32 that threads wait for. Each keeps a queue of waiting threads of its
-- own; the entries of all queues and the table of threads are the memory that they share.
pub mod Ownership
pub mod Stages
pub mod Events
pub mod Mutex
pub mod Semaphore
pub mod Monitor
mod Tests
use test_kernel.Base.{◌≡◌, refl, ℕ, Option, none, some}
use test_kernel.Threads.{Kernel}
use test_kernel.Threads.Queue.{Entry, SleepQueue, World}

pub record Memory : Type 0 where
  pub entries : ℕ → Entry
  pub kernel : Kernel

-- The pattern of -1, an `ownerThreadId` that is no thread's.
abbrev pub nobody : ℕ
nobody = 4294967295

abbrev pub world : SleepQueue → Memory → World
world q m = record { queue = q; entries = m.entries; kernel = m.kernel }

-- An operation of Threads/Queue.antt on the queue of an object.
unfoldable pub on_queue :
    (World → Option World) → SleepQueue → Memory → Option (SleepQueue × Memory)
on_queue f q m = elim (f (world q m)) [
  | none ↦ none
  | some w ↦ some (w.queue, record { entries = w.entries; kernel = w.kernel })
]

pub on_queue-some :
    (f : World → Option World) (q : SleepQueue) (m : Memory) (v : World)
    → f (world q m) ≡ some v
    → on_queue f q m ≡ some (v.queue, record { entries = v.entries; kernel = v.kernel })
unfolding on_queue
on_queue-some f q m v e = rw (on_queue, e) refl

-- ===== src/Sync/Semaphore/Interleaved.antt =====
-- TestKernel1/src/arch/ia32/semaphore.c between threads. A thread inside a method is at a program
-- counter; the statements from a capture of `sem->spinlock` to its release, or to the end of a
-- method that does not release it, are one step.
pub mod Counts
pub mod Jam
pub mod Alone
pub mod Lock
mod Tests
use test_kernel.Base.{
  ℕ, ◌+◌, ◌%◌, ◌^◌, ◌≡◌, Option, none, some, if◌then◌else◌, ◌==◌, update, signed_lt, u32, sub32,
}
use test_kernel.Threads.{get_current_thread_id, slock_capture, slock_release}
use test_kernel.Threads.Queue.{SleepQueue, wake_queued_thread, queue_waiting_thread}
use test_kernel.Sync.{Memory, on_queue}
use test_kernel.Sync.Semaphore.{Semaphore, new_semaphore}

-- Outside; in the function `wait`: at the capture, behind it, at the queue and at the busy `while`;
-- in the function `release`: at the capture, behind it, and at the wake-up.
pub data Pc : Type 0 where
  outside wait_capture wait_body wait_queue wait_spin : Pc
  release_capture release_body release_wake : Pc

unfoldable pub capture : Pc → Semaphore → Memory → Option (Pc × Semaphore × Memory)
unfolding slock_capture
capture next sem m = elim (slock_capture sem.spinlock) [
  | none ↦ none
  | some l ↦ some (next, record sem { spinlock = l }, m)
]

unfoldable pub wait_test : Semaphore → Memory → Pc × Semaphore × Memory
unfolding slock_release
wait_test sem m =
    let freed = record sem { spinlock = slock_release sem.spinlock } in
    if signed_lt sem.counter sem.max
    then (outside, record freed { counter = u32 (sem.counter + 1) }, m)
    else (wait_queue, freed, m)

-- Where the counter is below `min`, the lock stays taken.
unfoldable pub release_test : Semaphore → Memory → Pc × Semaphore × Memory
unfolding slock_release
release_test sem m = if signed_lt sem.counter sem.min then (outside, sem, m) else (
  release_wake,
  record sem { counter = sub32 sem.counter 1; spinlock = slock_release sem.spinlock },
  m,
)

-- A call of `queue_waiting_thread` or `wake_queued_thread`, on the way to `next`.
unfoldable pub queued :
    Pc → Option (SleepQueue × Memory) → Semaphore → Option (Pc × Semaphore × Memory)
queued next none sem = none
queued next (some (q, m)) sem = some (next, record sem { threads_queue = q }, m)

-- One step of the current thread; `entry` is the address of the entry on its stack. `none`: it
-- spins.
unfoldable pub advance : ℕ → Pc → Semaphore → Memory → Option (Pc × Semaphore × Memory)
unfolding capture wait_test release_test queued on_queue
advance entry outside sem m = none
advance entry wait_capture sem m = capture wait_body sem m
advance entry wait_body sem m = some (wait_test sem m)
advance entry wait_queue sem m =
    queued wait_spin (on_queue (queue_waiting_thread entry) sem.threads_queue m) sem
advance entry wait_spin sem m = if sem.counter == sem.max then none else some (outside, sem, m)
advance entry release_capture sem m = capture release_body sem m
advance entry release_body sem m = some (release_test sem m)
advance entry release_wake sem m =
    queued outside (on_queue wake_queued_thread sem.threads_queue m) sem

-- The fields of the table of methods, and the functions that `{ &release, &wait }` puts there.
pub data Field : Type 0 where
  wait release : Field

abbrev pub entered : Field → Pc
entered wait = release_capture
entered release = wait_capture

-- How many units a step from one place to another takes from the counter, and gives back to it.
abbrev pub takes : Pc → Pc → ℕ
takes release_body release_wake = 1
takes before after = 0

abbrev pub gives : Pc → Pc → ℕ
gives wait_body outside = 1
gives before after = 0

-- The threads, how many units have been taken and given back, the semaphore and the memory.
pub record System : Type 0 where
  pub pcs : ℕ → Pc
  pub taken : ℕ
  pub given : ℕ
  pub semaphore : Semaphore
  pub memory : Memory

abbrev pub current : System → ℕ
current s = get_current_thread_id s.memory.kernel

abbrev pub moved : ℕ → System → Pc → Semaphore → Memory → System
moved t s p sem m = record {
  pcs = update s.pcs t p;
  taken = s.taken + takes (s.pcs t) p;
  given = s.given + gives (s.pcs t) p;
  semaphore = sem;
  memory = m;
}

-- A call through the table, a step inside a method, and anything that happens outside: a switch to
-- another thread, a wake-up, another user of the memory.
pub data Step (s : System) : System → Type 0 where
  calls :
      (f : Field)
      → s.pcs (current s) ≡ outside
      → Step s (record s { pcs = update s.pcs (current s) (entered f) })
  moves :
      (entry : ℕ) (p : Pc) (sem : Semaphore) (m : Memory)
      → advance entry (s.pcs (current s)) s.semaphore s.memory ≡ some (p, sem, m)
      → Step s (moved (current s) s p sem m)
  others :
      (m : Memory) (q : SleepQueue)
      → Step s (record s { memory = m; semaphore = record s.semaphore { threads_queue = q } })

abbrev pub begun : (max min : ℕ) → Memory → System
begun max min m = record {
  pcs = λ t. outside;
  taken = 0;
  given = 0;
  semaphore = new_semaphore max min;
  memory = m;
}

-- From a state s on.
pub data Reach (s : System) : System → Type 0 where
  here : Reach s s
  later : {n k : System} → Reach s n → Step n k → Reach s k

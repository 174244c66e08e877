-- ===== src/Sync/Events/ManualExample/Refined.antt =====
-- TestKernel1/src/arch/ia32/manualResetEventExample.c: the event as a list of waiting threads.
use test_kernel.Base.{
  ◌+◌, ◌*◌, ◌<◌, ◌^◌, ◌≡◌, ◌≢◌, Bool, true, false, List, [], ◌∷◌, ◌++◌, length, u32,
}
use test_kernel.Display.{Display}
use test_kernel.Sync.{world}
use test_kernel.Sync.Events.ManualExample.{
  Act, creates, waits, ends, sets, resets, Run, switched, Setting,
}
use test_kernel.Threads.{
  Kernel, max_total_threads, add_thread, pause_curr_thread, enter_thread, unschedule_thread,
  stop_thread,
}
use test_kernel.Threads.Queue.Order.{Waiting, Holds, NotIn}
use test_kernel.Threads.Queue.All.{wake_each}

-- The event as its waiting threads in the order of arrival, whether it is set, and the table of
-- threads.
pub record Waiters : Type 0 where
  pub es : Waiting
  pub is_set : Bool
  pub kernel : Kernel

-- What each act does to that. A `wait` does not look whether the event is set.
abbrev pub after : Setting → Act → Waiters → Waiters
after g (creates i) s = record s {
  kernel =
      add_thread g.th_main_func g.code_selector g.data_selector g.thread_proc
        (u32 (g.stack + i * 1024)) 1024 (switched g.main s.kernel);
}
after g (waits t entry) s = record s {
  es = s.es ++ ((entry, t) ∷ []);
  kernel = pause_curr_thread (enter_thread (switched t s.kernel));
}
after g (ends t) s = record s { kernel = stop_thread (unschedule_thread (switched t s.kernel)) }
after g sets s = record {
  es = [];
  is_set = true;
  kernel = wake_each s.es (switched g.main s.kernel);
}
after g resets s = record s { is_set = false; kernel = switched g.main s.kernel }

abbrev pub after_all : Setting → List Act → Waiters → Waiters
after_all g [] s = s
after_all g (a ∷ acts) s = after_all g acts (after g a s)

-- There is room in the table for a new thread and in the queue for a waiting one, whose entry is
-- not null and not in the queue; a `set` has more rounds than there are waiting threads.
abbrev pub IsPossible : Setting → Act → Waiters → Type 0
IsPossible g (creates i) s = s.kernel.curr_threads_count < max_total_threads
IsPossible g (waits t entry) s = (entry ≢ 0) × NotIn entry s.es × (length s.es + 1 < 2 ^ 32)
IsPossible g (ends t) s = Unit
IsPossible g sets s = (length s.es < g.fuel) × (length s.es + 1 < 2 ^ 32)
IsPossible g resets s = Unit

abbrev pub ArePossible : Setting → List Act → Waiters → Type 0
ArePossible g [] s = Unit
ArePossible g (a ∷ acts) s = IsPossible g a s × ArePossible g acts (after g a s)

-- The event and the memory stand for the waiting threads.
pub record Shows (r : Run) (s : Waiters) : Type 0 where
  pub free : r.mre.lock ≡ 0
  pub holds : Holds (world r.mre.threads_queue r.memory) s.es
  pub set : r.mre.is_set ≡ s.is_set
  pub kernel : r.memory.kernel ≡ s.kernel

-- The new event.
abbrev pub no_waiters : Kernel → Waiters
no_waiters k = record { es = []; is_set = false; kernel = k }

-- ===== src/Sync/Events/AutoExample.antt =====
-- TestKernel1/src/arch/ia32/autoResetEventExample.c: two threads wait for two events that the
-- thread of the example sets. What the example does in front of its first `sleep` is one step.
pub mod Counted
pub mod Lost
mod Tests
use test_kernel.Base.{
  ℕ, zero, suc, ◌+◌, ◌*◌, ◌%◌, ◌^◌, ◌<◌, ◌≡◌, true, false, Option, none, some, List, u32, update,
}
use test_kernel.Boot.Console.{codes}
use test_kernel.Display.{Display}
use test_kernel.Mem.{Bytes}
use test_kernel.Sync.Events.{AutoResetEvent, auto_set, auto_wait, new_auto_reset_event}
use test_kernel.Sync.Mutex.Example.{print_thread}
use test_kernel.Threads.{Kernel, create_thread, get_current_thread_id}

-- `print`, the same text as in mutexExample.c.
unfoldable pub print : (t buff : ℕ) → Bytes → List ℕ → Display → Display
unfolding print_thread
print t buff stack str d = print_thread t buff stack str d

-- Where a thread is: none of the example's; in `ThreadProc` in front of its first line, in each
-- of the two waits, and behind it; in the example in front of "Continuing", in front of the
-- rounds of its two loops, and behind it.
pub data Stage : Type 0 where
  absent starting waiting_1 waiting_2 finished : Stage
  continuing : Stage
  raising_1 raising_2 : ℕ → Stage
  returned : Stage

-- The events, the threads, how often the loops have called `set` and threads have returned from the
-- waits, the table of threads and the terminals.
pub record Run : Type 0 where
  pub event_1 : AutoResetEvent
  pub event_2 : AutoResetEvent
  pub stages : ℕ → Stage
  pub raised_1 : ℕ
  pub raised_2 : ℕ
  pub passed_1 : ℕ
  pub passed_2 : ℕ
  pub kernel : Kernel
  pub display : Display

abbrev pub current : Run → ℕ
current r = get_current_thread_id r.kernel

-- The current thread goes on to a stage and prints a line.
unfoldable pub goes_on : (buff : ℕ) → Bytes → Stage → List ℕ → Run → Run
goes_on buff stack stage str r = record r {
  stages = update r.stages (current r) stage;
  display = print (current r) buff stack str r.display;
}

-- The lines of `ThreadProc` up to the first wait, from its return up to the second, and behind
-- that.
unfoldable pub start_proc : (buff : ℕ) → Bytes → Run → Run
unfolding goes_on
start_proc buff stack r = goes_on buff stack waiting_1 (codes "waits on AutoResetEvent #1.") r

unfoldable pub pass_first : (buff : ℕ) → Bytes → AutoResetEvent → Run → Run
unfolding goes_on
pass_first buff stack ev r = goes_on buff stack waiting_2 (codes "waiting on AutoResetEvent #2.") (
    goes_on buff stack waiting_1 (codes "released from AutoResetEvent #1.")
      (record r { event_1 = ev; passed_1 = r.passed_1 + 1 }))

unfoldable pub pass_second : (buff : ℕ) → Bytes → AutoResetEvent → Run → Run
unfolding goes_on
pass_second buff stack ev r = goes_on buff stack finished (codes "finished.") (
    goes_on buff stack waiting_2 (codes "released from AutoResetEvent #2.")
      (record r { event_2 = ev; passed_2 = r.passed_2 + 1 }))

-- A round of the first loop of `autoResetEventExample`, and one of the second.
unfoldable pub raise_first : (buff : ℕ) → Bytes → (i : ℕ) → Run → Run
unfolding goes_on auto_set
raise_first buff stack i r =
    goes_on buff stack (raising_1 (i + 1)) (codes "Event 1 raised")
      (record r { event_1 = auto_set r.event_1; raised_1 = r.raised_1 + 1 })

unfoldable pub raise_second : (buff : ℕ) → Bytes → (i : ℕ) → Run → Run
unfolding goes_on auto_set
raise_second buff stack i r =
    goes_on buff stack (raising_2 (i + 1)) (codes "Event 2 raised")
      (record r { event_2 = auto_set r.event_2; raised_2 = r.raised_2 + 1 })

-- A step of the current thread, or a switch and anything else that happens to the table of
-- threads and the terminals. A wait that spins is no step.
pub data Step (r : Run) : Run → Type 0 where
  starts :
      (buff : ℕ) (stack : Bytes)
      → r.stages (current r) ≡ starting
      → Step r (start_proc buff stack r)
  passes_1 :
      (buff : ℕ) (stack : Bytes) (ev : AutoResetEvent)
      → r.stages (current r) ≡ waiting_1
      → auto_wait r.event_1 ≡ some ev
      → Step r (pass_first buff stack ev r)
  passes_2 :
      (buff : ℕ) (stack : Bytes) (ev : AutoResetEvent)
      → r.stages (current r) ≡ waiting_2
      → auto_wait r.event_2 ≡ some ev
      → Step r (pass_second buff stack ev r)
  continues :
      (buff : ℕ) (stack : Bytes)
      → r.stages (current r) ≡ continuing
      → Step r (goes_on buff stack (raising_1 0) (codes "Continuing") r)
  raises_1 :
      (buff : ℕ) (stack : Bytes) (i : ℕ)
      → r.stages (current r) ≡ raising_1 i
      → i < 2
      → Step r (raise_first buff stack i r)
  announces :
      (buff : ℕ) (stack : Bytes)
      → r.stages (current r) ≡ raising_1 2
      → Step r (
          goes_on buff stack
            (raising_2 0)
            (codes "All threads are now waiting on AutoResetEvent #2.")
            r)
  raises_2 :
      (buff : ℕ) (stack : Bytes) (i : ℕ)
      → r.stages (current r) ≡ raising_2 i
      → i < 2
      → Step r (raise_second buff stack i r)
  returns :
      (buff : ℕ) (stack : Bytes)
      → r.stages (current r) ≡ raising_2 2
      → Step r (goes_on buff stack returned (codes "Main thread finished") r)
  others : (k : Kernel) (d : Display) → Step r (record r { kernel = k; display = d })

-- The loop that creates n threads more, from the one with index i on.
unfoldable pub start_threads :
    (th_main_func code_selector data_selector thread_proc stack n i : ℕ)
    → (ℕ → Stage)
    → Kernel
    → (ℕ → Stage) × Kernel
start_threads mf code data_sel thread_proc stack zero i stages k = (stages, k)
start_threads mf code data_sel thread_proc stack (suc n) i stages k =
    let (id, c) = create_thread mf code data_sel thread_proc (u32 (stack + i * 4096)) 4096 k in
    start_threads mf code data_sel thread_proc stack n (i + 1) (update stages id starting) c

-- `autoResetEventExample` up to its first `sleep`.
unfoldable pub auto_reset_event_example :
    (th_main_func code_selector data_selector thread_proc stack : ℕ) (buff : ℕ)
    → Bytes
    → Kernel
    → Display
    → Run
auto_reset_event_example mf code data_sel thread_proc stack buff bytes k d =
    let main = get_current_thread_id k in
    let (stages, c) =
      start_threads mf code data_sel thread_proc stack 2 0 (update (λ t. absent) main continuing)
        k in
    record {
      event_1 = new_auto_reset_event true;
      event_2 = new_auto_reset_event false;
      stages = stages;
      raised_1 = 0;
      raised_2 = 0;
      passed_1 = 0;
      passed_2 = 0;
      kernel = c;
      display =
          print main buff bytes (codes "Threads created")
            (print main buff bytes (codes "Starting autoResetEventExample") d);
    }

-- From a state r on.
pub data Reach (r : Run) : Run → Type 0 where
  here : Reach r r
  later : {s n : Run} → Reach r s → Step s n → Reach r n

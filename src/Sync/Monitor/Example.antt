-- ===== src/Sync/Monitor/Example.antt =====
-- TestKernel1/src/arch/ia32/monitorExample.c: a thread that waits until a value is not 0, and the
-- thread of the example, which sets it and notifies, between the steps of the monitor itself.
pub mod Places
pub mod Owner
mod Tests
use test_kernel.Base.{ℕ, ◌<◌, ◌≡◌, ◌≢◌, Option, none, some, List, ◌++◌, ◌==◌, if◌then◌else◌, update}
use test_kernel.Boot.Console.{codes}
use test_kernel.Cpu.{number}
use test_kernel.Display.{Display, puts}
use test_kernel.Mem.{Bytes, utoa}
use test_kernel.Sync.{Memory}
use test_kernel.Sync.Monitor.{
  Monitor, Pc, outside, capture_enter, release_enter, wait_enter, notify_enter, advance,
  new_monitor,
}
use test_kernel.Sync.Monitor.Exclusion.{System, moved, current}
use test_kernel.Sync.Mutex.Example.{print_thread}
use test_kernel.Threads.{Kernel, max_total_threads, create_thread, get_current_thread_id}
use test_kernel.Threads.Queue.{SleepQueue}

-- `print`, the same text as in mutexExample.c.
unfoldable pub print : (t buff : ℕ) → Bytes → List ℕ → Display → Display
unfolding print_thread
print t buff stack str d = print_thread t buff stack str d

-- Where a thread is: none of the example's; in front of its `capture`, in it, behind its return, in
-- `wait` or in `notify`, in front of its `release`, in it, and behind it.
pub data Stage : Type 0 where
  absent ready capturing holding waiting notifying leaving releasing finished : Stage

-- The monitor, the threads, of which `main` runs `monitorExample`, the value and the terminals.
pub record Run : Type 0 where
  pub system : System
  pub stages : ℕ → Stage
  pub main : ℕ
  pub value : ℕ
  pub display : Display

-- The current thread calls a method, and prints a line before.
unfoldable pub calls : (buff : ℕ) → Bytes → List ℕ → Stage → Pc → Run → Run
calls buff stack str stage p r =
    let t = current r.system in
    record r {
      system = record r.system { pcs = update r.system.pcs t p };
      stages = update r.stages t stage;
      display = print t buff stack str r.display;
    }

-- It goes on behind the return of a method, or past a test.
unfoldable pub goes_on : Stage → (Display → Display) → Run → Run
goes_on stage shown r = record r {
  stages = update r.stages (current r.system) stage;
  display = shown r.display;
}

unfoldable pub begin_capture : (buff : ℕ) → Bytes → Run → Run
unfolding calls
begin_capture buff stack r =
    let str =
      if current r.system == r.main
      then codes "main::capturing\n"
      else codes "own:: Thread started" in
    calls buff stack str capturing capture_enter r

-- `main` sets the value and calls `notify`.
unfoldable pub set_value : (buff : ℕ) → Bytes → Run → Run
unfolding calls
set_value buff stack r =
    let d = print (current r.system) buff stack (codes "main::setting value to 1\n") r.display in
    calls buff stack (codes "main::notifying thread\n") notifying notify_enter
      (record r { value = 1; display = d })

-- `run` prints the value; then either thread calls `release`.
unfoldable pub begin_release : (buff : ℕ) → Bytes → Run → Run
begin_release buff stack r =
    let t = current r.system in
    let shown =
      puts 4 (number (utoa r.value buff 12 stack))
        (print t buff stack (codes "own:: data.value = ") r.display) in
    record r {
      system = record r.system { pcs = update r.system.pcs t release_enter };
      stages = update r.stages t releasing;
      display = if t == r.main then r.display else shown;
    }

-- `release` has returned.
unfoldable pub finish : (buff : ℕ) → Bytes → Run → Run
unfolding goes_on
finish buff stack r =
    let t = current r.system in
    let shown =
      λ (d : Display). if t == r.main then print t buff stack (codes "Finished\n") d else d in
    goes_on finished shown r

-- A step of the current thread, in `run`, in `monitorExample` or in the monitor, or anything that
-- happens outside.
pub data Step (r : Run) : Run → Type 0 where
  captures :
      (buff : ℕ) (stack : Bytes)
      → r.stages (current r.system) ≡ ready
      → Step r (begin_capture buff stack r)
  holds :
      r.stages (current r.system) ≡ capturing
      → r.system.pcs (current r.system) ≡ outside
      → Step r (goes_on holding (λ d. d) r)
  waits :
      (buff : ℕ) (stack : Bytes)
      → r.stages (current r.system) ≡ holding
      → current r.system ≢ r.main
      → r.value ≡ 0
      → Step r (calls buff stack (codes "own:: Waiting\n") waiting wait_enter r)
  resumes :
      (buff : ℕ) (stack : Bytes)
      → r.stages (current r.system) ≡ waiting
      → r.system.pcs (current r.system) ≡ outside
      → Step r
          (goes_on leaving (print (current r.system) buff stack (codes "own:: Running again\n")) r)
  skips :
      r.stages (current r.system) ≡ holding
      → current r.system ≢ r.main
      → r.value ≢ 0
      → Step r (goes_on leaving (λ d. d) r)
  sets :
      (buff : ℕ) (stack : Bytes)
      → r.stages (current r.system) ≡ holding
      → current r.system ≡ r.main
      → Step r (set_value buff stack r)
  notified :
      (buff : ℕ) (stack : Bytes)
      → r.stages (current r.system) ≡ notifying
      → r.system.pcs (current r.system) ≡ outside
      → Step r (
          goes_on leaving (print (current r.system) buff stack (codes "main::Thread notified\n")) r)
  leaves :
      (buff : ℕ) (stack : Bytes)
      → r.stages (current r.system) ≡ leaving
      → Step r (begin_release buff stack r)
  finishes :
      (buff : ℕ) (stack : Bytes)
      → r.stages (current r.system) ≡ releasing
      → r.system.pcs (current r.system) ≡ outside
      → Step r (finish buff stack r)
  moves :
      (entry : ℕ) (p : Pc) (mon : Monitor) (m : Memory)
      → advance entry (r.system.pcs (current r.system)) r.system.monitor r.system.memory
        ≡ some (p, mon, m)
      → current r.system < max_total_threads
      → mon.enter_counter < 2147483648
      → Step r (record r { system = moved (current r.system) r.system p mon m })
  others :
      (m : Memory) (q p : SleepQueue) (d : Display)
      → Step r (record r {
        system = record r.system {
          memory = m;
          monitor = record r.system.monitor { threads_queue_release = q; threads_queue_pulse = p };
        };
        display = d;
      })

-- `monitorExample` up to its `sleep`, with the memory m and the terminals d. The thread of `run`
-- may begin when it has been created; so may the thread of the example, behind the `sleep`.
unfoldable pub monitor_example :
    (th_main_func code_selector data_selector run stack : ℕ) (buff : ℕ)
    → Bytes
    → Memory
    → Display
    → Option Run
monitor_example mf code data_sel run stack buff bytes m d = elim (new_monitor m) [
  | none ↦ none
  | some (mon, n) ↦
      let (id, k) = create_thread mf code data_sel run stack 1024 n.kernel in
      let main = get_current_thread_id n.kernel in
      some (record {
        system = record {
          pcs = λ t. outside;
          depths = λ t. 0;
          monitor = mon;
          memory = record n { kernel = k };
        };
        stages = update (update (λ t. absent) main ready) id ready;
        main = main;
        value = 0;
        display = print main buff bytes (codes "main::Sleeping\n") d;
      })
]

-- From the start of the example on, with room in the table for its thread.
pub data Reach (mf code data_sel run stack : ℕ) : Run → Type 0 where
  made :
      (buff : ℕ) (bytes : Bytes) (m : Memory) (d : Display) (r : Run)
      → m.kernel.curr_threads_count < max_total_threads
      → monitor_example mf code data_sel run stack buff bytes m d ≡ some r
      → Reach mf code data_sel run stack r
  later :
      {r s : Run}
      → Reach mf code data_sel run stack r
      → Step r s
      → Reach mf code data_sel run stack s

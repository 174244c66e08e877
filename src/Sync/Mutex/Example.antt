-- ===== src/Sync/Mutex/Example.antt =====
-- TestKernel1/src/arch/ia32/mutexExample.c: threads that use a resource under a mutex, between
-- the steps of the mutex itself. `sleep` in the protected area is among what happens outside of
-- the mutex.
pub mod Protected
mod Tests
use test_kernel.Base.{
  ℕ, zero, suc, ◌+◌, ◌*◌, ◌%◌, ◌^◌, ◌<◌, ◌≤◌, ◌≡◌, Option, none, some, List, u32, update,
}
use test_kernel.Base.Loops.{count_up}
use test_kernel.Boot.Console.{codes}
use test_kernel.Cpu.{number}
use test_kernel.Display.{Display, puts}
use test_kernel.Mem.{Bytes, utoa}
use test_kernel.Sync.{Memory}
use test_kernel.Sync.Mutex.{Mutex, Pc, outside, wait_capture, release_capture, advance, new_mutex}
use test_kernel.Sync.Mutex.Exclusion.{System, moved, current}
use test_kernel.Threads.{Kernel, max_total_threads, create_thread}
use test_kernel.Threads.Queue.{SleepQueue}

-- `print` in the thread t, with its buffer at `buff` and what lies on the stack.
unfoldable pub print_thread : (t buff : ℕ) → Bytes → List ℕ → Display → Display
print_thread t buff stack str d =
    let d = count_up (λ i e. puts 4 (codes "\t") e) t 0 d in
    puts 4 (codes "\n")
      (puts 4 str (puts 4 (codes ": ") (puts 4 (number (utoa t buff 12 stack)) d)))

abbrev pub num_iterations : ℕ
num_iterations = 1

abbrev pub num_threads : ℕ
num_threads = 3

-- Where a thread is in `UseResource`: in front of it, in `wait`, behind the return of `wait`,
-- which is the protected area, and in `release`.
pub data Stage : Type 0 where
  ready waiting using releasing : Stage

pub record Run : Type 0 where
  pub system : System
  pub stages : ℕ → Stage
  pub rounds : ℕ → ℕ
  pub display : Display

-- A thread begins `UseResource` and calls `wait`.
unfoldable pub request_mutex : (buff : ℕ) → Bytes → Run → Run
request_mutex buff stack r =
    let t = current r.system in
    record r {
      system = record r.system { pcs = update r.system.pcs t wait_capture };
      stages = update r.stages t waiting;
      display = print_thread t buff stack (codes "{0} is requesting the mutex") r.display;
    }

-- `wait` has returned.
unfoldable pub enter_area : (buff : ℕ) → Bytes → Run → Run
enter_area buff stack r =
    let t = current r.system in
    record r {
      stages = update r.stages t using;
      display = print_thread t buff stack (codes "has entered the protected area") r.display;
    }

-- The thread calls `release`.
unfoldable pub leave_area : (buff : ℕ) → Bytes → Run → Run
leave_area buff stack r =
    let t = current r.system in
    record r {
      system = record r.system { pcs = update r.system.pcs t release_capture };
      stages = update r.stages t releasing;
      display = print_thread t buff stack (codes "is leaving the protected area") r.display;
    }

-- `release` has returned, and `ThreadProc` counts the round.
unfoldable pub finish_round : (buff : ℕ) → Bytes → Run → Run
finish_round buff stack r =
    let t = current r.system in
    record r {
      stages = update r.stages t ready;
      rounds = update r.rounds t (r.rounds t + 1);
      display = print_thread t buff stack (codes "{0} has released the mutex") r.display;
    }

-- A step of the current thread, in `ThreadProc` or in the mutex, or anything that happens outside.
pub data Step (r : Run) : Run → Type 0 where
  requests :
      (buff : ℕ) (stack : Bytes)
      → r.stages (current r.system) ≡ ready
      → r.rounds (current r.system) < num_iterations
      → Step r (request_mutex buff stack r)
  enters :
      (buff : ℕ) (stack : Bytes)
      → r.stages (current r.system) ≡ waiting
      → r.system.pcs (current r.system) ≡ outside
      → Step r (enter_area buff stack r)
  leaves :
      (buff : ℕ) (stack : Bytes)
      → r.stages (current r.system) ≡ using
      → Step r (leave_area buff stack r)
  finishes :
      (buff : ℕ) (stack : Bytes)
      → r.stages (current r.system) ≡ releasing
      → r.system.pcs (current r.system) ≡ outside
      → Step r (finish_round buff stack r)
  moves :
      (entry : ℕ) (p : Pc) (mut : Mutex) (m : Memory)
      → advance entry (r.system.pcs (current r.system)) r.system.mutex r.system.memory
        ≡ some (p, mut, m)
      → current r.system < max_total_threads
      → mut.enter_counter < 2147483648
      → Step r (record r { system = moved (current r.system) r.system p mut m })
  others :
      (m : Memory) (q : SleepQueue) (d : Display)
      → Step r (record r {
        system = record r.system {
          memory = m;
          mutex = record r.system.mutex { threads_queue = q };
        };
        display = d;
      })

-- The loop of `mutexExample`: n more threads, from the one with index i on.
unfoldable pub create_threads :
    (th_main_func code_selector data_selector thread_proc stack n i : ℕ) → Kernel → Kernel
create_threads mf code data_sel thread_proc stack zero i k = k
create_threads mf code data_sel thread_proc stack (suc n) i k =
    create_threads mf code data_sel thread_proc stack n (i + 1)
      (create_thread mf code data_sel thread_proc (u32 (stack + i * 4096)) 4096 k).1

-- `mutexExample`, with the memory m and the terminals d: the new mutex and the threads.
unfoldable pub mutex_example :
    (th_main_func code_selector data_selector thread_proc stack : ℕ) → Memory → Display → Run
mutex_example mf code data_sel thread_proc stack m d =
    let k = create_threads mf code data_sel thread_proc stack num_threads 0 m.kernel in
    record {
      system = record {
        pcs = λ t. outside;
        depths = λ t. 0;
        mutex = new_mutex;
        memory = record m { kernel = k };
      };
      stages = λ t. ready;
      rounds = λ t. 0;
      display = d;
    }

-- With room in the table for the new threads.
pub data Reach (mf code data_sel thread_proc stack : ℕ) : Run → Type 0 where
  made :
      (m : Memory) (d : Display)
      → m.kernel.curr_threads_count + num_threads ≤ max_total_threads
      → Reach mf code data_sel thread_proc stack
          (mutex_example mf code data_sel thread_proc stack m d)
  later :
      {r s : Run}
      → Reach mf code data_sel thread_proc stack r
      → Step r s
      → Reach mf code data_sel thread_proc stack s

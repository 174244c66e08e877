-- ===== src/Sync/Tests.antt =====
-- The events and the semaphore at concrete states, and the states that the other tests start in.
use test_kernel.Base.{◌≡◌, refl, true, false, none, some, [], ◌∷◌, arith}
use test_kernel.Display.{Display}
use test_kernel.Mem.{Bytes}
use test_kernel.Threads.{Kernel, zero_registers}
use test_kernel.Threads.Lifecycle.{zero_thread}
use test_kernel.Threads.Queue.{SleepQueue}
use test_kernel.Threads.Queue.Order.{Holds}
use test_kernel.Sync.{Memory, world}
use test_kernel.Sync.Events.{ManualResetEvent, new_auto_reset_event}
use test_kernel.Sync.Events.Signals.{set, wait, run, is_signalled, auto_event-refines}
use test_kernel.Sync.Semaphore.{new_semaphore}
use test_kernel.Sync.Semaphore.Capacity.{waits, counting, waits-capacity}

-- Terminals that show nothing, and a stack that holds nothing.
abbrev pub black : Display
black = record {
  terminals = λ i. record {
    buff = λ j. 0;
    tty_cursor = 0;
    tty_attribute = 0;
    terminal_num = 0;
    is_visible = false;
  };
  tmp_terminal_num = 0;
  video = λ j. 0;
}

abbrev pub zeros : Bytes
zeros a = 0

-- One thread, the thread 0, and an entry of thread 1 at address 640.
abbrev pub kernel : Kernel
kernel = record {
  threads = λ i. zero_thread;
  threading_enabled = true;
  curr_threads_count = 2;
  curr_thread_index = 0;
  frames = λ a. zero_registers;
}

abbrev pub memory : Memory
memory = record { entries = λ a. record { next = 0; thread_id = 1 }; kernel = kernel }

abbrev pub one_waits : SleepQueue
one_waits = record { head = 640; tail = 640; lock = 0; count = 1 }

pub one_waits-Holds : Holds (world one_waits memory) ((640, 1) ∷ [])
one_waits-Holds = record {
  lists = record {
    chain = (refl, omega arith, refl, refl);
    distinct = (tt, tt);
    tail = refl;
    count = refl;
  };
  unlocked = refl;
}

auto_event-refines_example :
    is_signalled (run (wait ∷ set ∷ set ∷ wait ∷ wait ∷ []) (new_auto_reset_event true)) ≡ none
auto_event-refines_example = auto_event-refines (wait ∷ set ∷ set ∷ wait ∷ wait ∷ []) true

abbrev unset : ManualResetEvent
unset = record { signal = 0; lock = 0; is_set = false; threads_queue = one_waits }

-- A semaphore of 1 to 3 lets three calls through.
three_calls : waits 3 (new_semaphore 3 1) memory ≡ some (counting 3 1 0 0, memory)
three_calls = (waits-capacity 3 1 320 memory (omega arith) (omega arith)).0

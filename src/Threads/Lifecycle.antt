-- ===== src/Threads/Lifecycle.antt =====
-- src/arch/ia32/threads.c: the table of threads over the life of the kernel: creation, sleeping,
-- waking, ending, switching.
use test_kernel.Base.{
  ℕ, ◌+◌, ◌%◌, ◌/◌, ◌^◌, ◌≤◌, ◌<◌, ◌≡◌, ◌≢◌, refl, sym, ◌∙◌, true, false, some, arith,
}
use test_kernel.Threads.{
  Thread, wait_sleep_join, unstarted, Kernel, max_total_threads, threading_start, init_main_thread,
  wake_thread, pause_curr_thread, enter_thread, unschedule_thread, stop_thread, begin_sleep,
  create_thread, change_thread, get_thread, zero_registers, registers_size,
}
use test_kernel.Threads.Status.{
  fresh, ready, waiting, runs, falls_asleep, leaves, ends, woken, starting, inside, dozing, leaving,
  ended, fits,
}
use test_kernel.Threads.Table.{
  System, becomes, IsSound, leaves-flag, leaves-state, leaves-fits, wake_thread-Agrees,
  wake_thread-others, wake_thread-same, becomes-IsSound, current-IsSound, create_thread-IsSound,
  change_thread-IsSound, own, at_inside, running-IsSound,
}

-- One operation of the kernel on the table, by the current thread at its place in the program. A
-- thread is created only where the table has room for it, which `create_thread` does not test.
pub data Step (main_func code data_sel : ℕ) (x : System) : System → Type 0 where
  start : Step main_func code data_sel x (record x { kernel = threading_start x.kernel })
  wake :
      (id : ℕ)
      → Step main_func code data_sel x
          (becomes x (wake_thread id x.kernel).1 id (woken (x.status id)) (x.place id))
  pause :
      x.place x.kernel.curr_thread_index ≡ inside
      → Step main_func code data_sel x
          (becomes x (pause_curr_thread x.kernel) x.kernel.curr_thread_index waiting inside)
  enter :
      x.place x.kernel.curr_thread_index ≡ starting
      → Step main_func code data_sel x (
          becomes x
            (enter_thread x.kernel)
            x.kernel.curr_thread_index
            (runs (x.status x.kernel.curr_thread_index))
            inside)
  sleep :
      x.place x.kernel.curr_thread_index ≡ inside
      → Step main_func code data_sel x (
          becomes x
            (begin_sleep x.kernel)
            x.kernel.curr_thread_index
            (falls_asleep (x.status x.kernel.curr_thread_index))
            dozing)
  end_sleep :
      x.place x.kernel.curr_thread_index ≡ dozing
      → Step main_func code data_sel x (
          becomes x
            (enter_thread x.kernel)
            x.kernel.curr_thread_index
            (runs (x.status x.kernel.curr_thread_index))
            inside)
  unschedule :
      x.place x.kernel.curr_thread_index ≡ inside
      → Step main_func code data_sel x (
          becomes x
            (unschedule_thread x.kernel)
            x.kernel.curr_thread_index
            (leaves (x.status x.kernel.curr_thread_index))
            leaving)
  stop :
      x.place x.kernel.curr_thread_index ≡ leaving
      → Step main_func code data_sel x (
          becomes x
            (stop_thread x.kernel)
            x.kernel.curr_thread_index
            (ends (x.status x.kernel.curr_thread_index))
            ended)
  create :
      (f st size : ℕ)
      → x.kernel.curr_threads_count < max_total_threads
      → Step main_func code data_sel x (
          becomes x
            (create_thread main_func code data_sel f st size x.kernel).1
            (create_thread main_func code data_sel f st size x.kernel).0
            fresh
            starting)
  tick :
      (fuel regs r : ℕ) {n : Kernel}
      → change_thread fuel regs x.kernel ≡ some (r, n)
      → Step main_func code data_sel x (record x { kernel = n })

module _ {x : System} (w : IsSound x) where
  Step-IsSound : {mf code ds : ℕ} {n : System} → Step mf code ds x n → IsSound n
  unfolding threading_start pause_curr_thread unschedule_thread stop_thread begin_sleep get_thread
  Step-IsSound start = record {
    current_exists = w.current_exists;
    table_holds = w.table_holds;
    all = w.all;
  }
  Step-IsSound (wake id) =
      becomes-IsSound w _ id _ _ (wake_thread-same id x.kernel).0 (wake_thread-same id x.kernel).1
        (λ j ne. wake_thread-others id j x.kernel ne)
        (λ lt. wake_thread-Agrees id x.kernel (x.status id) (x.place id) lt (w.all id lt))
  Step-IsSound (pause at) =
      current-IsSound w _ _ _
        (record { numbered = (own w).numbered; flag = refl; state = refl; placed = refl })
  Step-IsSound (enter at) = running-IsSound w
  Step-IsSound (sleep at) = current-IsSound w _ _ _ (record {
    numbered = (own w).numbered;
    flag = ground (arith, (own w).flag);
    state = ground arith;
    placed = ground arith;
  })
  Step-IsSound (end_sleep at) = running-IsSound w
  Step-IsSound (unschedule at) = current-IsSound w _ _ _ (record {
    numbered = (own w).numbered;
    flag = sym (leaves-flag _ (at_inside w at));
    state = (own w).state ∙ sym (leaves-state _ (at_inside w at));
    placed = leaves-fits _ (at_inside w at);
  })
  Step-IsSound (stop at) = current-IsSound w _ _ _ (record {
    numbered = (own w).numbered;
    flag = ground (arith, (own w).flag);
    state = ground arith;
    placed = ground arith;
  })
  Step-IsSound (create f st size room) = create_thread-IsSound w _ _ _ f st size room
  Step-IsSound (tick fuel regs r e) = change_thread-IsSound w fuel regs r e

-- The globals as the loader leaves them, zeroed but for their initialisers.
abbrev pub zero_thread : Thread
zero_thread = record {
  stack_ptr = 0;
  id = 0;
  is_under_sheduling = false;
  state = wait_sleep_join;
  start_func = 0;
}

abbrev pub boot : Kernel
boot = record {
  threads = λ i. zero_thread;
  threading_enabled = false;
  curr_threads_count = 1;
  curr_thread_index = 0;
  frames = λ a. zero_registers;
}

-- The kernel whose main thread runs.
abbrev pub main_runs : Kernel → System
main_runs k = record { kernel = k; status = λ i. ready; place = λ i. inside }

-- What the kernel reaches from `kernel_main`, which first calls `init_main_thread`.
pub data Reach (main_func code data_sel : ℕ) : System → Type 0 where
  booted : Reach main_func code data_sel (main_runs (init_main_thread boot))
  later :
      {x y : System}
      → Reach main_func code data_sel x
      → Step main_func code data_sel x y
      → Reach main_func code data_sel y

-- In every state that the kernel reaches, where threads are created only while the table has room,
-- the current thread is one of the table, the table holds at most 200 threads, and the slot of
-- each thread has its number, and the flag and the state of its status: from `init_main_thread` on
-- the main thread is scheduled and runs; a new thread is scheduled and unstarted until it has come
-- to `th_main_func`; `pause_curr_thread` takes a thread off the schedule, and `wake_thread` puts
-- one that waits back; a sleeping thread stays where it is in the schedule; and a thread that has
-- come to its last loop is stopped. No thread is off the schedule before it has begun.
pub Reach-IsSound : {mf code ds : ℕ} {x : System} → Reach mf code ds x → IsSound x
unfolding init_main_thread
Reach-IsSound booted = record {
  current_exists = omega arith;
  table_holds = omega arith;
  all = λ i lt. record {
    numbered = ground arith;
    flag = ground arith;
    state = ground arith;
    placed = refl;
  };
}
Reach-IsSound (later r st) = Step-IsSound (Reach-IsSound r) st

-- A thread that has been created, in the slot `id`, with its first frame on its own stack.
pub record Created (mf code ds f st size : ℕ) (k n : Kernel) (id : ℕ) : Type 0 where
  pub numbered : id ≡ k.curr_threads_count
  pub one_more : n.curr_threads_count ≡ k.curr_threads_count + 1
  pub scheduled : (n.threads id).is_under_sheduling ≡ true
  pub not_started : (n.threads id).state ≡ unstarted
  pub starts_at : (n.threads id).start_func ≡ f
  pub on_its_stack :
      (st ≤ (n.threads id).stack_ptr) × ((n.threads id).stack_ptr + registers_size ≡ st + size)
  pub frame_entry : (n.frames (n.threads id).stack_ptr).eip ≡ mf
  pub frame_segments :
      ((n.frames (n.threads id).stack_ptr).cs ≡ code)
      × ((n.frames (n.threads id).stack_ptr).ds ≡ ds)
  pub interrupts_on : (n.frames (n.threads id).stack_ptr).eflags / 2 ^ 9 % 2 ≡ 1
  pub others_kept : (i : ℕ) → i ≢ id → n.threads i ≡ k.threads i
  pub same_current : n.curr_thread_index ≡ k.curr_thread_index

module _ (mf code ds f st size : ℕ) (k : Kernel) where
  Created-create_thread :
      (id : ℕ) {n : Kernel}
      → registers_size ≤ size
      → st + size < 2 ^ 32
      → create_thread mf code ds f st size k ≡ (id, n)
      → Created mf code ds f st size k n id
  unfolding create_thread
  Created-create_thread id fits below e = record {
    numbered = ground arith;
    one_more = ground arith;
    scheduled = ground arith;
    not_started = ground arith;
    starts_at = ground arith;
    on_its_stack = (ground arith, ground arith);
    frame_entry = ground arith;
    frame_segments = (ground arith, ground arith);
    interrupts_on = ground arith;
    others_kept = λ i ne. ground arith;
    same_current = ground arith;
  }

  -- With room in the table and 56 bytes of stack below 4 GB, `create_thread` returns the number of
  -- the threads so far as the id. The new thread is scheduled and unstarted, and its first frame,
  -- with `th_main_func`, the selectors and interrupts on, fills the top 56 bytes of its stack. No
  -- other thread changes.
  pub create_thread-Created :
      k.curr_threads_count < max_total_threads
      → registers_size ≤ size
      → st + size < 2 ^ 32
      → (n : Kernel) × (create_thread mf code ds f st size k ≡ (k.curr_threads_count, n))
        × Created mf code ds f st size k n k.curr_threads_count
  unfolding create_thread
  create_thread-Created room large below =
      (_, refl, Created-create_thread k.curr_threads_count large below refl)

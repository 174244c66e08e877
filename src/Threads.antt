-- ===== src/Threads.antt =====
-- src/arch/ia32/threads.c and include/arch/ia32/threads.h: the table of threads, the scheduler and
-- the spin lock. `codeSelector`, `dataSelector` and the address of `th_main_func` are arguments.
pub mod Spin
pub mod Scheduling
pub mod Status
pub mod Table
pub mod Waking
pub mod Lifecycle
pub mod Queue
mod Tests
use test_kernel.Base.{
  ℕ, zero, suc, ◌+◌, ◌%◌, ◌^◌, Bool, true, false, ◌&&◌, not, Option, none, some, ◌==◌, ltb,
}
use test_kernel.Base.{if◌then◌else◌, update, u32, sub32}

-- `enum threadState`
pub data ThreadState : Type 0 where
  wait_sleep_join running unstarted stopped aborted : ThreadState

abbrev pub is_wait_sleep_join : ThreadState → Bool
is_wait_sleep_join wait_sleep_join = true
is_wait_sleep_join _ = false

-- `thread_t`; `stack_ptr` and `start_func` are addresses.
pub record Thread : Type 0 where
  pub stack_ptr : ℕ
  pub id : ℕ
  pub is_under_sheduling : Bool
  pub state : ThreadState
  pub start_func : ℕ

-- `registers_t`, with the fields of `registers_generic_t` inline.
pub record Registers : Type 0 where
  pub ds : ℕ
  pub edi : ℕ
  pub esi : ℕ
  pub ebp : ℕ
  pub esp : ℕ
  pub ebx : ℕ
  pub edx : ℕ
  pub ecx : ℕ
  pub eax : ℕ
  pub int_no : ℕ
  pub err_code : ℕ
  pub eip : ℕ
  pub cs : ℕ
  pub eflags : ℕ

-- The globals, and the register frames that lie in memory, by address.
pub record Kernel : Type 0 where
  pub threads : ℕ → Thread
  pub threading_enabled : Bool
  pub curr_threads_count : ℕ
  pub curr_thread_index : ℕ
  pub frames : ℕ → Registers

abbrev pub max_total_threads : ℕ
max_total_threads = 200

unfoldable pub threading_start : Kernel → Kernel
threading_start k = record k { threading_enabled = true }

unfoldable pub get_thread : Kernel → Thread
get_thread k = k.threads k.curr_thread_index

unfoldable pub get_current_thread_id : Kernel → ℕ
get_current_thread_id k = k.curr_thread_index

unfoldable pub init_main_thread : Kernel → Kernel
init_main_thread k = record k {
  threads =
      update k.threads 0 (record (k.threads 0) { is_under_sheduling = true; state = running });
}

-- `wake_thread`; the result is `done`, which is never assigned on the path that wakes: `none`.
unfoldable pub wake_thread : ℕ → Kernel → Option Bool × Kernel
wake_thread id k =
    let th = k.threads id in
    if ltb id k.curr_threads_count
    then (if is_wait_sleep_join th.state && not th.is_under_sheduling
        then (
          none,
          record k {
            threads =
                update k.threads id (record th { state = running; is_under_sheduling = true });
          },
        )
        else (some false, k))
    else (some false, k)

-- The two writes of `pause_curr_thread`, before its `sys_call_interrupt(3)`.
unfoldable pub pause_curr_thread : Kernel → Kernel
unfolding get_thread
pause_curr_thread k = record k {
  threads =
      update k.threads k.curr_thread_index
        (record (get_thread k) { state = wait_sleep_join; is_under_sheduling = false });
}

-- The loops of `passive_wait_cond` and `active_wait_cond`: cond i is what the call number i of `cond`
-- returns, and others i what happens behind it until the next one. `none` means that the fuel ran out.
unfoldable pub passive_wait_cond :
    (cond : ℕ → Bool) (others : ℕ → Kernel → Kernel) (fuel i : ℕ) → Kernel → Option Kernel
unfolding pause_curr_thread
passive_wait_cond cond others zero i k = none
passive_wait_cond cond others (suc fuel) i k =
    let rest = passive_wait_cond cond others fuel (i + 1) (others i (pause_curr_thread k)) in
    if cond i then some k else rest

unfoldable pub active_wait_cond :
    (cond : ℕ → Bool) (others : ℕ → Kernel → Kernel) (fuel i : ℕ) → Kernel → Option Kernel
active_wait_cond cond others zero i k = none
active_wait_cond cond others (suc fuel) i k =
    let rest = active_wait_cond cond others fuel (i + 1) (others i k) in
    if cond i then some k else rest

-- `th_main_func`: what it writes before the call of `startFunc`, and its two writes behind it. A
-- timer interrupt may come between those two.
unfoldable pub enter_thread : Kernel → Kernel
unfolding get_thread
enter_thread k = record k {
  threads = update k.threads k.curr_thread_index (record (get_thread k) { state = running });
}

unfoldable pub unschedule_thread : Kernel → Kernel
unfolding get_thread
unschedule_thread k = record k {
  threads =
      update k.threads k.curr_thread_index (record (get_thread k) { is_under_sheduling = false });
}

unfoldable pub stop_thread : Kernel → Kernel
unfolding get_thread
stop_thread k = record k {
  threads = update k.threads k.curr_thread_index (record (get_thread k) { state = stopped });
}

-- `sleep` sets the state around a loop of `hlt`; the thread stays in the schedule. The write behind
-- the loop is that of `enter_thread`.
unfoldable pub begin_sleep : Kernel → Kernel
unfolding get_thread
begin_sleep k = record k {
  threads =
      update k.threads k.curr_thread_index (record (get_thread k) { state = wait_sleep_join });
}

abbrev pub registers_size : ℕ
registers_size = 56

abbrev pub zero_registers : Registers
zero_registers = record {
  ds = 0;
  edi = 0;
  esi = 0;
  ebp = 0;
  esp = 0;
  ebx = 0;
  edx = 0;
  ecx = 0;
  eax = 0;
  int_no = 0;
  err_code = 0;
  eip = 0;
  cs = 0;
  eflags = 0;
}

-- What `create_thread` writes: the slot behind the last one, and the frame on top of the stack.
unfoldable pub add_thread :
    (th_main_func code_selector data_selector : ℕ) (start_function st_pointer stack_size : ℕ)
    → Kernel
    → Kernel
add_thread th_main_func code_selector data_selector start_function st_pointer stack_size k =
    let stack_ptr = sub32 (u32 (st_pointer + stack_size)) registers_size in
    let id = k.curr_threads_count in
    record k {
      threads = update k.threads id (record {
        stack_ptr = stack_ptr;
        id = id;
        is_under_sheduling = true;
        state = unstarted;
        start_func = start_function;
      });
      frames = update k.frames stack_ptr (record zero_registers {
        esp = u32 (stack_ptr + 4 + 32);
        eflags = 0x202;
        eip = th_main_func;
        cs = code_selector;
        ds = data_selector;
      });
      curr_threads_count = id + 1;
    }

-- `create_thread`, with the new id. There is no test that `threads` has room: from the slot 200 on
-- the write goes to what lies behind the table, which is none of the kernel's other fields here.
unfoldable pub create_thread :
    (th_main_func code_selector data_selector : ℕ) (start_function st_pointer stack_size : ℕ)
    → Kernel
    → ℕ × Kernel
unfolding add_thread
create_thread th_main_func code_selector data_selector start_function st_pointer stack_size k = (
  k.curr_threads_count,
  add_thread th_main_func code_selector data_selector start_function st_pointer stack_size k,
)

-- The `do … while` of `change_thread`: from `i` on to the next index that is scheduled.
-- `none` means that the fuel ran out.
unfoldable pub next_scheduled : (ℕ → Thread) → ℕ → ℕ → ℕ → Option ℕ
next_scheduled threads count zero i = none
next_scheduled threads count (suc fuel) i =
    let j = (i + 1) % count in
    let rest = next_scheduled threads count fuel j in
    if (threads j).is_under_sheduling then some j else rest

-- `change_thread` with `regs` for `*regs`; the result is the new `*regs`.
unfoldable pub change_thread : (fuel regs : ℕ) → Kernel → Option (ℕ × Kernel)
change_thread fuel regs k =
    let i = k.curr_thread_index in
    let saved = update k.threads i (record (k.threads i) { stack_ptr = regs }) in
    if not k.threading_enabled
    then some (regs, k)
    else elim (next_scheduled saved k.curr_threads_count fuel i) [
      | none ↦ none
      | some j ↦ some ((saved j).stack_ptr, record k { threads = saved; curr_thread_index = j })
    ]

-- `slock_t` is its `int state`. `slockCapture` in a thread that runs alone: it takes a lock that is
-- 0, and spins for ever on another one (`none`).
unfoldable pub slock_init : ℕ
slock_init = 0

unfoldable pub slock_capture : ℕ → Option ℕ
slock_capture state = if state == 0 then some 1 else none

unfoldable pub slock_release : ℕ → ℕ
slock_release state = if state == 1 then 0 else state

unfoldable pub slock_set : ℕ → ℕ
slock_set state = 1

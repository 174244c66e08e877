-- ===== src/Sync/Events/ManualExample.antt =====
-- TestKernel1/src/arch/ia32/manualResetEventExample.c: what the threads of the example do, one
-- after the other, where each new thread comes to its `wait` during the `sleep` that follows. A
-- `sleep` of the example ends in front of its next call, with the state of its thread as it was;
-- the processor changes between threads only there.
pub mod Refined
mod Tests
use test_kernel.Base.{
  ℕ, ◌+◌, ◌*◌, ◌%◌, ◌^◌, Bool, true, false, Option, none, some, List, [], ◌∷◌, u32,
}
use test_kernel.Boot.Console.{codes}
use test_kernel.Display.{Display}
use test_kernel.Mem.{Bytes}
use test_kernel.Sync.{Memory}
use test_kernel.Sync.Events.{
  ManualResetEvent, manual_set, manual_reset, manual_wait, new_manual_reset_event,
}
use test_kernel.Sync.Mutex.Example.{print_thread}
use test_kernel.Threads.{Kernel, create_thread, enter_thread, unschedule_thread, stop_thread}

-- `print`, the same text as in mutexExample.c.
unfoldable pub print : (t buff : ℕ) → Bytes → List ℕ → Display → Display
unfolding print_thread
print t buff stack str d = print_thread t buff stack str d

-- The example creates the thread with the stack i, sets the event and resets it; thread t begins
-- and comes to its `wait`, with its entry at an address of its stack; it comes to its end.
pub data Act : Type 0 where
  creates : (i : ℕ) → Act
  waits : (t entry : ℕ) → Act
  ends : (t : ℕ) → Act
  sets resets : Act

pub record Run : Type 0 where
  pub mre : ManualResetEvent
  pub memory : Memory
  pub display : Display

-- Thread t has the processor.
abbrev pub switched : (t : ℕ) → Kernel → Kernel
switched t k = record k { curr_thread_index = t }

-- What the acts need: the addresses of code and of the stacks, the thread of the example, a buffer,
-- what lies on its stack, and the fuel of `wake_queued_threads`.
pub record Setting : Type 0 where
  pub th_main_func : ℕ
  pub code_selector : ℕ
  pub data_selector : ℕ
  pub thread_proc : ℕ
  pub stack : ℕ
  pub main : ℕ
  pub buff : ℕ
  pub bytes : Bytes
  pub fuel : ℕ

unfoldable pub create_next : Setting → (i : ℕ) → Run → Run
create_next g i r =
    let (id, k) =
      create_thread g.th_main_func g.code_selector g.data_selector g.thread_proc
        (u32 (g.stack + i * 1024)) 1024 (switched g.main r.memory.kernel) in
    record r { memory = record r.memory { kernel = k } }

unfoldable pub call_wait : Setting → (t entry : ℕ) → Run → Option Run
call_wait g t entry r =
    let d = print t g.buff g.bytes (codes " starts and calls mre.WaitOne()") r.display in
    elim (manual_wait entry r.mre
      (record r.memory { kernel = enter_thread (switched t r.memory.kernel) })) [
        | none ↦ none
        | some (e, m) ↦ some (record { mre = e; memory = m; display = d })
      ]

unfoldable pub call_set : Setting → Run → Option Run
call_set g r =
    let d = print g.main g.buff g.bytes (codes "set") r.display in
    elim (manual_set g.fuel r.mre (record r.memory { kernel = switched g.main r.memory.kernel })) [
      | none ↦ none
      | some (e, m) ↦ some (record { mre = e; memory = m; display = d })
    ]

unfoldable pub call_reset : Setting → Run → Option Run
call_reset g r =
    let d = print g.main g.buff g.bytes (codes "reset") r.display in
    let m = record r.memory { kernel = switched g.main r.memory.kernel } in
    elim (manual_reset r.mre) [
      | none ↦ none
      | some e ↦ some (record { mre = e; memory = m; display = d })
    ]

unfoldable pub run_act : Setting → Act → Run → Option Run
unfolding create_next call_wait call_set call_reset
run_act g (creates i) r = some (create_next g i r)
run_act g (waits t entry) r = call_wait g t entry r
run_act g (ends t) r = some (record r {
  memory = record r.memory {
    kernel = stop_thread (unschedule_thread (switched t r.memory.kernel));
  };
  display = print t g.buff g.bytes (codes "ends\n") r.display;
})
run_act g sets r = call_set g r
run_act g resets r = call_reset g r

unfoldable pub run_acts : Setting → List Act → Run → Option Run
unfolding run_act
run_acts g [] r = some r
run_acts g (a ∷ acts) r = elim (run_act g a r) [ none ↦ none | some s ↦ run_acts g acts s ]

-- The new event of `manualResetEventExample`.
unfoldable pub begin_example : Setting → Memory → Display → Option Run
begin_example g m d = elim (new_manual_reset_event g.fuel false m) [
  | none ↦ none
  | some (e, n) ↦ some (record {
    mre = e;
    memory = n;
    display =
        print g.main g.buff g.bytes
          (codes "Start 3 named threads that block on a ManualResetEvent:\n") d;
  })
]

-- `manualResetEventExample`, where the new threads are `first` and those behind it, and the entry
-- of thread t is at entry t. The last line of a thread comes at some time behind its wake-up.
unfoldable pub manual_reset_event_example : (first : ℕ) (entry : ℕ → ℕ) → List Act
manual_reset_event_example first entry =
    let waits_at = λ (i : ℕ). waits (first + i) (entry (first + i)) in
    let ends_at = λ (i : ℕ). ends (first + i) in
    creates 0
    ∷ creates 1
    ∷ creates 2
    ∷ waits_at 0
    ∷ waits_at 1
    ∷ waits_at 2
    ∷ sets
    ∷ ends_at 0
    ∷ ends_at 1
    ∷ ends_at 2
    ∷ creates 3
    ∷ creates 4
    ∷ waits_at 3
    ∷ waits_at 4
    ∷ resets
    ∷ creates 5
    ∷ waits_at 5
    ∷ sets
    ∷ ends_at 3
    ∷ ends_at 4
    ∷ ends_at 5
    ∷ []

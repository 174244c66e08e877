-- ===== src/Sync/Events/AutoExample/Lost.antt =====
-- TestKernel1/src/arch/ia32/autoResetEventExample.c: two calls of `set` in a row are one signal.
use test_kernel.Base.{
  ◌+◌, ◌≤◌, ℕ, ◌<◌, ◌≡◌, ◌≢◌, refl, sym, ap, ◌∙◌, none, Bool-cases, inl, inr, arith, ◌==◌, ==_iff,
  update, update-same,
}
use test_kernel.Mem.{Bytes}
use test_kernel.Threads.{Kernel, max_total_threads, get_current_thread_id}
use test_kernel.Sync.Events.{auto_wait}
use test_kernel.Sync.Events.AutoExample.Counted.{
  IsCounted, At-stage, Step-IsCounted, example-IsCounted,
}
use test_kernel.Display.{Display}
use test_kernel.Sync.Events.AutoExample.{
  Stage, starting, waiting_1, waiting_2, continuing, raising_1, raising_2, returned, Run, current,
  goes_on, start_proc, pass_first, pass_second, raise_first, raise_second, Step, starts, passes_1,
  passes_2, continues, raises_1, announces, raises_2, returns, others, auto_reset_event_example,
  Reach, here, later,
}

-- The second loop is over, and the thread t waits for an event that is as it was.
record IsStuck (main t : ℕ) (r n : Run) : Type 0 where
  counted : IsCounted main n
  over : n.raised_2 ≡ 2
  waits : n.stages t ≡ waiting_2
  event : n.event_2 ≡ r.event_2
  passed : n.passed_2 ≡ r.passed_2

-- Another thread goes on.
update-waiting :
    (stages : ℕ → Stage) (t c : ℕ) (before after : Stage)
    → stages t ≡ waiting_2
    → stages c ≡ before
    → before ≢ waiting_2
    → update stages c after t ≡ waiting_2
update-waiting stages t c before after w e ne = elim (Bool-cases (t == c)) [
  | inl q ↦ absurd (ne (sym e ∙ ap stages (sym ((==_iff t c).0 q)) ∙ w))
  | inr q ↦ rw q w
]

Step-IsStuck :
    (main t : ℕ) {r n m : Run}
    → auto_wait r.event_2 ≡ none
    → Step n m
    → IsStuck main t r n
    → IsStuck main t r m
unfolding start_proc pass_first pass_second raise_first raise_second goes_on
Step-IsStuck main t {r} {n} stuck (starts buff stack e) w = record {
  counted = Step-IsCounted main (starts buff stack e) w.counted;
  over = w.over;
  waits = update-waiting n.stages t (current n) starting waiting_1 w.waits e (λ q. ground arith);
  event = w.event;
  passed = w.passed;
}
Step-IsStuck main t {r} {n} stuck (passes_1 buff stack ev e went) w = record {
  counted = Step-IsCounted main (passes_1 buff stack ev e went) w.counted;
  over = w.over;
  waits =
      update-waiting (update n.stages (current n) waiting_1) t (current n) waiting_1 waiting_2
        (update-waiting n.stages t (current n) waiting_1 waiting_1 w.waits e (λ q. ground arith))
        (update-same n.stages (current n) waiting_1) (λ q. ground arith);
  event = w.event;
  passed = w.passed;
}
Step-IsStuck main t {r} {n} stuck (passes_2 buff stack ev e went) w =
    absurd (ground (arith, sym stuck ∙ ap auto_wait (sym w.event) ∙ went))
Step-IsStuck main t {r} {n} stuck (continues buff stack e) w =
    absurd (omega (arith, w.over, At-stage main n continuing w.counted e))
Step-IsStuck main t {r} {n} stuck (raises_1 buff stack i e lt) w =
    absurd (omega (arith, w.over, At-stage main n (raising_1 i) w.counted e))
Step-IsStuck main t {r} {n} stuck (announces buff stack e) w =
    absurd (omega (arith, w.over, At-stage main n (raising_1 2) w.counted e))
Step-IsStuck main t {r} {n} stuck (raises_2 buff stack i e lt) w =
    absurd (omega (arith, lt, w.over, At-stage main n (raising_2 i) w.counted e))
Step-IsStuck main t {r} {n} stuck (returns buff stack e) w = record {
  counted = Step-IsCounted main (returns buff stack e) w.counted;
  over = w.over;
  waits =
      update-waiting n.stages t (current n) (raising_2 2) returned w.waits e (λ q. ground arith);
  event = w.event;
  passed = w.passed;
}
Step-IsStuck main t {r} {n} stuck (others k d) w = record {
  counted = Step-IsCounted main (others k d) w.counted;
  over = w.over;
  waits = w.waits;
  event = w.event;
  passed = w.passed;
}

Reach-IsStuck :
    (main t : ℕ) {r n : Run}
    → auto_wait r.event_2 ≡ none
    → IsStuck main t r r
    → Reach r n
    → IsStuck main t r n
Reach-IsStuck main t stuck w here = w
Reach-IsStuck main t stuck w (later reached st) =
    Step-IsStuck main t stuck st (Reach-IsStuck main t stuck w reached)

-- Where the thread that runs `autoResetEventExample` is one of the table, which has room for two
-- more, the threads have reached a state in which its second loop has made both rounds, the second event is not
-- signalled, and a thread waits for it: in every state that is reached from there on, this thread
-- still waits, its wait spins, and no thread has passed the second event since.
pub lost_signal :
    (mf code data_sel thread_proc stack buff : ℕ) (bytes : Bytes) (k : Kernel) (d : Display)
    (s r n : Run) (t : ℕ)
    → get_current_thread_id k < k.curr_threads_count
    → k.curr_threads_count + 2 ≤ max_total_threads
    → auto_reset_event_example mf code data_sel thread_proc stack buff bytes k d ≡ s
    → Reach s r
    → r.raised_2 ≡ 2
    → auto_wait r.event_2 ≡ none
    → r.stages t ≡ waiting_2
    → Reach r n
    → (n.stages t ≡ waiting_2) × (auto_wait n.event_2 ≡ none) × (n.passed_2 ≡ r.passed_2)
lost_signal mf code data_sel thread_proc stack buff bytes k d s r n t lt room made begun over stuck
      waits on =
    let main = get_current_thread_id k in
    let w =
      Reach-IsStuck main t stuck
        (record {
          counted =
              example-IsCounted mf code data_sel thread_proc stack buff bytes k d s r lt room made
                begun;
          over = over;
          waits = waits;
          event = refl;
          passed = refl;
        })
        on in
    (w.waits, ap auto_wait w.event ∙ stuck, w.passed)

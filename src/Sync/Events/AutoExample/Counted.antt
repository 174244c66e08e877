-- ===== src/Sync/Events/AutoExample/Counted.antt =====
-- TestKernel1/src/arch/ia32/autoResetEventExample.c: no thread passes an event more often than it
-- is raised.
use test_kernel.Base.{
  ℕ, zero, suc, ◌+◌, ◌<◌, ◌≤◌, ◌≡◌, ◌≢◌, ◌⊎◌, inl, inr, refl, subst, some, Bool-cases, arith, ◌==◌,
  ==_iff, if◌then◌else◌, update, List,
}
use test_kernel.Boot.Console.{codes}
use test_kernel.Display.{Display}
use test_kernel.Mem.{Bytes}
use test_kernel.Threads.{
  Kernel, create_thread, add_thread, get_current_thread_id, slock_capture, slock_release, slock_set,
  slock_init, max_total_threads,
}
use test_kernel.Sync.Events.{AutoResetEvent, auto_set, auto_wait, auto_reset, new_auto_reset_event}
use test_kernel.Sync.Events.AutoExample.{
  Stage, absent, starting, waiting_1, waiting_2, finished, continuing, raising_1, raising_2,
  returned, Run, current, goes_on, start_proc, pass_first, pass_second, raise_first, raise_second,
  Step, starts, passes_1, passes_2, continues, raises_1, announces, raises_2, returns, others,
  start_threads, auto_reset_event_example, Reach, here, later,
}

-- Whether an event is signalled, as a number.
abbrev pub signals : AutoResetEvent → ℕ
signals ev = if ev.signal == 0 then 1 else 0

-- The thread main runs the example; a and b are the rounds that its loops have made.
abbrev pub At : (main u : ℕ) → Stage → (a b : ℕ) → Type 0
At main u continuing a b = (u ≡ main) × (a ≡ 0) × (b ≡ 0)
At main u (raising_1 i) a b = (u ≡ main) × (a ≡ i) × (b ≡ 0) × (i ≤ 2)
At main u (raising_2 i) a b = (u ≡ main) × (a ≡ 2) × (b ≡ i) × (i ≤ 2)
At main u returned a b = (u ≡ main) × (a ≡ 2) × (b ≡ 2)
At main u _ a b = u ≢ main

abbrev pub AllAt : (main : ℕ) → (ℕ → Stage) → (a b : ℕ) → Type 0
AllAt main stages a b = (u : ℕ) → At main u (stages u) a b

At-other : (main u : ℕ) (s : Stage) (a b a' b' : ℕ) → u ≢ main → At main u s a b → At main u s a' b'
At-other main u continuing a b a' b' ne (e, _, _) = absurd (ne e)
At-other main u (raising_1 i) a b a' b' ne (e, _, _, _) = absurd (ne e)
At-other main u (raising_2 i) a b a' b' ne (e, _, _, _) = absurd (ne e)
At-other main u returned a b a' b' ne (e, _, _) = absurd (ne e)
At-other main u _ a b a' b' ne at = ne

-- The thread t goes on; where it is main, the rounds may change.
module _ (main : ℕ) (stages : ℕ → Stage) (t a b : ℕ) (all : AllAt main stages a b) (s : Stage) where
  proc-AllAt : At main t s a b → AllAt main (update stages t s) a b
  proc-AllAt at u = elim (Bool-cases (u == t)) [
    | inl e ↦ rw (e, (==_iff u t).0 e) at
    | inr e ↦ rw e (all u)
  ]

  main-AllAt : (a' b' : ℕ) → t ≡ main → At main t s a' b' → AllAt main (update stages t s) a' b'
  main-AllAt a' b' own at u = elim (Bool-cases (u == t)) [
    | inl e ↦ rw (e, (==_iff u t).0 e) at
    | inr e ↦ rw e (At-other main u (stages u) a b a' b' (λ q. ground (arith, e, own, q)) (all u))
  ]

-- What is passed and what can be passed comes from the first signal and the rounds.
pub record IsCounted (main : ℕ) (r : Run) : Type 0 where
  pub first : r.passed_1 + signals r.event_1 ≤ 1 + r.raised_1
  pub second : r.passed_2 + signals r.event_2 ≤ r.raised_2
  pub all : AllAt main r.stages r.raised_1 r.raised_2

pub At-stage :
    (main : ℕ) (r : Run) (s : Stage)
    → IsCounted main r
    → r.stages (current r) ≡ s
    → At main (current r) s r.raised_1 r.raised_2
At-stage main r s w e =
    subst (λ x. At main (current r) x r.raised_1 r.raised_2) e (w.all (current r))

signals-set : (ev : AutoResetEvent) → signals (auto_set ev) ≤ 1
unfolding auto_set slock_release
signals-set ev = ground arith

signals-wait : (ev e : AutoResetEvent) → auto_wait ev ≡ some e → (signals ev ≡ 1) × (signals e ≡ 0)
unfolding auto_wait slock_capture
signals-wait ev e went = elim (Bool-cases (ev.signal == 0)) [
  | inl free ↦ (ground (arith, free), ground (arith, free, went))
  | inr taken ↦ absurd (ground (arith, taken, went))
]

goes_on-IsCounted :
    (main buff : ℕ) (stack : Bytes) (s : Stage) (str : List ℕ) (r : Run)
    → IsCounted main r
    → At main (current r) s r.raised_1 r.raised_2
    → IsCounted main (goes_on buff stack s str r)
unfolding goes_on
goes_on-IsCounted main buff stack s str r w at = record {
  first = w.first;
  second = w.second;
  all = proc-AllAt main r.stages (current r) r.raised_1 r.raised_2 w.all s at;
}

pub Step-IsCounted : (main : ℕ) {r n : Run} → Step r n → IsCounted main r → IsCounted main n
unfolding start_proc pass_first pass_second raise_first raise_second goes_on
Step-IsCounted main {r} (starts buff stack e) w =
    goes_on-IsCounted main buff stack waiting_1 (codes "waits on AutoResetEvent #1.") r w
      (At-stage main r starting w e)
Step-IsCounted main {r} (passes_1 buff stack ev e went) w =
    let proc = At-stage main r waiting_1 w e in
    let passed : Run = record r { event_1 = ev; passed_1 = r.passed_1 + 1 } in
    let counted : IsCounted main passed = record {
      first = omega (arith, w.first, signals-wait r.event_1 ev went);
      second = w.second;
      all = w.all;
    } in
    goes_on-IsCounted main buff stack waiting_2 (codes "waiting on AutoResetEvent #2.")
      (goes_on buff stack waiting_1 (codes "released from AutoResetEvent #1.") passed)
      (goes_on-IsCounted main buff stack waiting_1 (codes "released from AutoResetEvent #1.") passed
        counted proc)
      proc
Step-IsCounted main {r} (passes_2 buff stack ev e went) w =
    let proc = At-stage main r waiting_2 w e in
    let passed : Run = record r { event_2 = ev; passed_2 = r.passed_2 + 1 } in
    let counted : IsCounted main passed = record {
      first = w.first;
      second = omega (arith, w.second, signals-wait r.event_2 ev went);
      all = w.all;
    } in
    goes_on-IsCounted main buff stack finished (codes "finished.")
      (goes_on buff stack waiting_2 (codes "released from AutoResetEvent #2.") passed)
      (goes_on-IsCounted main buff stack waiting_2 (codes "released from AutoResetEvent #2.") passed
        counted proc)
      proc
Step-IsCounted main {r} (continues buff stack e) w =
    let (own, a, b) = At-stage main r continuing w e in
    goes_on-IsCounted main buff stack (raising_1 0) (codes "Continuing") r w
      (own, a, b, omega arith)
Step-IsCounted main {r} (raises_1 buff stack i e lt) w =
    let (own, a, b, _) = At-stage main r (raising_1 i) w e in
    record {
      first = omega (arith, w.first, signals-set r.event_1);
      second = w.second;
      all =
          main-AllAt main r.stages (current r) r.raised_1 r.raised_2 w.all (raising_1 (i + 1))
            (r.raised_1 + 1) r.raised_2 own (own, omega arith, b, omega arith);
    }
Step-IsCounted main {r} (announces buff stack e) w =
    let (own, a, b, _) = At-stage main r (raising_1 2) w e in
    goes_on-IsCounted main buff stack (raising_2 0)
      (codes "All threads are now waiting on AutoResetEvent #2.") r w (own, a, b, omega arith)
Step-IsCounted main {r} (raises_2 buff stack i e lt) w =
    let (own, a, b, _) = At-stage main r (raising_2 i) w e in
    record {
      first = w.first;
      second = omega (arith, w.second, signals-set r.event_2);
      all =
          main-AllAt main r.stages (current r) r.raised_1 r.raised_2 w.all (raising_2 (i + 1))
            r.raised_1 (r.raised_2 + 1) own (own, a, omega arith, omega arith);
    }
Step-IsCounted main {r} (returns buff stack e) w =
    let (own, a, b, _) = At-stage main r (raising_2 2) w e in
    goes_on-IsCounted main buff stack returned (codes "Main thread finished") r w (own, a, b)
Step-IsCounted main {r} (others k d) w = record { first = w.first; second = w.second; all = w.all }

Reach-IsCounted : (main : ℕ) {r n : Run} → IsCounted main r → Reach r n → IsCounted main n
Reach-IsCounted main w here = w
Reach-IsCounted main w (later r st) = Step-IsCounted main st (Reach-IsCounted main w r)

-- The new threads come behind main.
start_threads-AllAt :
    (main mf code data_sel thread_proc stack n i : ℕ) (stages : ℕ → Stage) (k : Kernel)
    → main < k.curr_threads_count
    → AllAt main stages 0 0
    → AllAt main (start_threads mf code data_sel thread_proc stack n i stages k).0 0 0
unfolding start_threads create_thread add_thread
start_threads-AllAt main mf code data_sel thread_proc stack zero i stages k lt all = all
start_threads-AllAt main mf code data_sel thread_proc stack (suc n) i stages k lt all =
    start_threads-AllAt main mf code data_sel thread_proc stack n (i + 1)
      (update stages k.curr_threads_count starting) _ (omega arith)
      (proc-AllAt main stages k.curr_threads_count 0 0 all starting
        (λ e. absurd (omega (arith, e))))

first-AllAt : (main : ℕ) → AllAt main (update (λ t. absent) main continuing) 0 0
first-AllAt main u = elim (Bool-cases (u == main)) [
  | inl e ↦ rw e ((==_iff u main).0 e, refl, refl)
  | inr e ↦ rw e (λ q. ground (arith, e, q))
]

auto_reset_event_example-IsCounted :
    (mf code data_sel thread_proc stack buff : ℕ) (bytes : Bytes) (k : Kernel) (d : Display)
    → get_current_thread_id k < k.curr_threads_count
    → IsCounted
        (get_current_thread_id k)
        (auto_reset_event_example mf code data_sel thread_proc stack buff bytes k d)
unfolding auto_reset_event_example new_auto_reset_event auto_set auto_reset slock_set slock_release
    slock_init
auto_reset_event_example-IsCounted mf code data_sel thread_proc stack buff bytes k d lt =
    let main = get_current_thread_id k in
    let begun : ℕ → Stage = update (λ t. absent) main continuing in
    record {
      first = omega arith;
      second = omega arith;
      all =
          start_threads-AllAt main mf code data_sel thread_proc stack 2 0 begun k lt
            (first-AllAt main);
    }

rounds : (main a b : ℕ) (s : Stage) → At main main s a b → (a ≤ 2) × (b ≤ 2) × ((b ≡ 0) ⊎ (a ≡ 2))
rounds main a b continuing (_, z, y) = (omega arith, omega arith, inl y)
rounds main a b (raising_1 i) (_, z, y, le) = (omega arith, omega arith, inl y)
rounds main a b (raising_2 i) (_, z, y, le) = (omega arith, omega arith, inr z)
rounds main a b returned (_, z, y) = (omega arith, omega arith, inr z)
rounds main a b _ ne = absurd (ne refl)

pub example-IsCounted :
    (mf code data_sel thread_proc stack buff : ℕ) (bytes : Bytes) (k : Kernel) (d : Display)
    (r n : Run)
    → get_current_thread_id k < k.curr_threads_count
    → k.curr_threads_count + 2 ≤ max_total_threads
    → auto_reset_event_example mf code data_sel thread_proc stack buff bytes k d ≡ r
    → Reach r n
    → IsCounted (get_current_thread_id k) n
example-IsCounted mf code data_sel thread_proc stack buff bytes k d r n lt room made reached =
    Reach-IsCounted (get_current_thread_id k)
      (subst (IsCounted (get_current_thread_id k)) made
        (auto_reset_event_example-IsCounted mf code data_sel thread_proc stack buff bytes k d lt))
      reached

-- Where the thread that runs `autoResetEventExample` is one of the table, which has room for two
-- more, in every state that the threads reach, with any switches between them: the threads have passed the first event, which
-- is signalled at first, at most once more often than its loop has raised it, and the second at
-- most as often as it is raised, where a signal that is still there counts as passed; each loop
-- makes at most two rounds, and the second begins when the first has made both.
pub auto_example-conserves :
    (mf code data_sel thread_proc stack buff : ℕ) (bytes : Bytes) (k : Kernel) (d : Display)
    (r n : Run)
    → get_current_thread_id k < k.curr_threads_count
    → k.curr_threads_count + 2 ≤ max_total_threads
    → auto_reset_event_example mf code data_sel thread_proc stack buff bytes k d ≡ r
    → Reach r n
    → (n.passed_1 + signals n.event_1 ≤ 1 + n.raised_1)
      × (n.passed_2 + signals n.event_2 ≤ n.raised_2)
      × (n.raised_1 ≤ 2)
      × (n.raised_2 ≤ 2)
      × ((n.raised_2 ≡ 0) ⊎ (n.raised_1 ≡ 2))
auto_example-conserves mf code data_sel thread_proc stack buff bytes k d r n lt room made reached =
    let main = get_current_thread_id k in
    let w =
      example-IsCounted mf code data_sel thread_proc stack buff bytes k d r n lt room made
        reached in
    let (two, too, turn) = rounds main n.raised_1 n.raised_2 (n.stages main) (w.all main) in
    (w.first, w.second, two, too, turn)

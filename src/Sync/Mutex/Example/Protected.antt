-- ===== src/Sync/Mutex/Example/Protected.antt =====
-- TestKernel1/src/arch/ia32/mutexExample.c: at most one thread is in the protected area.
use test_kernel.Base.{
  ℕ, ◌≡◌, ◌≢◌, ◌⊎◌, inl, inr, refl, sym, subst, ◌∙◌, arith, Bool, true, none, some, Option,
  Option-cases, Bool-cases, ◌==◌, ==_iff, sub32,
}
use test_kernel.Sync.{Memory, nobody, on_queue}
use test_kernel.Sync.Stages.{AllAt, stage-AllAt, call-AllAt, step-AllAt}
use test_kernel.Sync.Mutex.Moves.{gain}
use test_kernel.Sync.Mutex.Exclusion
use test_kernel.Sync.Mutex.Exclusion.{System, moved, current, mutex-IsSound}
use test_kernel.Sync.Mutex.{
  Mutex, Pc, outside, wait_capture, wait_body, wait_queue, wait_recapture, wait_loop,
  release_capture, release_body, advance, capture, wait_test, loop_test, release_test, block,
}
use test_kernel.Sync.Mutex.Example.{
  Stage, ready, waiting, using, releasing, Run, request_mutex, enter_area, leave_area, finish_round,
  Step, requests, enters, leaves, finishes, moves, others, mutex_example, create_threads,
  num_threads, Reach, made, later,
}
use test_kernel.Display.{Display}
use test_kernel.Threads.{Kernel, get_current_thread_id, slock_capture}
use test_kernel.Threads.Queue.{queue_waiting_thread, wake_queued_thread}

-- Where a step of the mutex leads.
abbrev IsNext : Pc → Pc → Type 0
IsNext outside p = ⊥
IsNext wait_capture p = p ≡ wait_body
IsNext wait_body p = (p ≡ outside) ⊎ (p ≡ wait_queue)
IsNext wait_queue p = p ≡ wait_recapture
IsNext wait_recapture p = p ≡ wait_loop
IsNext wait_loop p = (p ≡ outside) ⊎ (p ≡ wait_queue)
IsNext release_capture p = p ≡ release_body
IsNext release_body p = p ≡ outside

abbrev Leads : Pc → Option (Pc × Mutex × Memory) → Type 0
Leads pc none = Unit
Leads pc (some (p, o, m)) = IsNext pc p

capture-Leads :
    (pc next : Pc) (o : Mutex) (m : Memory) → IsNext pc next → Leads pc (capture next o m)
unfolding capture slock_capture
capture-Leads pc next o m e = elim (Bool-cases (o.lock == 0)) [
  | inl free ↦ rw (Leads, free) e
  | inr taken ↦ rw (Leads, taken) tt
]

loop_test-next :
    (o : Mutex) (m : Memory) → ((loop_test o m).0 ≡ outside) ⊎ ((loop_test o m).0 ≡ wait_queue)
unfolding loop_test
loop_test-next o m = elim (Bool-cases (o.owner_thread_id == nobody)) [
  | inl free ↦ rw free (inl refl)
  | inr owned ↦ rw owned (inr refl)
]

wait_test-next :
    (o : Mutex) (m : Memory) → ((wait_test o m).0 ≡ outside) ⊎ ((wait_test o m).0 ≡ wait_queue)
unfolding wait_test
wait_test-next o m = elim (Bool-cases (o.owner_thread_id == get_current_thread_id m.kernel)) [
  | inl own ↦ rw own (inl refl)
  | inr other ↦ rw other (loop_test-next o m)
]

block-Leads : (entry : ℕ) (o : Mutex) (m : Memory) → Leads wait_queue (block entry o m)
unfolding block
block-Leads entry o m =
    elim (Option-cases (on_queue (queue_waiting_thread entry) o.threads_queue m)) [
      | inl lost ↦ rw (Leads, lost) tt
      | inr (r, e) ↦ rw (Leads, e) refl
    ]

release_test-Leads : (o : Mutex) (m : Memory) → Leads release_body (release_test o m)
unfolding release_test
release_test-Leads o m = elim (Bool-cases (o.owner_thread_id == get_current_thread_id m.kernel)) [
  | inr other ↦ rw (Leads, other) refl
  | inl own ↦ elim (Bool-cases (sub32 o.enter_counter 1 == 0)) [
    | inr more ↦ rw (Leads, own, more) refl
    | inl last ↦ elim (Option-cases (on_queue wake_queued_thread o.threads_queue m)) [
      | inl lost ↦ rw (Leads, own, last, lost) tt
      | inr (r, e) ↦ rw (Leads, own, last, e) refl
    ]
  ]
]

advance-Leads : (entry : ℕ) (pc : Pc) (o : Mutex) (m : Memory) → Leads pc (advance entry pc o m)
unfolding advance
advance-Leads entry outside o m = tt
advance-Leads entry wait_capture o m = capture-Leads wait_capture wait_body o m refl
advance-Leads entry wait_body o m = wait_test-next o m
advance-Leads entry wait_queue o m = block-Leads entry o m
advance-Leads entry wait_recapture o m = capture-Leads wait_recapture wait_loop o m refl
advance-Leads entry wait_loop o m = loop_test-next o m
advance-Leads entry release_capture o m = capture-Leads release_capture release_body o m refl
advance-Leads entry release_body o m = release_test-Leads o m

-- In `wait`, and in `release`, with how often the thread has entered.
abbrev InWait : Pc → ℕ → Type 0
InWait outside d = d ≡ 1
InWait release_capture d = ⊥
InWait release_body d = ⊥
InWait _ d = d ≡ 0

abbrev InRelease : Pc → ℕ → Type 0
InRelease outside d = d ≡ 0
InRelease release_capture d = d ≡ 1
InRelease release_body d = d ≡ 1
InRelease _ d = ⊥

-- How a thread's stage, its place in the mutex and its depth belong together.
abbrev At : Stage → Pc → ℕ → Type 0
At ready pc d = (pc ≡ outside) × (d ≡ 0)
At waiting pc d = InWait pc d
At using pc d = (pc ≡ outside) × (d ≡ 1)
At releasing pc d = InRelease pc d

-- A step in the mutex keeps that, where a thread that has entered is the owner.
wait-kept :
    (pc p : Pc) (owns : Bool) (d : ℕ) → IsNext pc p → InWait pc d → InWait p (gain pc p owns d)
wait-kept outside p owns d next w = absurd next
wait-kept wait_capture p owns d next w = rw next w
wait-kept wait_body p owns d (inl e) w = rw e (omega (arith, w))
wait-kept wait_body p owns d (inr e) w = rw e w
wait-kept wait_queue p owns d next w = rw next w
wait-kept wait_recapture p owns d next w = rw next w
wait-kept wait_loop p owns d (inl e) w = rw e (omega (arith, w))
wait-kept wait_loop p owns d (inr e) w = rw e w
wait-kept release_capture p owns d next w = absurd w
wait-kept release_body p owns d next w = absurd w

release-kept :
    (pc p : Pc) (owns : Bool) (d : ℕ)
    → IsNext pc p
    → (d ≢ 0 → owns ≡ true)
    → InRelease pc d
    → InRelease p (gain pc p owns d)
release-kept outside p owns d next own w = absurd next
release-kept release_capture p owns d next own w = rw next w
release-kept release_body p owns d next own w =
    rw (next, own (λ z. absurd (omega (arith, w, z)))) (omega (arith, w))
release-kept wait_capture p owns d next own w = absurd w
release-kept wait_body p owns d next own w = absurd w
release-kept wait_queue p owns d next own w = absurd w
release-kept wait_recapture p owns d next own w = absurd w
release-kept wait_loop p owns d next own w = absurd w

move-At :
    (s : Stage) (pc p : Pc) (owns : Bool) (d : ℕ)
    → IsNext pc p
    → (d ≢ 0 → owns ≡ true)
    → At s pc d
    → At s p (gain pc p owns d)
move-At waiting pc p owns d next own at = wait-kept pc p owns d next at
move-At releasing pc p owns d next own at = release-kept pc p owns d next own at
move-At ready pc p owns d next own (e, z) = absurd (subst (λ c. IsNext c p) e next)
move-At using pc p owns d next own (e, z) = absurd (subst (λ c. IsNext c p) e next)

-- The mutex has been reached by its own steps, and every thread is where its stage says.
record Fits (r : Run) : Type 0 where
  mutex : Exclusion.Reach r.system
  all : AllAt At r.stages r.system.pcs r.system.depths

At-stage :
    (r : Run) (t : ℕ) (s : Stage)
    → Fits r
    → r.stages t ≡ s
    → At s (r.system.pcs t) (r.system.depths t)
At-stage r t s w e = subst (λ x. At x (r.system.pcs t) (r.system.depths t)) e (w.all t)

Step-Fits : {r s : Run} → Step r s → Fits r → Fits s
unfolding request_mutex enter_area leave_area finish_round
Step-Fits {r} (requests buff stack e less) w =
    let (out, z) = At-stage r (current r.system) ready w e in
    record {
      mutex = Exclusion.later w.mutex (Exclusion.call_wait out);
      all =
          call-AllAt At r.stages r.system.pcs r.system.depths (current r.system) w.all waiting
            wait_capture z;
    }
Step-Fits {r} (enters buff stack e out) w = record {
  mutex = w.mutex;
  all = stage-AllAt At r.stages r.system.pcs r.system.depths (current r.system) w.all using (
    out,
    subst (λ p. InWait p (r.system.depths (current r.system))) out
        (At-stage r (current r.system) waiting w e),
  );
}
Step-Fits {r} (leaves buff stack e) w =
    let (out, z) = At-stage r (current r.system) using w e in
    record {
      mutex = Exclusion.later w.mutex (Exclusion.call_release out);
      all =
          call-AllAt At r.stages r.system.pcs r.system.depths (current r.system) w.all releasing
            release_capture z;
    }
Step-Fits {r} (finishes buff stack e out) w = record {
  mutex = w.mutex;
  all = stage-AllAt At r.stages r.system.pcs r.system.depths (current r.system) w.all ready (
    out,
    subst (λ p. InRelease p (r.system.depths (current r.system))) out
        (At-stage r (current r.system) releasing w e),
  );
}
Step-Fits {r} (moves entry p mut m went lt small) w =
    let t : ℕ = current r.system in
    let owned = ((mutex-IsSound w.mutex).owned.threads t).holder in
    record {
      mutex = Exclusion.later w.mutex (Exclusion.moves entry p mut m went lt small);
      all = step-AllAt At r.stages r.system.pcs r.system.depths t w.all p _ (
          move-At (r.stages t) (r.system.pcs t) p (r.system.mutex.owner_thread_id == t)
            (r.system.depths t)
            (subst (Leads (r.system.pcs t)) went
              (advance-Leads entry (r.system.pcs t) r.system.mutex r.system.memory))
            (λ ne. (==_iff r.system.mutex.owner_thread_id t).1 (owned ne)) (w.all t));
    }
Step-Fits {r} (others m q d) w = record {
  mutex = Exclusion.later w.mutex (Exclusion.others m q);
  all = w.all;
}

mutex_example-Fits :
    (mf code data_sel thread_proc stack : ℕ) (m : Memory) (d : Display)
    → Fits (mutex_example mf code data_sel thread_proc stack m d)
unfolding mutex_example
mutex_example-Fits mf code data_sel thread_proc stack m d =
    let k : Kernel = create_threads mf code data_sel thread_proc stack num_threads 0 m.kernel in
    record { mutex = Exclusion.made (record m { kernel = k }); all = λ u. (refl, refl) }

Reach-Fits :
    {mf code data_sel thread_proc stack : ℕ} {r : Run}
    → Reach mf code data_sel thread_proc stack r
    → Fits r
Reach-Fits {mf} {code} {data_sel} {thread_proc} {stack} (made m d room) =
    mutex_example-Fits mf code data_sel thread_proc stack m d
Reach-Fits (later r st) = Step-Fits st (Reach-Fits r)

-- In every state that the threads of `mutexExample` reach, with any switches between them, a thread
-- between the return of `wait` and its call of `release` is the owner of the mutex, and two such
-- threads are the same.
pub protected_area :
    {mf code data_sel thread_proc stack : ℕ} {r : Run}
    → Reach mf code data_sel thread_proc stack r
    → (t u : ℕ) → r.stages t ≡ using
    → r.stages u ≡ using
    → (t ≡ u) × (r.system.mutex.owner_thread_id ≡ t)
protected_area {r = r} reached t u et eu =
    let w = Reach-Fits reached in
    let owned = (mutex-IsSound w.mutex).owned.threads in
    let (_, dt) = At-stage r t using w et in
    let (_, du) = At-stage r u using w eu in
    let owner_t : r.system.mutex.owner_thread_id ≡ t = (owned t).holder (omega arith) in
    let owner_u : r.system.mutex.owner_thread_id ≡ u = (owned u).holder (omega arith) in
    (sym owner_t ∙ owner_u, owner_t)

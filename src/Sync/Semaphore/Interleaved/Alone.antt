-- ===== src/Sync/Semaphore/Interleaved/Alone.antt =====
-- TestKernel1/src/arch/ia32/semaphore.c: a thread that runs alone goes through the steps of the
-- methods.
use test_kernel.Base.{
  ℕ, zero, suc, ◌≡◌, ◌≢◌, ◌∙◌, arith, refl, Option, none, some, Bool-cases, Option-cases, inl, inr,
  ◌==◌, signed_lt, ◌+◌, u32, sub32,
}
use test_kernel.Threads.{slock_capture, slock_release}
use test_kernel.Threads.Queue.{queue_waiting_thread, wake_queued_thread}
use test_kernel.Sync.{Memory, on_queue}
use test_kernel.Sync.Semaphore
use test_kernel.Sync.Semaphore.{Semaphore, wait_captured, release_captured, spin}
use test_kernel.Sync.Semaphore.Interleaved.{
  Pc, outside, wait_capture, wait_body, wait_queue, wait_spin, release_capture, release_body,
  release_wake, capture, wait_test, release_test, queued, advance,
}

-- The current thread goes on until it is outside; `none` where it spins for ever or the fuel ends.
unfoldable pub run_alone : (fuel entry : ℕ) → Pc → Semaphore → Memory → Option (Semaphore × Memory)
run_alone zero entry pc sem m = none
run_alone (suc n) entry outside sem m = some (sem, m)
run_alone (suc n) entry pc sem m = elim (advance entry pc sem m) [
  | none ↦ none
  | some (p, s, k) ↦ run_alone n entry p s k
]

outside-stops : (entry : ℕ) (o : Semaphore) (m : Memory) → advance entry outside o m ≡ none
unfolding advance
outside-stops entry o m = refl

run-goes_on :
    (n entry : ℕ) (pc p : Pc) (o s : Semaphore) (m k : Memory)
    → advance entry pc o m ≡ some (p, s, k)
    → run_alone (suc n) entry pc o m ≡ run_alone n entry p s k
unfolding run_alone
run-goes_on n entry outside p o s m k e = absurd (ground (arith, e, outside-stops entry o m))
run-goes_on n entry _ p o s m k e = rw (run_alone, e) refl

run-spins :
    (n entry : ℕ) (pc : Pc) (o : Semaphore) (m : Memory)
    → pc ≢ outside
    → advance entry pc o m ≡ none
    → run_alone (suc n) entry pc o m ≡ none
unfolding run_alone
run-spins n entry outside o m ne e = absurd (ne refl)
run-spins n entry _ o m ne e = rw (run_alone, e) refl

run_spin :
    (n entry : ℕ) (sem : Semaphore) (m : Memory)
    → run_alone (suc (suc n)) entry wait_spin sem m ≡ spin sem m
unfolding run_alone advance
run_spin n entry sem m = elim (Bool-cases (sem.counter == sem.max)) [
  | inl full ↦ rw (run_alone, full) refl
  | inr less ↦ rw (run_alone, less) refl
]

run_queue :
    (n entry : ℕ) (sem : Semaphore) (m : Memory)
    → run_alone (suc (suc (suc n))) entry wait_queue sem m
      ≡ elim (on_queue (queue_waiting_thread entry) sem.threads_queue m) [
        | none ↦ none
        | some (q, k) ↦ spin (record sem { threads_queue = q }) k
      ]
unfolding run_alone advance queued
run_queue n entry sem m =
    elim (Option-cases (on_queue (queue_waiting_thread entry) sem.threads_queue m)) [
      | inl full ↦ rw (run_alone, full) refl
      | inr ((q, k), e) ↦ rw (run_alone, e) (run_spin n entry (record sem { threads_queue = q }) k)
    ]

run_wait :
    (n entry : ℕ) (sem : Semaphore) (m : Memory)
    → run_alone (suc (suc (suc (suc n)))) entry wait_body sem m ≡ wait_captured entry sem m
unfolding run_alone advance wait_test wait_captured
run_wait n entry sem m = elim (Bool-cases (signed_lt sem.counter sem.max)) [
  | inl room ↦
      run-goes_on (suc (suc (suc n))) entry wait_body outside sem
        (record sem { counter = u32 (sem.counter + 1); spinlock = slock_release sem.spinlock }) m m
        (rw room refl)
      ∙ rw room refl
  | inr full ↦
      run-goes_on (suc (suc (suc n))) entry wait_body wait_queue sem
        (record sem { spinlock = slock_release sem.spinlock }) m m (rw full refl)
      ∙ rw full (run_queue n entry (record sem { spinlock = slock_release sem.spinlock }) m)
]

run_wake :
    (n entry : ℕ) (sem : Semaphore) (m : Memory)
    → run_alone (suc (suc n)) entry release_wake sem m
      ≡ elim (on_queue wake_queued_thread sem.threads_queue m) [
        | none ↦ none
        | some (q, k) ↦ some (record sem { threads_queue = q }, k)
      ]
unfolding run_alone advance queued
run_wake n entry sem m = elim (Option-cases (on_queue wake_queued_thread sem.threads_queue m)) [
  | inl full ↦ rw (run_alone, full) refl
  | inr ((q, k), e) ↦ rw (run_alone, e) refl
]

run_release :
    (n entry : ℕ) (sem : Semaphore) (m : Memory)
    → run_alone (suc (suc (suc n))) entry release_body sem m ≡ release_captured sem m
unfolding run_alone advance release_test release_captured
run_release n entry sem m = elim (Bool-cases (signed_lt sem.counter sem.min)) [
  | inl short ↦
      run-goes_on (suc (suc n)) entry release_body outside sem sem m m (rw short refl)
      ∙ rw short refl
  | inr enough ↦
      run-goes_on (suc (suc n)) entry release_body release_wake sem
        (record sem { counter = sub32 sem.counter 1; spinlock = slock_release sem.spinlock }) m m
        (rw enough refl)
      ∙ rw enough (
          run_wake n entry
            (record sem { counter = sub32 sem.counter 1; spinlock = slock_release sem.spinlock }) m)
]

captured_wait :
    (n entry : ℕ) (sem : Semaphore) (m : Memory)
    → run_alone (suc (suc (suc (suc (suc n))))) entry wait_capture sem m
      ≡ Semaphore.wait entry sem m
unfolding advance capture slock_capture Semaphore.wait
captured_wait n entry sem m = elim (Bool-cases (sem.spinlock == 0)) [
  | inl free ↦
      run-goes_on (suc (suc (suc (suc n)))) entry wait_capture wait_body sem
        (record sem { spinlock = 1 }) m m (rw (free, capture) refl)
      ∙ rw (free, Semaphore.wait) (run_wait n entry (record sem { spinlock = 1 }) m)
  | inr taken ↦
      run-spins (suc (suc (suc (suc n)))) entry wait_capture sem m (λ e. ground arith)
        (rw (taken, capture) refl)
      ∙ rw (taken, Semaphore.wait) refl
]

captured_release :
    (n entry : ℕ) (sem : Semaphore) (m : Memory)
    → run_alone (suc (suc (suc (suc n)))) entry release_capture sem m ≡ Semaphore.release sem m
unfolding advance capture slock_capture Semaphore.release
captured_release n entry sem m = elim (Bool-cases (sem.spinlock == 0)) [
  | inl free ↦
      run-goes_on (suc (suc (suc n))) entry release_capture release_body sem
        (record sem { spinlock = 1 }) m m (rw (free, capture) refl)
      ∙ rw (free, Semaphore.release) (run_release n entry (record sem { spinlock = 1 }) m)
  | inr taken ↦
      run-spins (suc (suc (suc n))) entry release_capture sem m (λ e. ground arith)
        (rw (taken, capture) refl)
      ∙ rw (taken, Semaphore.release) refl
]

-- Five or more steps of a thread that runs alone do what `wait` does as a whole, and four or more
-- what `release` does, at every semaphore and memory; where the whole spins for ever, the steps do.
pub alone-agrees :
    (n entry : ℕ) (sem : Semaphore) (m : Memory)
    → (run_alone (suc (suc (suc (suc (suc n))))) entry wait_capture sem m
        ≡ Semaphore.wait entry sem m)
      × (run_alone (suc (suc (suc (suc n)))) entry release_capture sem m ≡ Semaphore.release sem m)
alone-agrees n entry sem m = (captured_wait n entry sem m, captured_release n entry sem m)

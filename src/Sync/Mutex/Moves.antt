-- ===== src/Sync/Mutex/Moves.antt =====
-- src/arch/ia32/mutex.c: what each step of a thread does to the owner, the counter and the lock.
use test_kernel.Base.{
  ℕ, ◌+◌, ◌-◌, ◌≡◌, refl, sym, subst, Bool, true, false, Option, none, some, arith, ◌==◌,
  Option-cases, Bool-cases, ==_iff, sub32, ◌∙◌, inl, inr,
}
use test_kernel.Threads.{get_current_thread_id, slock_capture}
use test_kernel.Threads.Queue.{queue_waiting_thread, wake_queued_thread}
use test_kernel.Sync.{Memory, nobody, on_queue}
use test_kernel.Sync.Ownership.{
  Effect, keeps, enters, takes, leaves, frees, LockEffect, captures, releases, passes,
}
use test_kernel.Sync.Mutex.{
  Mutex, Pc, outside, wait_capture, wait_body, wait_queue, wait_recapture, wait_loop,
  release_capture, release_body, advance, capture, wait_test, loop_test, release_test, block,
}

-- Inside a critical section of `mut->lock`.
abbrev pub inside : Pc → Bool
inside wait_body = true
inside wait_loop = true
inside release_body = true
inside _ = false

-- The new depth: a `wait` that returns enters, a `release` by the owner leaves.
abbrev pub gain : Pc → Pc → (owns : Bool) → ℕ → ℕ
gain wait_body outside owns d = d + 1
gain wait_loop outside owns d = d + 1
gain release_body outside true d = d - 1
gain before after owns d = d

-- What one step of the current thread t does.
abbrev pub Moves : ℕ → Pc → Mutex → Option (Pc × Mutex × Memory) → Type 0
Moves t pc o none = Unit
Moves t pc o (some (p, n, m)) =
    Effect t o.owner_thread_id o.enter_counter n.owner_thread_id n.enter_counter
      (gain pc p (o.owner_thread_id == t))
    × LockEffect (inside pc) (inside p) o.lock n.lock

capture-Moves :
    (t : ℕ) (pc p : Pc) (o : Mutex) (m : Memory)
    → inside pc ≡ false
    → inside p ≡ true
    → ((b : Bool) (d : ℕ) → gain pc p b d ≡ d)
    → Moves t pc o (capture p o m)
unfolding capture slock_capture
capture-Moves t pc p o m a b g = elim (Bool-cases (o.lock == 0)) [
  | inl e ↦ rw (Moves, e) (keeps refl refl (g _), captures a b ((==_iff o.lock 0).0 e) refl)
  | inr e ↦ rw (Moves, e) tt
]

loop_test-Moves :
    (t : ℕ) (pc : Pc) (o : Mutex) (m : Memory)
    → inside pc ≡ true
    → t ≡ get_current_thread_id m.kernel
    → ((b : Bool) (d : ℕ) → gain pc outside b d ≡ d + 1)
    → ((b : Bool) (d : ℕ) → gain pc wait_queue b d ≡ d)
    → Moves t pc o (some (loop_test o m))
unfolding loop_test
loop_test-Moves t pc o m a e g h = elim (Bool-cases (o.owner_thread_id == nobody)) [
  | inl q ↦
      rw (Moves, q)
        (takes ((==_iff o.owner_thread_id nobody).0 q) (sym e) refl (g _), releases a refl refl)
  | inr q ↦ rw (Moves, q) (keeps refl refl (h _), releases a refl refl)
]

wait_test-Moves :
    (t : ℕ) (o : Mutex) (m : Memory)
    → t ≡ get_current_thread_id m.kernel
    → Moves t wait_body o (some (wait_test o m))
unfolding wait_test
wait_test-Moves t o m e = elim (Bool-cases (o.owner_thread_id == get_current_thread_id m.kernel)) [
  | inl q ↦
      rw (Moves, q)
        (
          (let owns = (==_iff o.owner_thread_id (get_current_thread_id m.kernel)).0 q in
              enters (owns ∙ sym e) (owns ∙ sym e) refl (λ d. refl)),
          releases refl refl refl,
        )
  | inr q ↦ rw q (loop_test-Moves t wait_body o m refl e (λ b d. refl) (λ b d. refl))
]

release_test-Moves :
    (o : Mutex) (m : Memory)
    → Moves (get_current_thread_id m.kernel) release_body o (release_test o m)
unfolding release_test
release_test-Moves o m = elim (Bool-cases (o.owner_thread_id == get_current_thread_id m.kernel)) [
  | inl q ↦ elim (Bool-cases (sub32 o.enter_counter 1 == 0)) [
    | inl z ↦ elim (Option-cases (on_queue wake_queued_thread o.threads_queue m)) [
      | inl n ↦ rw (Moves, q, z, n) tt
      | inr (a, n) ↦
          rw (Moves, q, z, n)
            (
              frees ((==_iff o.owner_thread_id (get_current_thread_id m.kernel)).0 q) refl refl
                  ((==_iff (sub32 o.enter_counter 1) 0).0 z) (λ d. rw q refl),
              releases refl refl refl,
            )
    ]
    | inr z ↦
        rw (Moves, q, z)
          (
            leaves ((==_iff o.owner_thread_id (get_current_thread_id m.kernel)).0 q)
                ((==_iff o.owner_thread_id (get_current_thread_id m.kernel)).0 q) refl
                (λ b. ground (arith, z, b)) (λ d. rw q refl),
            releases refl refl refl,
          )
  ]
  | inr q ↦ rw (Moves, q) (keeps refl refl (λ d. rw q refl), releases refl refl refl)
]

block-Moves : (t entry : ℕ) (o : Mutex) (m : Memory) → Moves t wait_queue o (block entry o m)
unfolding block
block-Moves t entry o m =
    elim (Option-cases (on_queue (queue_waiting_thread entry) o.threads_queue m)) [
      | inl e ↦ rw (Moves, e) tt
      | inr (a, e) ↦ rw (Moves, e) (keeps refl refl (λ d. refl), passes refl refl refl)
    ]

pub advance-Moves :
    (t entry : ℕ) (pc : Pc) (o : Mutex) (m : Memory)
    → t ≡ get_current_thread_id m.kernel
    → Moves t pc o (advance entry pc o m)
unfolding advance
advance-Moves t entry outside o m e = tt
advance-Moves t entry wait_capture o m e =
    capture-Moves t wait_capture _ o m refl refl (λ b d. refl)
advance-Moves t entry wait_body o m e = wait_test-Moves t o m e
advance-Moves t entry wait_queue o m e = block-Moves t entry o m
advance-Moves t entry wait_recapture o m e =
    capture-Moves t wait_recapture _ o m refl refl (λ b d. refl)
advance-Moves t entry wait_loop o m e =
    loop_test-Moves t wait_loop o m refl e (λ b d. refl) (λ b d. refl)
advance-Moves t entry release_capture o m e =
    capture-Moves t release_capture _ o m refl refl (λ b d. refl)
advance-Moves t entry release_body o m e =
    subst (λ v. Moves v release_body o (release_test o m)) (sym e) (release_test-Moves o m)

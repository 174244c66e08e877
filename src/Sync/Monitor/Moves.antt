-- ===== src/Sync/Monitor/Moves.antt =====
-- src/arch/ia32/monitor.c: what each step of a thread does to the owner, the counter and the lock.
use test_kernel.Base.{
  ℕ, ◌+◌, ◌-◌, ◌≡◌, refl, sym, subst, Bool, true, false, Option, none, some, arith, ◌==◌, ==_iff,
  ◌&&◌, ◌||◌, not, sub32, if◌then◌else◌, Option-cases, Bool-cases, inl, inr,
}
use test_kernel.Threads.{get_current_thread_id, slock_capture}
use test_kernel.Threads.Queue.{queue_waiting_thread, wake_queued_thread}
use test_kernel.Sync.{Memory, nobody, on_queue}
use test_kernel.Sync.Ownership.{
  Effect, keeps, enters, takes, leaves, frees, LockEffect, captures, releases, passes,
}
use test_kernel.Sync.Monitor.{
  Monitor, Pc, outside, capture_enter, capture_body, release_queue, release_recapture, capture_loop,
  release_enter, release_body, wait_enter, wait_body, pulse_queue, pulse_recapture, pulse_test,
  notify_enter, notify_body, notify_all_enter, notify_all_body, advance, lock_capture, lock_release,
  release_impl, enter, capture_test, capture_impl, wait_start, wait_again, pulse, block_release,
  block_pulse,
}

-- Inside a critical section of `mon->lock`.
abbrev pub inside : Pc → Bool
inside capture_body = true
inside capture_loop = true
inside release_body = true
inside wait_body = true
inside pulse_test = true
inside notify_body = true
inside notify_all_body = true
inside _ = false

-- The new depth: a `capture` that returns enters, a `release` leaves, and so does a `wait` that
-- goes to sleep, where they are the owner's; a `wait` that returns from its loop enters.
abbrev pub gain : Pc → Pc → (owns : Bool) → ℕ → ℕ
gain capture_body outside owns d = d + 1
gain capture_loop outside owns d = d + 1
gain pulse_test outside owns d = d + 1
gain release_body outside true d = d - 1
gain wait_body pulse_queue true d = d - 1
gain pulse_test pulse_queue true d = d - 1
gain before after owns d = d

-- What one step of the current thread does, to the owner and to the lock.
abbrev pub Owns : ℕ → (ℕ → ℕ) → Monitor → Monitor → Type 0
Owns t g o n = Effect t o.owner_thread_id o.enter_counter n.owner_thread_id n.enter_counter g

abbrev pub Moves : ℕ → Pc → Monitor → Option (Pc × Monitor × Memory) → Type 0
Moves t pc o none = Unit
Moves t pc o (some (p, n, m)) =
    Owns t (gain pc p (o.owner_thread_id == t)) o n
    × LockEffect (inside pc) (inside p) o.lock n.lock

lock_capture-Moves :
    (t : ℕ) (pc p : Pc) (o : Monitor) (m : Memory)
    → inside pc ≡ false
    → inside p ≡ true
    → ((b : Bool) (d : ℕ) → gain pc p b d ≡ d)
    → Moves t pc o (lock_capture p o m)
unfolding lock_capture slock_capture
lock_capture-Moves t pc p o m a b g = elim (Bool-cases (o.lock == 0)) [
  | inl e ↦ rw (Moves, e) (keeps refl refl (g _), captures a b ((==_iff o.lock 0).0 e) refl)
  | inr e ↦ rw (Moves, e) tt
]

-- `releaseImpl` and the release of the lock, from pc on to p.
release_impl-Moves :
    (pc p : Pc) (o : Monitor) (m : Memory)
    → inside pc ≡ true
    → inside p ≡ false
    → ((d : ℕ) → gain pc p true d ≡ d - 1)
    → ((d : ℕ) → gain pc p false d ≡ d)
    → Moves (get_current_thread_id m.kernel) pc o (lock_release p (release_impl o m))
unfolding release_impl lock_release
release_impl-Moves pc p o m a b g h =
    elim (Bool-cases (o.owner_thread_id == get_current_thread_id m.kernel)) [
      | inl q ↦ elim (Bool-cases (sub32 o.enter_counter 1 == 0)) [
        | inl z ↦ elim (Option-cases (on_queue wake_queued_thread o.threads_queue_release m)) [
          | inl n ↦ rw (Moves, q, z, n) tt
          | inr (v, n) ↦
              rw (Moves, q, z, n)
                (
                  frees ((==_iff o.owner_thread_id (get_current_thread_id m.kernel)).0 q) refl refl
                      ((==_iff (sub32 o.enter_counter 1) 0).0 z) (λ d. rw q (g d)),
                  releases a b refl,
                )
        ]
        | inr z ↦
            rw (Moves, q, z)
              (
                leaves ((==_iff o.owner_thread_id (get_current_thread_id m.kernel)).0 q)
                    ((==_iff o.owner_thread_id (get_current_thread_id m.kernel)).0 q) refl
                    (λ c. ground (arith, z, c)) (λ d. rw q (g d)),
                releases a b refl,
              )
      ]
      | inr q ↦ rw (Moves, q) (keeps refl refl (λ d. rw q (h d)), releases a b refl)
    ]

capture_test-Moves :
    (pc : Pc) (o : Monitor) (m : Memory)
    → inside pc ≡ true
    → ((b : Bool) (d : ℕ) → gain pc outside b d ≡ d + 1)
    → ((b : Bool) (d : ℕ) → gain pc release_queue b d ≡ d)
    → Moves (get_current_thread_id m.kernel) pc o (capture_test o m)
unfolding capture_test lock_release enter
capture_test-Moves pc o m a g h = elim (Bool-cases (o.owner_thread_id == nobody)) [
  | inl q ↦
      rw (Moves, q)
        (takes ((==_iff o.owner_thread_id nobody).0 q) refl refl (g _), releases a refl refl)
  | inr q ↦ rw (Moves, q) (keeps refl refl (h _), releases a refl refl)
]

capture_impl-Moves :
    (pc : Pc) (o : Monitor) (m : Memory)
    → inside pc ≡ true
    → ((b : Bool) (d : ℕ) → gain pc outside b d ≡ d + 1)
    → ((b : Bool) (d : ℕ) → gain pc release_queue b d ≡ d)
    → Moves (get_current_thread_id m.kernel) pc o (capture_impl o m)
unfolding capture_impl lock_release
capture_impl-Moves pc o m a g h =
    elim (Bool-cases (o.owner_thread_id == get_current_thread_id m.kernel)) [
      | inl q ↦
          rw (Moves, q)
            (
              enters ((==_iff o.owner_thread_id (get_current_thread_id m.kernel)).0 q)
                  ((==_iff o.owner_thread_id (get_current_thread_id m.kernel)).0 q) refl
                  (λ d. g _ d),
              releases a refl refl,
            )
      | inr q ↦ rw q (capture_test-Moves pc o m a g h)
    ]

wait_start-Moves :
    (o : Monitor) (m : Memory) → Moves (get_current_thread_id m.kernel) wait_body o (wait_start o m)
unfolding wait_start lock_release
wait_start-Moves o m = elim (Bool-cases (o.owner_thread_id == get_current_thread_id m.kernel)) [
  | inl q ↦
      subst
        (λ b. Moves (get_current_thread_id m.kernel) wait_body o (
          if b
          then lock_release pulse_queue (release_impl o m)
          else lock_release outside (some (o, m))))
        (sym q) (release_impl-Moves wait_body pulse_queue o m refl refl (λ d. refl) (λ d. refl))
  | inr q ↦ rw (Moves, q) (keeps refl refl (λ d. refl), releases refl refl refl)
]

wait_again-Moves :
    (o : Monitor) (m : Memory)
    → Moves (get_current_thread_id m.kernel) pulse_test o (wait_again o m)
unfolding wait_again
wait_again-Moves o m =
    elim (Bool-cases (o.is_multi_pulse || (o.is_pulse_handled && not o.is_multi_pulse))) [
      | inl q ↦
          rw q (release_impl-Moves pulse_test pulse_queue o m refl refl (λ d. refl) (λ d. refl))
      | inr q ↦ rw q (
          capture_impl-Moves pulse_test (record o { is_pulse_handled = true }) m refl (λ b d. refl)
            (λ b d. refl))
    ]

pulse-Moves :
    (t : ℕ) (pc : Pc) (b : Bool) (o : Monitor) (m : Memory)
    → inside pc ≡ true
    → ((c : Bool) (d : ℕ) → gain pc outside c d ≡ d)
    → Moves t pc o (pulse b o m)
unfolding pulse lock_release
pulse-Moves t pc b o m a g =
    elim (Option-cases (on_queue wake_queued_thread o.threads_queue_pulse m)) [
      | inl e ↦ rw (Moves, e) tt
      | inr (v, e) ↦ rw (Moves, e) (keeps refl refl (g _), releases a refl refl)
    ]

block_release-Moves :
    (t entry : ℕ) (o : Monitor) (m : Memory) → Moves t release_queue o (block_release entry o m)
unfolding block_release
block_release-Moves t entry o m =
    elim (Option-cases (on_queue (queue_waiting_thread entry) o.threads_queue_release m)) [
      | inl e ↦ rw (Moves, e) tt
      | inr (v, e) ↦ rw (Moves, e) (keeps refl refl (λ d. refl), passes refl refl refl)
    ]

block_pulse-Moves :
    (t entry : ℕ) (o : Monitor) (m : Memory) → Moves t pulse_queue o (block_pulse entry o m)
unfolding block_pulse
block_pulse-Moves t entry o m =
    elim (Option-cases (on_queue (queue_waiting_thread entry) o.threads_queue_pulse m)) [
      | inl e ↦ rw (Moves, e) tt
      | inr (v, e) ↦ rw (Moves, e) (keeps refl refl (λ d. refl), passes refl refl refl)
    ]

pub advance-Moves :
    (entry : ℕ) (pc : Pc) (o : Monitor) (m : Memory)
    → Moves (get_current_thread_id m.kernel) pc o (advance entry pc o m)
unfolding advance
advance-Moves entry outside o m = tt
advance-Moves entry capture_enter o m =
    lock_capture-Moves _ capture_enter capture_body o m refl refl (λ b d. refl)
advance-Moves entry capture_body o m =
    capture_impl-Moves capture_body o m refl (λ b d. refl) (λ b d. refl)
advance-Moves entry release_queue o m = block_release-Moves _ entry o m
advance-Moves entry release_recapture o m =
    lock_capture-Moves _ release_recapture capture_loop o m refl refl (λ b d. refl)
advance-Moves entry capture_loop o m =
    capture_test-Moves capture_loop o m refl (λ b d. refl) (λ b d. refl)
advance-Moves entry release_enter o m =
    lock_capture-Moves _ release_enter release_body o m refl refl (λ b d. refl)
advance-Moves entry release_body o m =
    release_impl-Moves release_body outside o m refl refl (λ d. refl) (λ d. refl)
advance-Moves entry wait_enter o m =
    lock_capture-Moves _ wait_enter wait_body o m refl refl (λ b d. refl)
advance-Moves entry wait_body o m = wait_start-Moves o m
advance-Moves entry pulse_queue o m = block_pulse-Moves _ entry o m
advance-Moves entry pulse_recapture o m =
    lock_capture-Moves _ pulse_recapture pulse_test o m refl refl (λ b d. refl)
advance-Moves entry pulse_test o m = wait_again-Moves o m
advance-Moves entry notify_enter o m =
    lock_capture-Moves _ notify_enter notify_body o m refl refl (λ b d. refl)
advance-Moves entry notify_body o m = pulse-Moves _ notify_body false o m refl (λ b d. refl)
advance-Moves entry notify_all_enter o m =
    lock_capture-Moves _ notify_all_enter notify_all_body o m refl refl (λ b d. refl)
advance-Moves entry notify_all_body o m = pulse-Moves _ notify_all_body true o m refl (λ b d. refl)

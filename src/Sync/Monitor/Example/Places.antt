-- ===== src/Sync/Monitor/Example/Places.antt =====
-- TestKernel1/src/arch/ia32/monitor.c: the places of a thread in each method, and how often it
-- has entered.
use test_kernel.Base.{
  ℕ, ◌≡◌, ◌≢◌, ◌⊎◌, inl, inr, refl, arith, Bool, true, false, none, some, Option, Option-cases,
  Bool-cases, ◌==◌, not, ◌&&◌, ◌||◌,
}
use test_kernel.Sync.{Memory, nobody, on_queue}
use test_kernel.Sync.Monitor.Moves.{gain}
use test_kernel.Threads.{get_current_thread_id, slock_capture}
use test_kernel.Threads.Queue.{queue_waiting_thread, wake_queued_thread}
use test_kernel.Sync.Monitor.{
  Monitor, Pc, outside, capture_enter, capture_body, release_queue, release_recapture, capture_loop,
  release_enter, release_body, wait_enter, wait_body, pulse_queue, pulse_recapture, pulse_test,
  notify_enter, notify_body, notify_all_enter, notify_all_body, advance, lock_capture, lock_release,
  release_impl, capture_test, capture_impl, wait_start, wait_again, pulse, block_release,
  block_pulse,
}

-- Where a step of the monitor leads.
abbrev pub IsNext : Pc → Pc → Type 0
IsNext outside p = ⊥
IsNext capture_enter p = p ≡ capture_body
IsNext capture_body p = (p ≡ outside) ⊎ (p ≡ release_queue)
IsNext release_queue p = p ≡ release_recapture
IsNext release_recapture p = p ≡ capture_loop
IsNext capture_loop p = (p ≡ outside) ⊎ (p ≡ release_queue)
IsNext release_enter p = p ≡ release_body
IsNext release_body p = p ≡ outside
IsNext wait_enter p = p ≡ wait_body
IsNext wait_body p = (p ≡ outside) ⊎ (p ≡ pulse_queue)
IsNext pulse_queue p = p ≡ pulse_recapture
IsNext pulse_recapture p = p ≡ pulse_test
IsNext pulse_test p = (p ≡ outside) ⊎ ((p ≡ pulse_queue) ⊎ (p ≡ release_queue))
IsNext notify_enter p = p ≡ notify_body
IsNext notify_body p = p ≡ outside
IsNext notify_all_enter p = p ≡ notify_all_body
IsNext notify_all_body p = p ≡ outside

abbrev pub Leads : Pc → Option (Pc × Monitor × Memory) → Type 0
Leads pc none = Unit
Leads pc (some (p, o, m)) = IsNext pc p

lock_capture-Leads :
    (pc next : Pc) (o : Monitor) (m : Memory) → IsNext pc next → Leads pc (lock_capture next o m)
unfolding lock_capture slock_capture
lock_capture-Leads pc next o m e = elim (Bool-cases (o.lock == 0)) [
  | inl free ↦ rw (Leads, free) e
  | inr taken ↦ rw (Leads, taken) tt
]

lock_release-Leads :
    (pc next : Pc) (r : Option (Monitor × Memory)) → IsNext pc next → Leads pc (lock_release next r)
unfolding lock_release
lock_release-Leads pc next none e = tt
lock_release-Leads pc next (some (o, m)) e = e

capture_test-Leads :
    (pc : Pc) (o : Monitor) (m : Memory)
    → IsNext pc outside
    → IsNext pc release_queue
    → Leads pc (capture_test o m)
unfolding capture_test lock_release
capture_test-Leads pc o m out queue = elim (Bool-cases (o.owner_thread_id == nobody)) [
  | inl free ↦ rw (Leads, free) out
  | inr owned ↦ rw (Leads, owned) queue
]

capture_impl-Leads :
    (pc : Pc) (o : Monitor) (m : Memory)
    → IsNext pc outside
    → IsNext pc release_queue
    → Leads pc (capture_impl o m)
unfolding capture_impl lock_release
capture_impl-Leads pc o m out queue =
    elim (Bool-cases (o.owner_thread_id == get_current_thread_id m.kernel)) [
      | inl own ↦ rw own out
      | inr other ↦ rw other (capture_test-Leads pc o m out queue)
    ]

wait_start-Leads : (o : Monitor) (m : Memory) → Leads wait_body (wait_start o m)
unfolding wait_start
wait_start-Leads o m = elim (Bool-cases (o.owner_thread_id == get_current_thread_id m.kernel)) [
  | inl own ↦ rw own (lock_release-Leads wait_body pulse_queue _ (inr refl))
  | inr other ↦ rw other (lock_release-Leads wait_body outside (some (o, m)) (inl refl))
]

wait_again-Leads : (o : Monitor) (m : Memory) → Leads pulse_test (wait_again o m)
unfolding wait_again
wait_again-Leads o m =
    elim (Bool-cases (o.is_multi_pulse || (o.is_pulse_handled && not o.is_multi_pulse))) [
      | inl again ↦
          rw again (lock_release-Leads pulse_test pulse_queue (release_impl o m) (inr (inl refl)))
      | inr pulsed ↦ rw pulsed (
          capture_impl-Leads pulse_test (record o { is_pulse_handled = true }) m (inl refl)
            (inr (inr refl)))
    ]

pulse-Leads :
    (pc : Pc) (b : Bool) (o : Monitor) (m : Memory) → IsNext pc outside → Leads pc (pulse b o m)
unfolding pulse lock_release
pulse-Leads pc b o m e = elim (Option-cases (on_queue wake_queued_thread o.threads_queue_pulse m)) [
  | inl lost ↦ rw (Leads, lost) tt
  | inr (r, q) ↦ rw (Leads, q) e
]

block_release-Leads :
    (entry : ℕ) (o : Monitor) (m : Memory) → Leads release_queue (block_release entry o m)
unfolding block_release
block_release-Leads entry o m =
    elim (Option-cases (on_queue (queue_waiting_thread entry) o.threads_queue_release m)) [
      | inl lost ↦ rw (Leads, lost) tt
      | inr (r, e) ↦ rw (Leads, e) refl
    ]

block_pulse-Leads :
    (entry : ℕ) (o : Monitor) (m : Memory) → Leads pulse_queue (block_pulse entry o m)
unfolding block_pulse
block_pulse-Leads entry o m =
    elim (Option-cases (on_queue (queue_waiting_thread entry) o.threads_queue_pulse m)) [
      | inl lost ↦ rw (Leads, lost) tt
      | inr (r, e) ↦ rw (Leads, e) refl
    ]

pub advance-Leads :
    (entry : ℕ) (pc : Pc) (o : Monitor) (m : Memory) → Leads pc (advance entry pc o m)
unfolding advance
advance-Leads entry outside o m = tt
advance-Leads entry capture_enter o m = lock_capture-Leads capture_enter capture_body o m refl
advance-Leads entry capture_body o m = capture_impl-Leads capture_body o m (inl refl) (inr refl)
advance-Leads entry release_queue o m = block_release-Leads entry o m
advance-Leads entry release_recapture o m =
    lock_capture-Leads release_recapture capture_loop o m refl
advance-Leads entry capture_loop o m = capture_test-Leads capture_loop o m (inl refl) (inr refl)
advance-Leads entry release_enter o m = lock_capture-Leads release_enter release_body o m refl
advance-Leads entry release_body o m =
    lock_release-Leads release_body outside (release_impl o m) refl
advance-Leads entry wait_enter o m = lock_capture-Leads wait_enter wait_body o m refl
advance-Leads entry wait_body o m = wait_start-Leads o m
advance-Leads entry pulse_queue o m = block_pulse-Leads entry o m
advance-Leads entry pulse_recapture o m = lock_capture-Leads pulse_recapture pulse_test o m refl
advance-Leads entry pulse_test o m = wait_again-Leads o m
advance-Leads entry notify_enter o m = lock_capture-Leads notify_enter notify_body o m refl
advance-Leads entry notify_body o m = pulse-Leads notify_body false o m refl
advance-Leads entry notify_all_enter o m =
    lock_capture-Leads notify_all_enter notify_all_body o m refl
advance-Leads entry notify_all_body o m = pulse-Leads notify_all_body true o m refl

-- In each method, with how often the thread has entered.
abbrev pub InCapture : Pc → ℕ → Type 0
InCapture outside d = d ≡ 1
InCapture capture_enter d = d ≡ 0
InCapture capture_body d = d ≡ 0
InCapture release_queue d = d ≡ 0
InCapture release_recapture d = d ≡ 0
InCapture capture_loop d = d ≡ 0
InCapture _ d = ⊥

abbrev pub InWait : Pc → ℕ → Type 0
InWait wait_enter d = d ≡ 1
InWait wait_body d = d ≡ 1
InWait pulse_queue d = d ≡ 0
InWait pulse_recapture d = d ≡ 0
InWait pulse_test d = d ≡ 0
InWait pc d = InCapture pc d

abbrev pub InNotify : Pc → ℕ → Type 0
InNotify outside d = d ≡ 1
InNotify notify_enter d = d ≡ 1
InNotify notify_body d = d ≡ 1
InNotify _ d = ⊥

abbrev pub InRelease : Pc → ℕ → Type 0
InRelease outside d = d ≡ 0
InRelease release_enter d = d ≡ 1
InRelease release_body d = d ≡ 1
InRelease _ d = ⊥

-- A step keeps that, where a thread that has entered is the owner.
pub capture-kept :
    (pc p : Pc) (owns : Bool) (d : ℕ)
    → IsNext pc p
    → InCapture pc d
    → InCapture p (gain pc p owns d)
capture-kept outside p owns d next w = absurd next
capture-kept capture_enter p owns d next w = rw next w
capture-kept capture_body p owns d (inl e) w = rw e (omega (arith, w))
capture-kept capture_body p owns d (inr e) w = rw e w
capture-kept release_queue p owns d next w = rw next w
capture-kept release_recapture p owns d next w = rw next w
capture-kept capture_loop p owns d (inl e) w = rw e (omega (arith, w))
capture-kept capture_loop p owns d (inr e) w = rw e w
capture-kept _ p owns d next w = absurd w

pub wait-kept :
    (pc p : Pc) (owns : Bool) (d : ℕ)
    → IsNext pc p
    → (d ≢ 0 → owns ≡ true)
    → InWait pc d
    → InWait p (gain pc p owns d)
wait-kept outside p owns d next own w = absurd next
wait-kept wait_enter p owns d next own w = rw next w
wait-kept wait_body p owns d (inl e) own w = rw e w
wait-kept wait_body p owns d (inr e) own w =
    rw (e, own (λ z. absurd (omega (arith, w, z)))) (omega (arith, w))
wait-kept pulse_queue p owns d next own w = rw next w
wait-kept pulse_recapture p owns d next own w = rw next w
wait-kept pulse_test p owns d (inl e) own w = rw e (omega (arith, w))
wait-kept pulse_test p owns d (inr (inr e)) own w = rw e w
wait-kept pulse_test p true d (inr (inl e)) own w = rw e (omega (arith, w))
wait-kept pulse_test p false d (inr (inl e)) own w = rw e w
wait-kept capture_enter p owns d next own w = rw next w
wait-kept capture_body p owns d (inl e) own w = rw e (omega (arith, w))
wait-kept capture_body p owns d (inr e) own w = rw e w
wait-kept release_queue p owns d next own w = rw next w
wait-kept release_recapture p owns d next own w = rw next w
wait-kept capture_loop p owns d (inl e) own w = rw e (omega (arith, w))
wait-kept capture_loop p owns d (inr e) own w = rw e w
wait-kept _ p owns d next own w = absurd w

pub notify-kept :
    (pc p : Pc) (owns : Bool) (d : ℕ) → IsNext pc p → InNotify pc d → InNotify p (gain pc p owns d)
notify-kept outside p owns d next w = absurd next
notify-kept notify_enter p owns d next w = rw next w
notify-kept notify_body p owns d next w = rw next w
notify-kept _ p owns d next w = absurd w

pub release-kept :
    (pc p : Pc) (owns : Bool) (d : ℕ)
    → IsNext pc p
    → (d ≢ 0 → owns ≡ true)
    → InRelease pc d
    → InRelease p (gain pc p owns d)
release-kept outside p owns d next own w = absurd next
release-kept release_enter p owns d next own w = rw next w
release-kept release_body p owns d next own w =
    rw (next, own (λ z. absurd (omega (arith, w, z)))) (omega (arith, w))
release-kept _ p owns d next own w = absurd w

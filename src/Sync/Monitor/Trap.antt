-- ===== src/Sync/Monitor/Trap.antt =====
-- src/arch/ia32/monitor.c: no thread leaves `wait` after a `notifyAll`, until a `notify` follows.
use test_kernel.Base.{
  ℕ, ◌≡◌, ◌≢◌, refl, sym, ap, ◌∙◌, subst, Bool, true, false, Option, none, some, arith,
  update_cases, Option-cases, Bool-cases, ◌==◌, inl, inr, ◌||◌, ◌&&◌, not, if◌then◌else◌, sub32,
}
use test_kernel.Threads.{get_current_thread_id, slock_capture}
use test_kernel.Threads.Queue.{queue_waiting_thread, wake_queued_thread}
use test_kernel.Sync.{Memory, on_queue}
use test_kernel.Sync.Monitor.{
  Monitor, Pc, outside, capture_enter, capture_body, release_queue, release_recapture, capture_loop,
  release_enter, release_body, wait_enter, wait_body, pulse_queue, pulse_recapture, pulse_test,
  notify_enter, notify_body, notify_all_enter, notify_all_body, advance, lock_capture, lock_release,
  release_impl, enter, capture_test, capture_impl, wait_start, wait_again, pulse, block_release,
  block_pulse,
}
use test_kernel.Sync.Monitor.Exclusion.{System, Step, call, moves, others, current}

-- In the loop of `wait`, behind its first pass.
abbrev pub is_waiting : Pc → Bool
is_waiting pulse_queue = true
is_waiting pulse_recapture = true
is_waiting pulse_test = true
is_waiting _ = false

-- Steps of which none is the body of a `notify`.
pub data Quietly : System → System → Type 0 where
  stay : {s : System} → Quietly s s
  step : {s n k : System} → s.pcs (current s) ≢ notify_body → Step s n → Quietly n k → Quietly s k

-- The flag stays set, and a thread in the loop stays in it.
abbrev Traps : Pc → Option (Pc × Monitor × Memory) → Type 0
Traps pc none = Unit
Traps pc (some (p, mon, m)) =
    (mon.is_multi_pulse ≡ true) × (is_waiting pc ≡ true → is_waiting p ≡ true)

lock_capture-Traps :
    (pc p : Pc) (o : Monitor) (m : Memory)
    → o.is_multi_pulse ≡ true
    → (is_waiting pc ≡ true → is_waiting p ≡ true)
    → Traps pc (lock_capture p o m)
unfolding lock_capture slock_capture
lock_capture-Traps pc p o m a g = elim (Bool-cases (o.lock == 0)) [
  | inl e ↦ rw (Traps, e) (a, g)
  | inr e ↦ rw (Traps, e) tt
]

release_impl-Traps :
    (pc p : Pc) (o : Monitor) (m : Memory)
    → o.is_multi_pulse ≡ true
    → (is_waiting pc ≡ true → is_waiting p ≡ true)
    → Traps pc (lock_release p (release_impl o m))
unfolding release_impl lock_release
release_impl-Traps pc p o m a g =
    elim (Bool-cases (o.owner_thread_id == get_current_thread_id m.kernel)) [
      | inl q ↦ elim (Bool-cases (sub32 o.enter_counter 1 == 0)) [
        | inl z ↦ elim (Option-cases (on_queue wake_queued_thread o.threads_queue_release m)) [
          | inl n ↦ rw (Traps, q, z, n) tt
          | inr (v, n) ↦ rw (Traps, q, z, n) (a, g)
        ]
        | inr z ↦ rw (Traps, q, z) (a, g)
      ]
      | inr q ↦ rw (Traps, q) (a, g)
    ]

capture_test-Traps :
    (pc : Pc) (o : Monitor) (m : Memory)
    → o.is_multi_pulse ≡ true
    → is_waiting pc ≡ false
    → Traps pc (capture_test o m)
unfolding capture_test lock_release enter
capture_test-Traps pc o m a g = elim (Bool-cases (o.owner_thread_id == 4294967295)) [
  | inl q ↦ rw (Traps, q) (a, λ h. ground arith)
  | inr q ↦ rw (Traps, q) (a, λ h. ground arith)
]

capture_impl-Traps :
    (o : Monitor) (m : Memory) → o.is_multi_pulse ≡ true → Traps capture_body (capture_impl o m)
unfolding capture_impl lock_release
capture_impl-Traps o m a = elim (Bool-cases (o.owner_thread_id == get_current_thread_id m.kernel)) [
  | inl q ↦ rw (Traps, q) (a, λ h. ground arith)
  | inr q ↦ rw q (capture_test-Traps capture_body o m a refl)
]

wait_start-Traps :
    (o : Monitor) (m : Memory) → o.is_multi_pulse ≡ true → Traps wait_body (wait_start o m)
unfolding wait_start lock_release
wait_start-Traps o m a = elim (Bool-cases (o.owner_thread_id == get_current_thread_id m.kernel)) [
  | inl q ↦
      subst
        (λ b. Traps wait_body (
          if b
          then lock_release pulse_queue (release_impl o m)
          else lock_release outside (some (o, m))))
        (sym q) (release_impl-Traps wait_body pulse_queue o m a (λ h. refl))
  | inr q ↦ rw (Traps, q) (a, λ h. ground arith)
]

wait_again-Traps :
    (o : Monitor) (m : Memory) → o.is_multi_pulse ≡ true → Traps pulse_test (wait_again o m)
unfolding wait_again
wait_again-Traps o m a =
    let again : (o.is_multi_pulse || (o.is_pulse_handled && not o.is_multi_pulse)) ≡ true =
      rw a refl in
    rw again (release_impl-Traps pulse_test pulse_queue o m a (λ h. refl))

pulse-Traps : (o : Monitor) (m : Memory) → Traps notify_all_body (pulse true o m)
unfolding pulse lock_release
pulse-Traps o m = elim (Option-cases (on_queue wake_queued_thread o.threads_queue_pulse m)) [
  | inl e ↦ rw (Traps, e) tt
  | inr (v, e) ↦ rw (Traps, e) (refl, λ h. ground arith)
]

block_release-Traps :
    (entry : ℕ) (o : Monitor) (m : Memory)
    → o.is_multi_pulse ≡ true
    → Traps release_queue (block_release entry o m)
unfolding block_release
block_release-Traps entry o m a =
    elim (Option-cases (on_queue (queue_waiting_thread entry) o.threads_queue_release m)) [
      | inl e ↦ rw (Traps, e) tt
      | inr (v, e) ↦ rw (Traps, e) (a, λ h. ground arith)
    ]

block_pulse-Traps :
    (entry : ℕ) (o : Monitor) (m : Memory)
    → o.is_multi_pulse ≡ true
    → Traps pulse_queue (block_pulse entry o m)
unfolding block_pulse
block_pulse-Traps entry o m a =
    elim (Option-cases (on_queue (queue_waiting_thread entry) o.threads_queue_pulse m)) [
      | inl e ↦ rw (Traps, e) tt
      | inr (v, e) ↦ rw (Traps, e) (a, λ h. refl)
    ]

advance-Traps :
    (entry : ℕ) (pc : Pc) (o : Monitor) (m : Memory)
    → pc ≢ notify_body
    → o.is_multi_pulse ≡ true
    → Traps pc (advance entry pc o m)
unfolding advance
advance-Traps entry outside o m ne a = tt
advance-Traps entry capture_enter o m ne a =
    lock_capture-Traps capture_enter _ o m a (λ h. ground arith)
advance-Traps entry capture_body o m ne a = capture_impl-Traps o m a
advance-Traps entry release_queue o m ne a = block_release-Traps entry o m a
advance-Traps entry release_recapture o m ne a =
    lock_capture-Traps release_recapture _ o m a (λ h. ground arith)
advance-Traps entry capture_loop o m ne a = capture_test-Traps capture_loop o m a refl
advance-Traps entry release_enter o m ne a =
    lock_capture-Traps release_enter _ o m a (λ h. ground arith)
advance-Traps entry release_body o m ne a =
    release_impl-Traps release_body outside o m a (λ h. ground arith)
advance-Traps entry wait_enter o m ne a = lock_capture-Traps wait_enter _ o m a (λ h. ground arith)
advance-Traps entry wait_body o m ne a = wait_start-Traps o m a
advance-Traps entry pulse_queue o m ne a = block_pulse-Traps entry o m a
advance-Traps entry pulse_recapture o m ne a =
    lock_capture-Traps pulse_recapture _ o m a (λ h. refl)
advance-Traps entry pulse_test o m ne a = wait_again-Traps o m a
advance-Traps entry notify_enter o m ne a =
    lock_capture-Traps notify_enter _ o m a (λ h. ground arith)
advance-Traps entry notify_body o m ne a = absurd (ne refl)
advance-Traps entry notify_all_enter o m ne a =
    lock_capture-Traps notify_all_enter _ o m a (λ h. ground arith)
advance-Traps entry notify_all_body o m ne a = pulse-Traps o m

Step-trapped :
    (t : ℕ) {s n : System}
    → Step s n
    → s.pcs (current s) ≢ notify_body
    → s.monitor.is_multi_pulse ≡ true
    → is_waiting (s.pcs t) ≡ true
    → (n.monitor.is_multi_pulse ≡ true) × (is_waiting (n.pcs t) ≡ true)
Step-trapped t {s} (call p c out) ne a h = (
  a,
  update_cases (λ q. is_waiting q ≡ true) s.pcs (current s) p t
      (λ e. absurd (ground (arith, ap is_waiting out, ap (λ u. is_waiting (s.pcs u)) e, h)))
      (λ e. h),
)
Step-trapped t {s} (moves entry p mon m went lt sm) ne a h =
    let (flag, stays) =
      subst (Traps (s.pcs (current s))) went
        (advance-Traps entry (s.pcs (current s)) s.monitor s.memory ne a) in
    (
      flag,
      update_cases (λ q. is_waiting q ≡ true) s.pcs (current s) p t
          (λ e. stays (ap (λ u. is_waiting (s.pcs u)) (sym e) ∙ h)) (λ e. h),
    )
Step-trapped t (others m q r) ne a h = (a, h)

-- Once a `notifyAll` has set `isMultiPulse`, then as long as no thread runs through the body of a
-- `notify` the flag stays set, and a thread in the loop of `wait` stays in it, whatever the
-- threads do.
pub notify_all-traps :
    (t : ℕ) {s n : System}
    → Quietly s n
    → s.monitor.is_multi_pulse ≡ true
    → is_waiting (s.pcs t) ≡ true
    → (n.monitor.is_multi_pulse ≡ true) × (is_waiting (n.pcs t) ≡ true)
notify_all-traps t stay a h = (a, h)
notify_all-traps t (step ne st rest) a h =
    let (b, g) = Step-trapped t st ne a h in notify_all-traps t rest b g

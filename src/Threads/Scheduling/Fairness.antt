-- ===== src/Threads/Scheduling/Fairness.antt =====
-- Round robin: a scheduled thread is reached within one turn of the table.
use test_kernel.Base.{
  ℕ, zero, suc, ◌+◌, ◌-◌, ◌%◌, ◌≤◌, ◌<◌, ◌≡◌, sym, ap, ◌∙◌, true, false, some, arith, inl, inr, ◌⊎◌,
}
use native.Mathlib.Nat.{mod-add-mod}
use native.Mathlib.Decide.{dec_lt}
use test_kernel.Threads.{Thread, Kernel, change_thread}
use test_kernel.Threads.Scheduling.{Switched, flags_kept, steps_to, switches, change_thread-ahead}

-- After `m` interrupts, at least one and at most `bound`, thread `i` runs.
pub record Reaches (regs : Kernel → ℕ) (bound : ℕ) (k : Kernel) (i : ℕ) : Type 0 where
  pub m : ℕ
  pub at_least_one : 0 < m
  pub at_most : m ≤ bound
  pub last : Kernel
  pub runs : switches regs m k ≡ some last
  pub current : last.curr_thread_index ≡ i

-- The thread that is wanted is `e - d` steps ahead of the new current one, and still scheduled.
record Closer (e i : ℕ) (n : Kernel) (d : ℕ) : Type 0 where
  less : d < e
  at : (n.curr_thread_index + (e - d)) % n.curr_threads_count ≡ i
  on : (n.threads i).is_under_sheduling ≡ true

module _ {regs r : ℕ} {k n : Kernel} (e i : ℕ) where
  still_on :
      (k.threads i).is_under_sheduling ≡ true
      → Switched regs k r n
      → (n.threads i).is_under_sheduling ≡ true
  still_on on sw =
      ap (λ (t : ℕ → Thread). (t i).is_under_sheduling) sw.stored ∙ flags_kept k regs i ∙ on

  after-switch :
      0 < e
      → (k.curr_thread_index + e) % k.curr_threads_count ≡ i
      → (k.threads i).is_under_sheduling ≡ true
      → (sw : Switched regs k r n) → (n.curr_thread_index ≡ i) ⊎ Closer e i n sw.next.distance
  after-switch pos at on sw = elim (dec_lt sw.next.distance e) [
    | yes near ↦ inr (record {
      less = near;
      at =
          rw (sw.same_count, ← sw.next.reached)
            (mod-add-mod (k.curr_thread_index + sw.next.distance) k.curr_threads_count
                (e - sw.next.distance)
              ∙ ap (λ (t : ℕ). t % k.curr_threads_count) (omega (arith, near))
              ∙ at);
      on = still_on on sw;
    })
    | no far ↦ inl (elim (dec_lt e sw.next.distance) [
      | yes over ↦
          let off : (n.threads i).is_under_sheduling ≡ false =
            rw (← at) (sw.next.skipped e pos over) in
          let still : (n.threads i).is_under_sheduling ≡ true = still_on on sw in cc
      | no same ↦
          sym sw.next.reached
          ∙ ap (λ (t : ℕ). (k.curr_thread_index + t) % k.curr_threads_count)
              (omega (arith, far, same))
          ∙ at
    ])
  ]

module _ (regs : Kernel → ℕ) where
  Reaches-later :
      {bound r i : ℕ} {k n : Kernel}
      → change_thread k.curr_threads_count (regs k) k ≡ some (r, n)
      → Reaches regs bound n i
      → Reaches regs (suc bound) k i
  unfolding switches
  Reaches-later e h = record {
    m = suc h.m;
    at_least_one = omega arith;
    at_most = omega (arith, h.at_most);
    last = h.last;
    runs = ground (arith, e, h.runs);
    current = h.current;
  }

  Reaches-now :
      {bound r i : ℕ} {k n : Kernel}
      → change_thread k.curr_threads_count (regs k) k ≡ some (r, n)
      → n.curr_thread_index ≡ i
      → Reaches regs (suc bound) k i
  unfolding switches
  Reaches-now {n} e h = record {
    m = 1;
    at_least_one = omega arith;
    at_most = omega arith;
    last = n;
    runs = ground (arith, e);
    current = h;
  }

  reach :
      (bound e : ℕ) (k : Kernel) (i : ℕ)
      → k.threading_enabled ≡ true
      → 0 < e
      → e ≤ bound
      → e ≤ k.curr_threads_count
      → (k.curr_thread_index + e) % k.curr_threads_count ≡ i
      → (k.threads i).is_under_sheduling ≡ true
      → Reaches regs bound k i
  reach zero e k i en pos le lc at on = absurd (omega arith)
  reach (suc bound) e k i en pos le lc at on =
      let (r, n, eq, sw) = change_thread-ahead (regs k) k en e pos lc (rw at on) in
      elim (after-switch e i pos at on sw) [
        | inl now ↦ Reaches-now eq now
        | inr later ↦ Reaches-later eq (
            reach bound (e - sw.next.distance) n i sw.still_enabled (omega (arith, later.less))
              (omega (arith, sw.next.positive)) (omega (arith, sw.same_count)) later.at later.on)
      ]

  -- While threading is enabled, a scheduled thread of the table runs after at most as many timer
  -- interrupts as there are threads, if nothing but the interrupts changes the table.
  pub no_starvation :
      (k : Kernel) (i : ℕ)
      → k.threading_enabled ≡ true
      → k.curr_thread_index < k.curr_threads_count
      → i < k.curr_threads_count
      → (k.threads i).is_under_sheduling ≡ true
      → Reaches regs k.curr_threads_count k i
  no_starvation k i en hc hi on =
      let (e, pos, le, at) = steps_to k.curr_threads_count k.curr_thread_index i hc hi in
      reach k.curr_threads_count e k i en pos le le at on

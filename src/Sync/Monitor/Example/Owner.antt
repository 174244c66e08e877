-- ===== src/Sync/Monitor/Example/Owner.antt =====
-- TestKernel1/src/arch/ia32/monitorExample.c: who reads and writes the value owns the monitor.

use test_kernel.Base.{
  ℕ, ◌≡◌, ◌≢◌, inl, inr, refl, sym, subst, ◌∙◌, arith, Bool, true, false, if◌then◌else◌, none, some,
  Option, List, Option-cases, ◌==◌, ==_iff, update,
}
use test_kernel.Boot.Console.{codes}
use test_kernel.Display.{Display}
use test_kernel.Mem.{Bytes}
use test_kernel.Threads.{create_thread, get_current_thread_id}
use test_kernel.Sync.{Memory}
use test_kernel.Sync.Stages.{AllAt, stage-AllAt, call-AllAt, step-AllAt}
use test_kernel.Sync.Monitor.Moves.{gain}
use test_kernel.Sync.Monitor.Exclusion
use test_kernel.Sync.Monitor.Exclusion.{System, moved, current, is_call, monitor-IsSound}
use test_kernel.Sync.Monitor.{
  Pc, outside, capture_enter, release_enter, wait_enter, notify_enter, notify_body, new_monitor,
}
use test_kernel.Sync.Monitor.Example.Places.{
  IsNext, Leads, advance-Leads, InCapture, InWait, InNotify, InRelease, capture-kept, wait-kept,
  notify-kept, release-kept,
}
use test_kernel.Sync.Monitor.Example.{
  Stage, absent, ready, capturing, holding, waiting, notifying, leaving, releasing, finished, Run,
  print, calls, goes_on, begin_capture, set_value, begin_release, finish, Step, captures, holds,
  waits, resumes, skips, sets, notified, leaves, finishes, moves, others, monitor_example, Reach,
  made, later,
}

-- How a thread's stage, its place in the monitor and its depth belong together.
abbrev At : Stage → Pc → ℕ → Type 0
At capturing pc d = InCapture pc d
At holding pc d = (pc ≡ outside) × (d ≡ 1)
At waiting pc d = InWait pc d
At notifying pc d = InNotify pc d
At leaving pc d = (pc ≡ outside) × (d ≡ 1)
At releasing pc d = InRelease pc d
At _ pc d = (pc ≡ outside) × (d ≡ 0)

move-At :
    (s : Stage) (pc p : Pc) (owns : Bool) (d : ℕ)
    → IsNext pc p
    → (d ≢ 0 → owns ≡ true)
    → At s pc d
    → At s p (gain pc p owns d)
move-At capturing pc p owns d next own at = capture-kept pc p owns d next at
move-At waiting pc p owns d next own at = wait-kept pc p owns d next own at
move-At notifying pc p owns d next own at = notify-kept pc p owns d next at
move-At releasing pc p owns d next own at = release-kept pc p owns d next own at
move-At _ pc p owns d next own (e, z) = absurd (subst (λ c. IsNext c p) e next)

-- The monitor has been reached by its own steps, and every thread is where its stage says.
record Fits (r : Run) : Type 0 where
  monitor : Exclusion.Reach r.system
  all : AllAt At r.stages r.system.pcs r.system.depths

-- The current thread calls a method, or goes on to another stage.
module _ (r : Run) (w : Fits r) (s s' : Stage) (e : r.stages (current r.system) ≡ s) where
  At-stage : At s (r.system.pcs (current r.system)) (r.system.depths (current r.system))
  At-stage =
      subst (λ x. At x (r.system.pcs (current r.system)) (r.system.depths (current r.system))) e
        (w.all (current r.system))

  goes_on-Fits :
      (shown : Display → Display)
      → At s' (r.system.pcs (current r.system)) (r.system.depths (current r.system))
      → Fits (goes_on s' shown r)
  unfolding goes_on
  goes_on-Fits shown at = record {
    monitor = w.monitor;
    all = stage-AllAt At r.stages r.system.pcs r.system.depths (current r.system) w.all s' at;
  }

  calls-Fits :
      (buff : ℕ) (bytes : Bytes) (str : List ℕ) (p : Pc)
      → is_call p ≡ true
      → r.system.pcs (current r.system) ≡ outside
      → At s' p (r.system.depths (current r.system))
      → Fits (calls buff bytes str s' p r)
  unfolding calls
  calls-Fits buff bytes str p c out at = record {
    monitor = Exclusion.later w.monitor (Exclusion.call p c out);
    all = call-AllAt At r.stages r.system.pcs r.system.depths (current r.system) w.all s' p at;
  }

-- Behind the return of a method.
returned-At : (P : Pc → ℕ → Type 0) (pc : Pc) (d : ℕ) → pc ≡ outside → P pc d → P outside d
returned-At P pc d out at = subst (λ p. P p d) out at

Step-Fits : {r s : Run} → Step r s → Fits r → Fits s
unfolding begin_capture set_value begin_release finish calls
Step-Fits {r} (captures buff stack e) w =
    let (out, z) = At-stage r w ready capturing e in
    calls-Fits r w ready capturing e buff stack _ capture_enter refl out z
Step-Fits {r} (holds e out) w =
    goes_on-Fits r w capturing holding e (λ d. d)
      (out, returned-At InCapture _ _ out (At-stage r w capturing holding e))
Step-Fits {r} (waits buff stack e ne z) w =
    let (out, one) = At-stage r w holding waiting e in
    calls-Fits r w holding waiting e buff stack _ wait_enter refl out one
Step-Fits {r} (resumes buff stack e out) w =
    goes_on-Fits r w waiting leaving e
      (print (current r.system) buff stack (codes "own:: Running again\n"))
      (out, returned-At InWait _ _ out (At-stage r w waiting leaving e))
Step-Fits {r} (skips e ne nz) w =
    goes_on-Fits r w holding leaving e (λ d. d) (At-stage r w holding leaving e)
Step-Fits {r} (sets buff stack e own) w =
    let (out, one) = At-stage r w holding notifying e in
    let shown =
      print (current r.system) buff stack (codes "main::setting value to 1\n") r.display in
    calls-Fits (record r { value = 1; display = shown })
      (record { monitor = w.monitor; all = w.all }) holding notifying e buff stack _ notify_enter
      refl out one
Step-Fits {r} (notified buff stack e out) w =
    goes_on-Fits r w notifying leaving e
      (print (current r.system) buff stack (codes "main::Thread notified\n"))
      (out, returned-At InNotify _ _ out (At-stage r w notifying leaving e))
Step-Fits {r} (leaves buff stack e) w =
    let (out, one) = At-stage r w leaving releasing e in
    record {
      monitor = Exclusion.later w.monitor (Exclusion.call release_enter refl out);
      all =
          call-AllAt At r.stages r.system.pcs r.system.depths (current r.system) w.all releasing
            release_enter one;
    }
Step-Fits {r} (finishes buff stack e out) w =
    goes_on-Fits r w releasing finished e
      (λ d.
        if current r.system == r.main
        then print (current r.system) buff stack (codes "Finished\n") d
        else d)
      (out, returned-At InRelease _ _ out (At-stage r w releasing finished e))
Step-Fits {r} (moves entry p mon m went lt small) w =
    let t : ℕ = current r.system in
    let owned = ((monitor-IsSound w.monitor).owned.threads t).holder in
    record {
      monitor = Exclusion.later w.monitor (Exclusion.moves entry p mon m went lt small);
      all = step-AllAt At r.stages r.system.pcs r.system.depths t w.all p _ (
          move-At (r.stages t) (r.system.pcs t) p (r.system.monitor.owner_thread_id == t)
            (r.system.depths t)
            (subst (Leads (r.system.pcs t)) went
              (advance-Leads entry (r.system.pcs t) r.system.monitor r.system.memory))
            (λ ne. (==_iff r.system.monitor.owner_thread_id t).1 (owned ne)) (w.all t));
    }
Step-Fits {r} (others m q p d) w = record {
  monitor = Exclusion.later w.monitor (Exclusion.others m q p);
  all = w.all;
}

abbrev FitsIf : Option Run → Type 0
FitsIf none = Unit
FitsIf (some r) = Fits r

-- A thread of the example has not begun.
first-AllAt :
    (main id : ℕ)
    → AllAt At (update (update (λ t. absent) main ready) id ready) (λ t. outside) (λ t. 0)
first-AllAt main id =
    stage-AllAt At (update (λ t. absent) main ready) (λ t. outside) (λ t. 0) id
      (stage-AllAt At (λ t. absent) (λ t. outside) (λ t. 0) main (λ u. (refl, refl)) ready
        (refl, refl))
      ready (refl, refl)

monitor_example-Fits :
    (mf code data_sel run stack buff : ℕ) (bytes : Bytes) (m : Memory) (d : Display)
    → FitsIf (monitor_example mf code data_sel run stack buff bytes m d)
unfolding monitor_example
monitor_example-Fits mf code data_sel run stack buff bytes m d =
    elim (Option-cases (new_monitor m)) [
      | inl lost ↦ rw (FitsIf, lost) tt
      | inr ((mon, n), e) ↦
          let (id, k) = create_thread mf code data_sel run stack 1024 n.kernel in
          rw (FitsIf, e)
            (record {
              monitor = Exclusion.later (Exclusion.made m n mon e) (
                  Exclusion.others (record n { kernel = k }) mon.threads_queue_release
                    mon.threads_queue_pulse);
              all = first-AllAt (get_current_thread_id n.kernel) id;
            })
    ]

Reach-Fits :
    {mf code data_sel run stack : ℕ} {r : Run} → Reach mf code data_sel run stack r → Fits r
Reach-Fits {mf} {code} {data_sel} {run} {stack} (made buff bytes m d r room e) =
    subst FitsIf e (monitor_example-Fits mf code data_sel run stack buff bytes m d)
Reach-Fits (later r st) = Step-Fits st (Reach-Fits r)

-- Between the return of `capture` and the call of `release`, but in `wait`.
abbrev pub has_monitor : Stage → Bool
has_monitor holding = true
has_monitor notifying = true
has_monitor leaving = true
has_monitor _ = false

notify-entered : (pc : Pc) (d : ℕ) → InNotify pc d → d ≡ 1
notify-entered outside d w = w
notify-entered notify_enter d w = w
notify-entered notify_body d w = w
notify-entered _ d w = absurd w

has_monitor-entered : (s : Stage) (pc : Pc) (d : ℕ) → has_monitor s ≡ true → At s pc d → d ≢ 0
has_monitor-entered holding pc d h (out, one) z = absurd (omega (arith, one, z))
has_monitor-entered leaving pc d h (out, one) z = absurd (omega (arith, one, z))
has_monitor-entered notifying pc d h at z = absurd (omega (arith, notify-entered pc d at, z))
has_monitor-entered _ pc d h at z = absurd (ground (arith, h))

-- In every state that the threads of `monitorExample` reach, with any switches between them, a
-- thread between the return of `capture` and its call of `release` that is not in `wait`, where
-- the value is read and written, is the owner of the monitor, and two such threads are the same.
pub value_guarded :
    {mf code data_sel run stack : ℕ} {r : Run}
    → Reach mf code data_sel run stack r
    → (t u : ℕ) → has_monitor (r.stages t) ≡ true
    → has_monitor (r.stages u) ≡ true
    → (t ≡ u) × (r.system.monitor.owner_thread_id ≡ t)
value_guarded {r = r} reached t u ht hu =
    let w = Reach-Fits reached in
    let owned = (monitor-IsSound w.monitor).owned.threads in
    let owner_t =
      (owned t).holder (has_monitor-entered (r.stages t) (r.system.pcs t) _ ht (w.all t)) in
    let owner_u =
      (owned u).holder (has_monitor-entered (r.stages u) (r.system.pcs u) _ hu (w.all u)) in
    (sym owner_t ∙ owner_u, owner_t)

-- ===== src/Threads/Spin/Tests.antt =====
-- Thread 0 holds a spin lock.
use test_kernel.Base.{ℕ, ◌≡◌, refl, ◌⊎◌, ◌==◌, false, none, some, update}
use test_kernel.Threads.{slock_capture, slock_init}
use test_kernel.Threads.Spin.{
  idle, trying, watching, holding, testing, clearing, spin, System, captures, accesses, Reach, made,
  later,
}
use test_kernel.Threads.Spin.Safety.{critical, spin-excludes}

abbrev held : System
held = record { pcs = update (update (λ t. idle) 0 trying) 0 holding; state = 1 }

held-Reach : Reach held
unfolding spin slock_init
held-Reach = later (later made (captures 0 refl)) (accesses 0)

spin-excludes_example :
    (((u : ℕ) → critical (held.pcs u) ≡ false)
      × ((spin trying 1).0 ≡ holding)
      × (slock_capture 1 ≡ some (spin trying 1).1))
    ⊎ ((t : ℕ) × ((u : ℕ) → critical (held.pcs u) ≡ (u == t))
        × ((spin trying 1).0 ≡ watching)
        × (slock_capture 1 ≡ none)
        × ((spin testing 1).0 ≡ clearing))
spin-excludes_example = spin-excludes held-Reach

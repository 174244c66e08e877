-- ===== src/Threads/Spin.antt =====
-- TestKernel1/src/arch/ia32/threads.c: the spin lock, an access to its word at a time, between
-- threads that release it only after they have captured it.
pub mod Safety
mod Tests
use test_kernel.Threads.{slock_init}
use test_kernel.Base.{ℕ, ◌≡◌, Bool, true, false, not, if◌then◌else◌, ◌==◌, update}

-- `_spin_try_lock`: the exchange of 1 with the word, and whether the word was 0.
abbrev pub spin_try_lock : (state : ℕ) → Bool × ℕ
spin_try_lock state = (state == 0, 1)

-- Where a thread is: without the lock; at the exchange and at the inner loop of `slockCapture`;
-- behind its return; at the test and at the write of `slockRelease`.
pub data Pc : Type 0 where
  idle trying watching holding testing clearing : Pc

-- The next access of a thread, and the word behind it. A thread that is idle or holds the lock does
-- not touch the word.
unfoldable pub spin : Pc → (state : ℕ) → Pc × ℕ
spin idle state = (idle, state)
spin trying state =
    let (done, new) = spin_try_lock state in (if done then holding else watching, new)
spin watching state = (if not (state == 0) then watching else trying, state)
spin holding state = (holding, state)
spin testing state = (if state == 1 then clearing else idle, state)
spin clearing state = (idle, 0)

pub record System : Type 0 where
  pub pcs : ℕ → Pc
  pub state : ℕ

-- A call of `slockCapture` or of `slockRelease`, and an access, of any thread.
pub data Step (s : System) : System → Type 0 where
  captures : (t : ℕ) → s.pcs t ≡ idle → Step s (record s { pcs = update s.pcs t trying })
  releases : (t : ℕ) → s.pcs t ≡ holding → Step s (record s { pcs = update s.pcs t testing })
  accesses :
      (t : ℕ)
      → Step s (record s {
        pcs = update s.pcs t (spin (s.pcs t) s.state).0;
        state = (spin (s.pcs t) s.state).1;
      })

-- From a lock of `slockInit` that no thread has captured.
pub data Reach : System → Type 0 where
  made : Reach (record { pcs = λ t. idle; state = slock_init })
  later : {s n : System} → Reach s → Step s n → Reach n

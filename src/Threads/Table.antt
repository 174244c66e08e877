-- ===== src/Threads/Table.antt =====
-- src/arch/ia32/threads.c: the slots of the table against the statuses of their threads, and what
-- each operation does to both.
use test_kernel.Base.{
  ℕ, zero, suc, ◌+◌, ◌%◌, ◌≤◌, ◌<◌, ◌≡◌, ◌≢◌, refl, sym, subst, inl, inr, true, false, some, arith,
  update, update-same, update-ne, Bool-cases, ◌==◌, ==_iff,
}
use native.Mathlib.Nat.{mod-lt}
use test_kernel.Threads.{
  Thread, Kernel, max_total_threads, wake_thread, enter_thread, add_thread, create_thread,
  change_thread, next_scheduled, get_thread,
}
use test_kernel.Threads.Status.{
  Status, fresh, ready, waiting, idle, scheduled, state_of, runs, leaves, woken, Place, starting,
  inside, dozing, leaving, fits,
}

-- The kernel, with the status and the place of each thread as they follow from what has been done.
pub record System : Type 0 where
  pub kernel : Kernel
  pub status : ℕ → Status
  pub place : ℕ → Place

abbrev pub becomes : System → Kernel → ℕ → Status → Place → System
becomes x k i s p = record { kernel = k; status = update x.status i s; place = update x.place i p }

-- The slot of the thread i is as its status says, which is one that it may have at its place.
pub record Agrees (th : Thread) (i : ℕ) (s : Status) (p : Place) : Type 0 where
  pub numbered : th.id ≡ i
  pub flag : th.is_under_sheduling ≡ scheduled s
  pub state : th.state ≡ state_of s
  pub placed : fits p s ≡ true

pub record IsSound (x : System) : Type 0 where
  pub current_exists : x.kernel.curr_thread_index < x.kernel.curr_threads_count
  pub table_holds : x.kernel.curr_threads_count ≤ max_total_threads
  pub all :
      (i : ℕ)
      → i < x.kernel.curr_threads_count
      → Agrees (x.kernel.threads i) i (x.status i) (x.place i)

next_scheduled-lt :
    (threads : ℕ → Thread) (count fuel i j : ℕ)
    → 0 < count
    → next_scheduled threads count fuel i ≡ some j
    → j < count
unfolding next_scheduled
next_scheduled-lt threads count zero i j pos h = cc
next_scheduled-lt threads count (suc fuel) i j pos h =
    ground (arith, mod-lt (i + 1) pos, next_scheduled-lt threads count fuel ((i + 1) % count) j pos)

-- The slot of a thread that leaves the schedule inside its function.
pub leaves-flag : (s : Status) → fits inside s ≡ true → scheduled (leaves s) ≡ false
leaves-flag ready h = refl
leaves-flag waiting h = refl
leaves-flag idle h = refl
leaves-flag _ h = cc

pub leaves-state : (s : Status) → fits inside s ≡ true → state_of (leaves s) ≡ state_of s
leaves-state ready h = refl
leaves-state waiting h = refl
leaves-state idle h = refl
leaves-state _ h = cc

pub leaves-fits : (s : Status) → fits inside s ≡ true → fits leaving (leaves s) ≡ true
leaves-fits ready h = refl
leaves-fits waiting h = refl
leaves-fits idle h = refl
leaves-fits _ h = cc

waiting-fits : (p : Place) → fits p waiting ≡ true → fits p ready ≡ true
waiting-fits inside h = refl
waiting-fits dozing h = refl
waiting-fits leaving h = refl
waiting-fits _ h = cc

-- Waking a thread does to its slot what it does to its status.
pub wake_thread-Agrees :
    (id : ℕ) (k : Kernel) (s : Status) (p : Place)
    → id < k.curr_threads_count
    → Agrees (k.threads id) id s p
    → Agrees ((wake_thread id k).1.threads id) id (woken s) p
unfolding wake_thread
wake_thread-Agrees id k waiting p lt a = record {
  numbered = ground (arith, a.numbered, a.flag, a.state);
  flag = ground (arith, a.flag, a.state);
  state = ground (arith, a.flag, a.state);
  placed = waiting-fits p a.placed;
}
wake_thread-Agrees id k s p lt a = record {
  numbered = ground (arith, a.numbered, a.flag, a.state);
  flag = ground (arith, a.flag, a.state);
  state = ground (arith, a.flag, a.state);
  placed = a.placed;
}

pub wake_thread-others :
    (id j : ℕ) (k : Kernel) → j ≢ id → (wake_thread id k).1.threads j ≡ k.threads j
unfolding wake_thread
wake_thread-others id j k ne = ground arith

pub wake_thread-same :
    (id : ℕ) (k : Kernel)
    → ((wake_thread id k).1.curr_threads_count ≡ k.curr_threads_count)
      × ((wake_thread id k).1.curr_thread_index ≡ k.curr_thread_index)
unfolding wake_thread
wake_thread-same id k = (ground arith, ground arith)

module _ {x : System} (w : IsSound x) where
  -- One thread changes.
  pub becomes-IsSound :
      (n : Kernel) (i : ℕ) (s : Status) (p : Place)
      → n.curr_threads_count ≡ x.kernel.curr_threads_count
      → n.curr_thread_index ≡ x.kernel.curr_thread_index
      → ((j : ℕ) → j ≢ i → n.threads j ≡ x.kernel.threads j)
      → (i < x.kernel.curr_threads_count → Agrees (n.threads i) i s p)
      → IsSound (becomes x n i s p)
  becomes-IsSound n i s p count current others self = record {
    current_exists = omega (arith, w.current_exists, count, current);
    table_holds = omega (arith, w.table_holds, count);
    all = λ j lt. elim (Bool-cases (j == i)) [
      | inl e ↦
          let at : j ≡ i = (==_iff j i).0 e in
          rw e
            (subst (λ q. Agrees (n.threads q) q s p) (sym at) (self (omega (arith, lt, count, at))))
      | inr e ↦ rw (e, others j (λ q. ground (arith, e, q))) (w.all j (omega (arith, lt, count)))
    ];
  }

  -- The current thread changes its own slot.
  pub current-IsSound :
      (th : Thread) (s : Status) (p : Place)
      → Agrees th x.kernel.curr_thread_index s p
      → IsSound (
          becomes x
            (record x.kernel { threads = update x.kernel.threads x.kernel.curr_thread_index th })
            x.kernel.curr_thread_index
            s
            p)
  current-IsSound th s p a =
      becomes-IsSound _ x.kernel.curr_thread_index s p refl refl
        (λ j ne. update-ne x.kernel.threads x.kernel.curr_thread_index j th ne)
        (λ lt.
          subst (λ t. Agrees t x.kernel.curr_thread_index s p)
            (sym (update-same x.kernel.threads x.kernel.curr_thread_index th)) a)

  pub create_thread-IsSound :
      (mf code ds f st size : ℕ)
      → x.kernel.curr_threads_count < max_total_threads
      → IsSound (
          becomes x
            (create_thread mf code ds f st size x.kernel).1
            (create_thread mf code ds f st size x.kernel).0
            fresh
            starting)
  unfolding create_thread add_thread
  create_thread-IsSound mf code ds f st size room = record {
    current_exists = omega (arith, w.current_exists);
    table_holds = omega (arith, room);
    all = λ j lt. elim (Bool-cases (j == x.kernel.curr_threads_count)) [
      | inl e ↦ rw e (record {
        numbered = sym ((==_iff j x.kernel.curr_threads_count).0 e);
        flag = refl;
        state = refl;
        placed = refl;
      })
      | inr e ↦ rw e (w.all j (ground (arith, lt, e)))
    ];
  }

  pub change_thread-IsSound :
      (fuel regs r : ℕ) {n : Kernel}
      → change_thread fuel regs x.kernel ≡ some (r, n)
      → IsSound (record x { kernel = n })
  unfolding change_thread
  change_thread-IsSound fuel regs r {n} e = record {
    current_exists = ground (arith, w.current_exists, found n.curr_thread_index);
    table_holds = ground (arith, w.table_holds);
    all = λ j lt.
        let a = w.all j (ground arith) in
        record {
          numbered = ground (arith, a.numbered);
          flag = ground (arith, a.flag);
          state = ground (arith, a.state);
          placed = a.placed;
        };
  }
    where
      k : Kernel
      k = x.kernel

      saved : ℕ → Thread
      saved =
          update k.threads k.curr_thread_index
            (record (k.threads k.curr_thread_index) { stack_ptr = regs })

      found :
          (j : ℕ)
          → next_scheduled saved k.curr_threads_count fuel k.curr_thread_index ≡ some j
          → j < k.curr_threads_count
      found j =
          next_scheduled-lt saved k.curr_threads_count fuel k.curr_thread_index j
            (omega (arith, w.current_exists))

  -- The current thread, as it stands.
  pub own :
      Agrees
        (x.kernel.threads x.kernel.curr_thread_index)
        x.kernel.curr_thread_index
        (x.status x.kernel.curr_thread_index)
        (x.place x.kernel.curr_thread_index)
  own = w.all x.kernel.curr_thread_index w.current_exists

  pub at_inside :
      x.place x.kernel.curr_thread_index ≡ inside
      → fits inside (x.status x.kernel.curr_thread_index) ≡ true
  at_inside at = subst (λ p. fits p (x.status x.kernel.curr_thread_index) ≡ true) at own.placed

  pub running-IsSound : IsSound (
      becomes x
        (enter_thread x.kernel)
        x.kernel.curr_thread_index
        (runs (x.status x.kernel.curr_thread_index))
        inside)
  unfolding enter_thread get_thread
  running-IsSound = current-IsSound _ _ _ (record {
    numbered = own.numbered;
    flag = ground (arith, own.flag);
    state = ground arith;
    placed = ground arith;
  })

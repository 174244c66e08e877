-- ===== src/Sync/Ownership.antt =====
-- What `ownerThreadId` and `enterCounter` of mutex.c and monitor.c stand for, and what a spin lock
-- protects. `depth t` is how often thread t has entered without leaving.
use test_kernel.Base.{
  ℕ, ◌+◌, ◌-◌, ◌<◌, ◌≡◌, ◌≢◌, sym, subst, Bool, true, false, arith, update, update_cases, u32,
  sub32,
}
use test_kernel.Threads.{slock_release}
use test_kernel.Sync.{nobody}

-- What the owner and the counter say of thread t and its depth.
pub record OwnedBy (owner counter t depth : ℕ) : Type 0 where
  pub holder : depth ≢ 0 → owner ≡ t
  pub real : depth ≢ 0 → t ≢ nobody
  pub counts : owner ≡ t → t ≢ nobody → counter ≡ depth
  pub positive : owner ≡ t → t ≢ nobody → depth ≢ 0

-- The owner is the one thread that has entered, and the counter is its depth.
pub record Owned (owner counter : ℕ) (depth : ℕ → ℕ) : Type 0 where
  pub threads : (t : ℕ) → OwnedBy owner counter t (depth t)
  pub free : owner ≡ nobody → counter ≡ 0
  pub small : counter < 2147483648

-- What a step of thread t may do to the owner and the counter, and by `gain` to its depth.
pub data Effect (t o c o2 c2 : ℕ) (gain : ℕ → ℕ) : Type 0 where
  keeps : o2 ≡ o → c2 ≡ c → ((d : ℕ) → gain d ≡ d) → Effect t o c o2 c2 gain
  enters : o ≡ t → o2 ≡ t → c2 ≡ u32 (c + 1) → ((d : ℕ) → gain d ≡ d + 1) → Effect t o c o2 c2 gain
  takes :
      o ≡ nobody → o2 ≡ t → c2 ≡ u32 (c + 1) → ((d : ℕ) → gain d ≡ d + 1) → Effect t o c o2 c2 gain
  leaves :
      o ≡ t
      → o2 ≡ t
      → c2 ≡ sub32 c 1
      → c2 ≢ 0
      → ((d : ℕ) → gain d ≡ d - 1)
      → Effect t o c o2 c2 gain
  frees :
      o ≡ t
      → o2 ≡ nobody
      → c2 ≡ sub32 c 1
      → c2 ≡ 0
      → ((d : ℕ) → gain d ≡ d - 1)
      → Effect t o c o2 c2 gain

OwnedBy-mover :
    (t o c o2 c2 d : ℕ) (gain : ℕ → ℕ)
    → t ≢ nobody
    → c < 2147483648
    → (o ≡ nobody → c ≡ 0)
    → OwnedBy o c t d
    → Effect t o c o2 c2 gain
    → OwnedBy o2 c2 t (gain d)
OwnedBy-mover t o c o2 c2 d gain nt sm fr w (keeps a b g) = rw (g d) record {
  holder = ground arith;
  real = ground arith;
  counts = ground arith;
  positive = ground arith;
}
OwnedBy-mover t o c o2 c2 d gain nt sm fr w (enters a b b2 g) = rw (g d) record {
  holder = ground arith;
  real = ground arith;
  counts = ground arith;
  positive = ground arith;
}
OwnedBy-mover t o c o2 c2 d gain nt sm fr w (takes a b b2 g) = rw (g d) record {
  holder = ground arith;
  real = ground arith;
  counts = ground arith;
  positive = ground arith;
}
OwnedBy-mover t o c o2 c2 d gain nt sm fr w (leaves a b b2 z g) = rw (g d) record {
  holder = ground arith;
  real = ground arith;
  counts = ground arith;
  positive = ground arith;
}
OwnedBy-mover t o c o2 c2 d gain nt sm fr w (frees a b b2 z g) = rw (g d) record {
  holder = ground arith;
  real = ground arith;
  counts = ground arith;
  positive = ground arith;
}

OwnedBy-other :
    (t u o c o2 c2 d : ℕ) (gain : ℕ → ℕ)
    → u ≢ t
    → OwnedBy o c u d
    → Effect t o c o2 c2 gain
    → OwnedBy o2 c2 u d
OwnedBy-other t u o c o2 c2 d gain ne w (keeps a b g) = record {
  holder = ground arith;
  real = ground arith;
  counts = ground arith;
  positive = ground arith;
}
OwnedBy-other t u o c o2 c2 d gain ne w (enters a b b2 g) = record {
  holder = ground arith;
  real = ground arith;
  counts = ground arith;
  positive = ground arith;
}
OwnedBy-other t u o c o2 c2 d gain ne w (takes a b b2 g) = record {
  holder = ground arith;
  real = ground arith;
  counts = ground arith;
  positive = ground arith;
}
OwnedBy-other t u o c o2 c2 d gain ne w (leaves a b b2 z g) = record {
  holder = ground arith;
  real = ground arith;
  counts = ground arith;
  positive = ground arith;
}
OwnedBy-other t u o c o2 c2 d gain ne w (frees a b b2 z g) = record {
  holder = ground arith;
  real = ground arith;
  counts = ground arith;
  positive = ground arith;
}

free-Effect :
    (t o c o2 c2 : ℕ) (gain : ℕ → ℕ)
    → t ≢ nobody
    → (o ≡ nobody → c ≡ 0)
    → Effect t o c o2 c2 gain
    → o2 ≡ nobody
    → c2 ≡ 0
free-Effect t o c o2 c2 gain nt fr (keeps a b g) h = ground arith
free-Effect t o c o2 c2 gain nt fr (enters a b b2 g) h = ground arith
free-Effect t o c o2 c2 gain nt fr (takes a b b2 g) h = ground arith
free-Effect t o c o2 c2 gain nt fr (leaves a b b2 z g) h = ground arith
free-Effect t o c o2 c2 gain nt fr (frees a b b2 z g) h = z

pub Owned-Effect :
    (t o c o2 c2 : ℕ) (gain depth : ℕ → ℕ)
    → t ≢ nobody
    → Owned o c depth
    → c2 < 2147483648
    → Effect t o c o2 c2 gain
    → Owned o2 c2 (update depth t (gain (depth t)))
Owned-Effect t o c o2 c2 gain depth nt w sm e = record {
  threads = λ u.
      update_cases (OwnedBy o2 c2 u) depth t (gain (depth t)) u
        (λ q.
          subst (λ v. OwnedBy o2 c2 v (gain (depth t))) (sym q)
            (OwnedBy-mover t o c o2 c2 (depth t) gain nt w.small w.free (w.threads t) e))
        (λ ne. OwnedBy-other t u o c o2 c2 (depth u) gain ne (w.threads u) e);
  free = free-Effect t o c o2 c2 gain nt w.free e;
  small = sm;
}

-- At most one thread is between the capture and the release of a spin lock.
pub record Exclusive (inside : ℕ → Bool) (lock : ℕ) : Type 0 where
  pub one : (t u : ℕ) → inside t ≡ true → inside u ≡ true → t ≡ u
  pub taken : (t : ℕ) → inside t ≡ true → lock ≡ 1

-- What a step does to the lock, and to whether its thread is inside.
pub data LockEffect (before after : Bool) (l l2 : ℕ) : Type 0 where
  captures : before ≡ false → after ≡ true → l ≡ 0 → l2 ≡ 1 → LockEffect before after l l2
  releases : before ≡ true → after ≡ false → l2 ≡ slock_release l → LockEffect before after l l2
  passes : before ≡ false → after ≡ false → l2 ≡ l → LockEffect before after l l2
  abandons : before ≡ true → after ≡ false → l2 ≡ l → LockEffect before after l l2

pub Exclusive-LockEffect :
    (inside now : ℕ → Bool) (t l l2 : ℕ)
    → ((u : ℕ) → u ≢ t → now u ≡ inside u)
    → Exclusive inside l
    → LockEffect (inside t) (now t) l l2
    → Exclusive now l2
unfolding slock_release
Exclusive-LockEffect inside now t l l2 same w (captures a b c d) = record {
  one = λ u v hu hv. ground (arith, same u, same v, w.taken u, w.taken v);
  taken = λ u hu. d;
}
Exclusive-LockEffect inside now t l l2 same w (releases a b c) = record {
  one = λ u v hu hv. ground (arith, same u, same v, w.one t u, w.one t v);
  taken = λ u hu. ground (arith, same u, w.one t u, hu);
}
Exclusive-LockEffect inside now t l l2 same w (passes a b c) = record {
  one = λ u v hu hv. ground (arith, same u, same v, w.one u v);
  taken = λ u hu. ground (arith, same u, w.taken u, hu);
}
Exclusive-LockEffect inside now t l l2 same w (abandons a b c) = record {
  one = λ u v hu hv. ground (arith, same u, same v, w.one t u, w.one t v);
  taken = λ u hu. ground (arith, same u, w.one t u, hu);
}

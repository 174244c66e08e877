-- ===== src/Sync/Stages.antt =====
-- The examples mutexExample.c and monitorExample.c: where every thread is, in its own code by a
-- stage s, in a method by a place p, and how often it has entered. A step changes this for one
-- thread.
use test_kernel.Base.{ℕ, Bool-cases, inl, inr, ◌==◌, ==_iff, update}

module _ {S P : Type 0} (At : S → P → ℕ → Type 0) where
  -- Every thread is where its stage says.
  abbrev pub AllAt : (ℕ → S) → (ℕ → P) → (ℕ → ℕ) → Type 0
  AllAt stages pcs depths = (u : ℕ) → At (stages u) (pcs u) (depths u)

  module _ (stages : ℕ → S) (pcs : ℕ → P) (depths : ℕ → ℕ) (t : ℕ)
      (all : (u : ℕ) → At (stages u) (pcs u) (depths u)) where
    pub stage-AllAt : (s : S) → At s (pcs t) (depths t) → AllAt (update stages t s) pcs depths
    stage-AllAt s at u = elim (Bool-cases (u == t)) [
      | inl e ↦ rw (e, (==_iff u t).0 e) at
      | inr e ↦ rw e (all u)
    ]

    pub call-AllAt :
        (s : S) (p : P) → At s p (depths t) → AllAt (update stages t s) (update pcs t p) depths
    call-AllAt s p at u = elim (Bool-cases (u == t)) [
      | inl e ↦ rw (e, (==_iff u t).0 e) at
      | inr e ↦ rw e (all u)
    ]

    pub step-AllAt :
        (p : P) (d : ℕ) → At (stages t) p d → AllAt stages (update pcs t p) (update depths t d)
    step-AllAt p d at u = elim (Bool-cases (u == t)) [
      | inl e ↦ rw (e, (==_iff u t).0 e) at
      | inr e ↦ rw e (all u)
    ]

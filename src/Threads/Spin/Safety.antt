-- ===== src/Threads/Spin/Safety.antt =====
-- TestKernel1/src/arch/ia32/threads.c: at most one thread holds a spin lock, and a lock that none
-- holds can be taken.
use test_kernel.Base.{
  ℕ, ◌≡◌, ◌⊎◌, inl, inr, refl, sym, ap, ◌∙◌, subst, Bool, true, false, none, some, ◌==◌, ==_iff,
  Bool-cases, update, update-same, arith,
}
use test_kernel.Threads.{slock_capture, slock_init}
use test_kernel.Threads.Spin.{
  Pc, idle, trying, watching, holding, testing, clearing, spin, System, Step, captures, releases,
  accesses, Reach, made, later,
}

-- From the return of `slockCapture` to the last access of `slockRelease`.
abbrev pub critical : Pc → Bool
critical holding = true
critical testing = true
critical clearing = true
critical _ = false

-- The word is 0 and no thread is critical, or it is 1 and thread t alone is.
abbrev Free : System → Type 0
Free s = (s.state ≡ 0) × ((u : ℕ) → critical (s.pcs u) ≡ false)

abbrev HeldBy : System → ℕ → Type 0
HeldBy s t =
    (s.state ≡ 1) × (critical (s.pcs t) ≡ true) × ((u : ℕ) → critical (s.pcs u) ≡ true → u ≡ t)

abbrev Sound : System → Type 0
Sound s = Free s ⊎ ((t : ℕ) × HeldBy s t)

-- A thread changes its place and stays as critical as it was, and the word stays.
module _ (s : System) (t : ℕ) (p : Pc) (same : critical p ≡ critical (s.pcs t)) where
  critical-update : (u : ℕ) → critical (update s.pcs t p u) ≡ critical (s.pcs u)
  critical-update u = elim (Bool-cases (u == t)) [
    | inl e ↦ rw (e, (==_iff u t).0 e) same
    | inr e ↦ rw e refl
  ]

  kept-HeldBy :
      (v word : ℕ)
      → word ≡ 1
      → HeldBy s v
      → HeldBy (record { pcs = update s.pcs t p; state = word }) v
  kept-HeldBy v word one (_, held, only) =
      (one, critical-update v ∙ held, λ u c. only u (sym (critical-update u) ∙ c))

  moves-Sound : Sound s → Sound (record s { pcs = update s.pcs t p })
  moves-Sound (inl (zero_word, none_in)) = inl (zero_word, λ u. critical-update u ∙ none_in u)
  moves-Sound (inr (v, held)) = inr (v, kept-HeldBy v s.state held.0 held)

-- A critical thread is the one that holds the lock.
critical-HeldBy : (s : System) (t : ℕ) → critical (s.pcs t) ≡ true → Sound s → HeldBy s t
critical-HeldBy s t c (inl (zero_word, none_in)) = absurd (ground (arith, c, none_in t))
critical-HeldBy s t c (inr (v, (one, held, only))) =
    subst (HeldBy s) (sym (only t c)) (one, held, only)

-- With the word 0 the thread t enters, and with the word 0 behind it it leaves.
enter-HeldBy :
    (s : System) (t : ℕ)
    → ((u : ℕ) → critical (s.pcs u) ≡ false)
    → HeldBy (record { pcs = update s.pcs t holding; state = 1 }) t
enter-HeldBy s t none_in = (
  refl,
  ap critical (update-same s.pcs t holding),
  λ u c. ground (arith, c, none_in u, ==_iff u t),
)

leave-Free :
    (s : System) (t : ℕ) → HeldBy s t → Free (record { pcs = update s.pcs t idle; state = 0 })
leave-Free s t (one, held, only) = (
  refl,
  λ u. elim (Bool-cases (u == t)) [
    | inl e ↦ rw e refl
    | inr e ↦ elim (Bool-cases (critical (s.pcs u))) [
      | inl c ↦ absurd (ground (arith, e, only u c))
      | inr c ↦ rw e c
    ]
  ],
)

exchange-Sound :
    (s : System) (t : ℕ)
    → s.pcs t ≡ trying
    → Sound s
    → Sound
        (record { pcs = update s.pcs t (spin trying s.state).0; state = (spin trying s.state).1 })
unfolding spin
exchange-Sound s t e (inl (zero_word, none_in)) =
    rw ((==_iff s.state 0).1 zero_word) (inr (t, enter-HeldBy s t none_in))
exchange-Sound s t e (inr (v, held)) =
    let taken : (s.state == 0) ≡ false = ground (arith, held.0) in
    rw taken (inr (v, kept-HeldBy s t watching (sym (ap critical e)) v 1 refl held))

access-Sound :
    (s : System) (t : ℕ) (p : Pc)
    → s.pcs t ≡ p
    → Sound s
    → Sound (record s { pcs = update s.pcs t (spin p s.state).0; state = (spin p s.state).1 })
unfolding spin
access-Sound s t idle e w = moves-Sound s t idle (sym (ap critical e)) w
access-Sound s t holding e w = moves-Sound s t holding (sym (ap critical e)) w
access-Sound s t watching e w = elim (Bool-cases (s.state == 0)) [
  | inl free ↦ rw free (moves-Sound s t trying (sym (ap critical e)) w)
  | inr taken ↦ rw taken (moves-Sound s t watching (sym (ap critical e)) w)
]
access-Sound s t testing e w =
    rw ((==_iff s.state 1).1 (critical-HeldBy s t (ap critical e) w).0)
      (moves-Sound s t clearing (sym (ap critical e)) w)
access-Sound s t clearing e w = inl (leave-Free s t (critical-HeldBy s t (ap critical e) w))
access-Sound s t trying e w = exchange-Sound s t e w

Step-Sound : {s n : System} → Step s n → Sound s → Sound n
Step-Sound {s} (captures t e) w = moves-Sound s t trying (sym (ap critical e)) w
Step-Sound {s} (releases t e) w = moves-Sound s t testing (sym (ap critical e)) w
Step-Sound {s} (accesses t) w = access-Sound s t (s.pcs t) refl w

Reach-Sound : {s : System} → Reach s → Sound s
unfolding slock_init
Reach-Sound made = inl (refl, λ u. refl)
Reach-Sound (later r st) = Step-Sound st (Reach-Sound r)

abbrev Open : System → Type 0
Open s =
    ((u : ℕ) → critical (s.pcs u) ≡ false)
    × ((spin trying s.state).0 ≡ holding)
    × (slock_capture s.state ≡ some (spin trying s.state).1)

abbrev Taken : System → ℕ → Type 0
Taken s t =
    ((u : ℕ) → critical (s.pcs u) ≡ (u == t))
    × ((spin trying s.state).0 ≡ watching)
    × (slock_capture s.state ≡ none)
    × ((spin testing s.state).0 ≡ clearing)

Free-Open : (s : System) → Free s → Open s
unfolding spin slock_capture
Free-Open s (e, none_in) = (none_in, ground arith, ground arith)

HeldBy-Taken : (s : System) (t : ℕ) → HeldBy s t → Taken s t
unfolding spin slock_capture
HeldBy-Taken s t (e, held, only) = (
  λ u. elim (Bool-cases (u == t)) [
    | inl same ↦ rw (same, (==_iff u t).0 same) held
    | inr other ↦ elim (Bool-cases (critical (s.pcs u))) [
      | inl c ↦ absurd (ground (arith, other, only u c))
      | inr c ↦ rw other c
    ]
  ],
  ground arith,
  ground arith,
  ground arith,
)

-- In every state that threads reach which capture a new spin lock and release it afterwards, in
-- any order of their accesses, one of two things holds. No thread is between the return of
-- `slockCapture` and the last access of `slockRelease`; then an exchange succeeds, as the capture
-- as one step does. Or exactly one thread is there; then an exchange fails, the capture as one
-- step is stuck, and the test of `slockRelease` succeeds.
pub spin-excludes :
    {s : System}
    → Reach s
    → (((u : ℕ) → critical (s.pcs u) ≡ false)
        × ((spin trying s.state).0 ≡ holding)
        × (slock_capture s.state ≡ some (spin trying s.state).1))
      ⊎ ((t : ℕ) × ((u : ℕ) → critical (s.pcs u) ≡ (u == t))
          × ((spin trying s.state).0 ≡ watching)
          × (slock_capture s.state ≡ none)
          × ((spin testing s.state).0 ≡ clearing))
spin-excludes {s} r = elim (Reach-Sound r) [
  | inl free ↦ inl (Free-Open s free)
  | inr (t, held) ↦
      let (one, tried, stuck, tested) = HeldBy-Taken s t held in inr (t, one, tried, stuck, tested)
]

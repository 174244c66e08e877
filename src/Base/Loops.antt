-- ===== src/Base/Loops.antt =====
-- Counted loops of C, `for (i = start; i < start + n; i++)`, with their invariant rule.
use Prim.Native.Nat.{ℕ, zero, suc, ◌+◌, ◌<◌}
use mathlib.Core.Path.{◌≡◌, subst}
use native.Mathlib.Omega.{arith}

unfoldable pub count_up {ℓ} : {S : Type ℓ} → (ℕ → S → S) → ℕ → ℕ → S → S
count_up body zero i s = s
count_up body (suc n) i s = count_up body n (i + 1) (body i s)

-- An invariant that each round carries from `i` to `i + 1` holds at the end.
pub count_up_inv {ℓ κ} :
    {S : Type ℓ} (P : ℕ → S → Type κ) (body : ℕ → S → S) (stop : ℕ)
    → ((i : ℕ) (s : S) → i < stop → P i s → P (i + 1) (body i s))
    → (n i : ℕ) (s : S) → i + n ≡ stop
    → P i s
    → P stop (count_up body n i s)
unfolding count_up
count_up_inv P body stop keep zero i s e h =
    let done : i ≡ stop = omega arith in subst (λ k. P k s) done h
count_up_inv P body stop keep (suc n) i s e h =
    count_up_inv P body stop keep n (i + 1) (body i s) (omega arith) (keep i s (omega arith) h)

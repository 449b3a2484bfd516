-- ===== src/Base/Order.antt =====
-- Strong induction on the native numbers.
use Prim.Native.Nat.{ℕ, zero, suc, ◌<◌}
use native.Mathlib.Omega.{arith}

induct_below {ℓ} :
    (C : ℕ → Type ℓ) → ((n : ℕ) → ((m : ℕ) → m < n → C m) → C n) → (k n : ℕ) → n < k → C n
induct_below C step zero n h = elim h [ ]
induct_below C step (suc k) n h = step n (λ m hm. induct_below C step k m (omega arith))

pub strong_induct {ℓ} : (C : ℕ → Type ℓ) → ((n : ℕ) → ((m : ℕ) → m < n → C m) → C n) → (n : ℕ) → C n
strong_induct C step n = induct_below C step (suc n) n (omega arith)
